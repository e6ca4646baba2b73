-- ===== src/Map/FindsOldest.antt =====
-- `cmark_map_lookup` as the search for the entry created first.
use swift_cmark.Base.{
  Bool, Bool-cases, Bytes, List, Option, Option-cases, [], ap, arith, false, if◌then◌else◌, inl,
  inr, length, ltb, none, refl, some, subst, sym, true, ℕ, ◌==◌, ◌||◌, ◌∙◌, ◌∷◌, ◌≡◌,
}
use swift_cmark.Map.{
  CmarkMap, MapEntry, SortSearch, refcmp, refsearch, distinct, sort_map, sort_once, sorted_entries,
  expand, lookup, max_link_label_length, normalize_map_label,
}
use swift_cmark.Map.Created.{Aged}
use swift_cmark.Map.Oldest.{oldest, oldest-IsOldest, IsOldest-unique}
use swift_cmark.Map.Size.{IsLimited}
use swift_cmark.Map.Lookup.{
  IsSortSearch, IsReady, Cached, within_limit, expand_lem, search_lem, sorted-IsDistinct, perm-mem,
}
use mathlib.Core.List.{Memᴰ}
use mathlib.Core.List.Memᴰ

module _ {A : Type 0} (lib : SortSearch (MapEntry A)) where
  -- The search by the definition of a map: no sorting, and the entry created first.
  unfoldable pub find : (ℕ → Bytes) → CmarkMap A → Bytes → Option (MapEntry A)
  find fold m label =
      if ltb (length label) 1 || ltb max_link_label_length (length label)
      then none
      else elim (normalize_map_label fold label) [
        | none ↦ none
        | some norm ↦ within_limit lib m (oldest norm m.refs)
      ]

  pub within_limit_same :
      (s t : CmarkMap A) (o : Option (MapEntry A))
      → s.ref_size ≡ t.ref_size
      → s.max_ref_size ≡ t.max_ref_size
      → within_limit lib s o ≡ within_limit lib t o
  within_limit_same s t none e f = refl
  within_limit_same s t (some x) e f = rw (e, f) refl

  abbrev Same : Option (MapEntry A) × CmarkMap A → Option (MapEntry A) → Type 0
  Same x o = (x.0 ≡ o) × IsReady lib x.1

  if-Same :
      (x y : Option (MapEntry A) × CmarkMap A) (o p : Option (MapEntry A)) (b : Bool)
      → Same x o
      → Same y p
      → Same (if b then x else y) (if b then o else p)
  if-Same x y o p true h k = h
  if-Same x y o p false h k = k

  module _ (laws : IsSortSearch lib) where
    -- A map that counts no entries has none.
    no_entry : (m : CmarkMap A) → IsReady lib m → m.size ≡ 0 → (x : MapEntry A) → Memᴰ x m.refs → ⊥
    unfolding IsReady
    no_entry m (g, c) z x h = by_cache m.sorted c
      where
        nothing : {B : Type 0} {y : B} (l : List B) → length l ≡ 0 → Memᴰ y l → ⊥
        nothing [] e i = Memᴰ.not-nil i
        nothing (w ∷ l) e i = omega (arith, e)

        by_cache : (o : Option (List (MapEntry A))) → Cached lib m o → ⊥
        by_cache none e = nothing m.refs (sym e ∙ z) h
        by_cache (some kept) (e, f) =
            let d = sorted-IsDistinct lib laws m.refs in
            let (k, n, q) = d.kept_label x (perm-mem (laws.permuted refcmp m.refs) h) in
            nothing kept (sym f ∙ z) (subst (Memᴰ k) (sym e) n)

    sort_once_lem :
        (m : CmarkMap A)
        → IsReady lib m
        → (sorted_entries lib (sort_once lib m) ≡ distinct (lib.qsort refcmp m.refs))
          × IsReady lib (sort_once lib m)
          × ((sort_once lib m).ref_size ≡ m.ref_size)
          × ((sort_once lib m).max_ref_size ≡ m.max_ref_size)
    unfolding IsReady sort_map
    sort_once_lem m (g, c) = elim (Option-cases m.sorted) [
      | inl e ↦ rw e (refl, (g, (refl, refl)), refl, refl)
      | inr (kept, e) ↦ let (f, n) = subst (Cached lib m) e c in rw e (f, (g, (f, n)), refl, refl)
    ]

    IsReady-Aged : (m : CmarkMap A) → IsReady lib m → Aged m.refs
    unfolding IsReady
    IsReady-Aged m r = r.0

    -- A map that is searched.
    searched :
        (m : CmarkMap A) (norm : Bytes)
        → IsReady lib m
        → IsLimited m
        → Same
            (expand lib
              (sort_once lib m)
              (lib.bsearch (refsearch norm) (sorted_entries lib (sort_once lib m))))
            (within_limit lib m (oldest norm m.refs))
    unfolding IsReady
    searched m norm r (h, k) =
        let (f, ready, same_size, same_limit) = sort_once_lem m r in
        let o : lib.bsearch (refsearch norm) (sorted_entries lib (sort_once lib m))
            ≡ oldest norm m.refs =
          ap (λ l. lib.bsearch (refsearch norm) l) f ∙ search_lem lib laws norm m.refs r.0 in
        let (a, b) =
          expand_lem lib (sort_once lib m) _
            (omega (arith, same_size, same_limit, h), omega (arith, same_limit, k)) ready in
        (
          a
              ∙ within_limit_same (sort_once lib m) m _ same_size same_limit
              ∙ ap (within_limit lib m) o,
          b,
        )

    -- With a `qsort` and a `bsearch` that keep the C standard's laws, on a map whose ages count up
    -- in the order of creation and whose sorted entries, if it has them, are what sorting its
    -- entries gives, with the size counted within the limit, a lookup gives what a search of the
    -- list without sorting gives: the entry of the normalized label that was created first, if the
    -- label is from 1 to 1000 bytes long and the entry within what is left of the limit; the map
    -- is then again such a map.
    pub lookup-find :
        (fold : ℕ → Bytes) (m : CmarkMap A) (label : Bytes)
        → IsReady lib m
        → IsLimited m
        → ((lookup lib fold m label).0 ≡ find fold m label)
          × IsReady lib (lookup lib fold m label).1
    unfolding lookup find
    lookup-find fold m label r l =
        if-Same _ _ _ _ (ltb (length label) 1 || ltb max_link_label_length (length label)) (refl, r)
          (elim (Bool-cases (m.size == 0)) [
            | inl z ↦ rw z (sym (absent (ground (arith, z)) (normalize_map_label fold label)), r)
            | inr z ↦ rw z (present (normalize_map_label fold label))
          ])
      where
        absent :
            m.size ≡ 0
            → (o : Option Bytes)
            → (elim o [ none ↦ none | some norm ↦ within_limit lib m (oldest norm m.refs) ]) ≡ none
        absent z none = refl
        absent z (some norm) =
            let none_left =
              IsOldest-unique norm m.refs _ none (IsReady-Aged m r)
                (oldest-IsOldest norm m.refs (IsReady-Aged m r)) (λ x h f. no_entry m r z x h) in
            ap (within_limit lib m) none_left

        present :
            (o : Option Bytes)
            → Same
                (elim o [
                  | none ↦ (none, m)
                  | some norm ↦
                      let s = sort_once lib m in
                      expand lib s (lib.bsearch (refsearch norm) (sorted_entries lib s))
                ])
                (elim o [ none ↦ none | some norm ↦ within_limit lib m (oldest norm m.refs) ])
        present none = (refl, r)
        present (some norm) = searched m norm r l
