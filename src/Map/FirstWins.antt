-- ===== src/Map/FirstWins.antt =====
-- A definition, and the lookup of its label.
use swift_cmark.Base.{
  Bytes, List, Option, ap, arith, false, if◌then◌else◌, length, ltb, none, refl, some, subst, sym,
  true, ℕ, ◌||◌, ◌∙◌, ◌∷◌, ◌≡◌, ◌≤◌,
}
use swift_cmark.Map.{
  CmarkMap, MapEntry, SortSearch, create_entry, lookup, labelcmp, is_zero, max_link_label_length,
  normalize_map_label,
}
use swift_cmark.Map.Order.{labelcmp_refl}
use swift_cmark.Map.Created.{IsFresh, create_entry-IsFresh, added}
use swift_cmark.Map.Oldest.{oldest}
use swift_cmark.Map.Size.{IsLimited}
use swift_cmark.Map.Lookup.{IsSortSearch, IsReady, within_limit, Cached}
use swift_cmark.Map.FindsOldest.{find, lookup-find, within_limit_same}

-- An earlier entry, if there is one.
abbrev pub earlier_or : {A : Type 0} → Option (MapEntry A) → MapEntry A → MapEntry A
earlier_or none new = new
earlier_or (some r) new = r

module _ {A : Type 0} (lib : SortSearch (MapEntry A)) where
  fresh-IsReady : (m : CmarkMap A) → IsFresh m → IsReady lib m
  unfolding IsFresh IsReady
  fresh-IsReady m (s, z, g) = (g, subst (Cached lib m) (sym s) z)

  oldest-cons :
      (norm : Bytes) (new : MapEntry A) (es : List (MapEntry A))
      → norm ≡ new.label
      → oldest norm (new ∷ es) ≡ some (earlier_or (oldest norm es) new)
  unfolding oldest
  oldest-cons norm new es e = by_earlier (oldest norm es)
    where
      same : is_zero (labelcmp norm new.label) ≡ true
      same = subst (λ l. is_zero (labelcmp norm l) ≡ true) e (labelcmp_refl norm)

      by_earlier :
          (o : Option (MapEntry A))
          → (elim o [
            | some r ↦ some r
            | none ↦ if is_zero (labelcmp norm new.label) then some new else none
          ])
            ≡ some (earlier_or o new)
      by_earlier none = rw same refl
      by_earlier (some r) = refl

  find_lem :
      (fold : ℕ → Bytes) (m : CmarkMap A) (label norm : Bytes)
      → 1 ≤ length label
      → length label ≤ max_link_label_length
      → normalize_map_label fold label ≡ some norm
      → find lib fold m label ≡ within_limit lib m (oldest norm m.refs)
  unfolding find
  find_lem fold m label norm h k e = rw (guard (length label) h k, e) refl
    where
      guard : (n : ℕ) → 1 ≤ n → n ≤ 1000 → (ltb n 1 || ltb 1000 n) ≡ false
      guard n p q = ground arith

  -- With such a `qsort` and `bsearch`, on a map before its first lookup with the size counted
  -- within the limit, creating an entry for a label of 1 to 1000 bytes that normalizes to some
  -- label succeeds; looking the label up then gives the entry created first for it, the new one
  -- only if there was none, unless that entry expands to more than what is left of the limit.
  pub create_entry-lookup :
      IsSortSearch lib
      → (fold : ℕ → Bytes) (m : CmarkMap A) (label norm : Bytes) (size : ℕ) (body : A) → IsFresh m
      → IsLimited m
      → 1 ≤ length label
      → length label ≤ max_link_label_length
      → normalize_map_label fold label ≡ some norm
      → (t : CmarkMap A) × (create_entry fold m label size body ≡ some t)
        × ((lookup lib fold t label).0
            ≡ within_limit lib m (
                some (
                  earlier_or
                    (oldest norm m.refs)
                    (record { label = norm; age = length m.refs; size = size; body = body }))))
  create_entry-lookup laws fold m label norm size body fresh (h, k) lo hi e =
      let (t, made, fresh_t, refs, used, limit) =
        create_entry-IsFresh fold m label size body fresh in
      let limited : IsLimited t = (omega (arith, h, used, limit), omega (arith, k, limit)) in
      let new : MapEntry A = record {
        label = norm;
        age = length m.refs;
        size = size;
        body = body;
      } in
      let same_refs : t.refs ≡ new ∷ m.refs = refs ∙ ap (λ o. added o size body m.refs) e in
      (
        t,
        made,
        (lookup-find lib laws fold t label (fresh-IsReady t fresh_t) limited).0
            ∙ find_lem fold t label norm lo hi e
            ∙ ap (λ l. within_limit lib t (oldest norm l)) same_refs
            ∙ ap (within_limit lib t) (oldest-cons norm new m.refs refl)
            ∙ within_limit_same lib t m (some (earlier_or (oldest norm m.refs) new)) used limit,
      )
