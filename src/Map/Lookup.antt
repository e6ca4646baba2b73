-- ===== src/Map/Lookup.antt =====
-- The search in the sorted entries.
use swift_cmark.Base.{
  Bool-cases, Bytes, List, Option, [], arith, false, if◌then◌else◌, inl, inr, length, ltb, none,
  refl, some, subst, sym, true, ℤ, ◌-◌, ◌∙◌, ◌∷◌, ◌≡◌, ◌⊎◌,
}
use swift_cmark.Map.{
  CmarkMap, MapEntry, SortSearch, labelcmp, is_zero, refcmp, refsearch, distinct, expand,
}
use swift_cmark.Map.Order.{
  is_below, labelcmp_refl, labelcmp_eq, labelcmp_trans, labelcmp_antisym, refcmp_trans,
  refcmp_total, refcmp-label,
}
use swift_cmark.Map.Distinct.{Ordered, Follows, IsDistinct, distinct-IsDistinct}
use swift_cmark.Map.Created.{Aged}
use swift_cmark.Map.Oldest.{oldest, IsOldest, oldest-IsOldest, IsOldest-unique}
use swift_cmark.Map.Size.{IsLimited, limit_lem}
use mathlib.Core.List.{Memᴰ, Permᴰ}
use mathlib.Core.List.Permᴰ

-- What `bsearch` asks of the array: the elements above the key come last, and the equal ones between.
abbrev pub Partitioned : {A : Type 0} → (A → ℤ) → List A → Type 0
Partitioned cmp xs =
    Ordered
      (λ x y.
        (is_below (cmp x) ≡ true → is_below (cmp y) ≡ true)
        × (is_below (cmp x) ≡ true → is_zero (cmp x) ≡ false → is_zero (cmp y) ≡ false))
      xs

abbrev pub Finds : {A : Type 0} → (A → ℤ) → List A → Option A → Type 0
Finds cmp xs none = (x : _) → Memᴰ x xs → is_zero (cmp x) ≡ false
Finds cmp xs (some x) = Memᴰ x xs × (is_zero (cmp x) ≡ true)

-- What the C standard says of `qsort` and `bsearch`.
pub record IsSortSearch {A : Type 0} (lib : SortSearch A) : Type 0 where
  pub permuted : (cmp : A → A → ℤ) (xs : List A) → Permᴰ xs (lib.qsort cmp xs)
  pub ordered :
      (cmp : A → A → ℤ)
      → ((x y z : A)
          → is_below (cmp x y) ≡ true
          → is_below (cmp y z) ≡ true
          → is_below (cmp x z) ≡ true)
      → ((x y : A) → (is_below (cmp x y) ≡ true) ⊎ (is_below (cmp y x) ≡ true))
      → (xs : List A) → Ordered (λ x y. is_below (cmp x y) ≡ true) (lib.qsort cmp xs)
  pub finds : (cmp : A → ℤ) (xs : List A) → Partitioned cmp xs → Finds cmp xs (lib.bsearch cmp xs)

pub perm-mem : {A : Type 0} {x : A} {xs ys : List A} → Permᴰ xs ys → Memᴰ x xs → Memᴰ x ys
perm-mem Permᴰ.nil m = m
perm-mem (Permᴰ.cons e p) (Memᴰ.head q) = Memᴰ.head (q ∙ e)
perm-mem (Permᴰ.cons e p) (Memᴰ.tail m) = Memᴰ.tail (perm-mem p m)
perm-mem (Permᴰ.swap e f) (Memᴰ.head q) = Memᴰ.tail (Memᴰ.head (q ∙ e))
perm-mem (Permᴰ.swap e f) (Memᴰ.tail (Memᴰ.head q)) = Memᴰ.head (q ∙ f)
perm-mem (Permᴰ.swap e f) (Memᴰ.tail (Memᴰ.tail m)) = Memᴰ.tail (Memᴰ.tail m)
perm-mem (Permᴰ.trans p q) m = perm-mem q (perm-mem p m)

Ordered-map :
    {A : Type 0} {R S : A → A → Type 0}
    → ((x y : A) → R x y → S x y)
    → (xs : List A) → Ordered R xs
    → Ordered S xs
Ordered-map f [] o = o
Ordered-map f (x ∷ xs) (h, o) = (λ y m. f x y (h y m), Ordered-map f xs o)

module _ {A : Type 0} where
  refsearch-Partitioned :
      (label : Bytes) (xs : List (MapEntry A))
      → Ordered Follows xs
      → Partitioned (refsearch label) xs
  unfolding refsearch
  refsearch-Partitioned label xs o = Ordered-map (λ x y h. (up x y h, apart x y h)) xs o
    where
      up :
          (x y : MapEntry A)
          → Follows x y
          → is_below (labelcmp label x.label) ≡ true
          → is_below (labelcmp label y.label) ≡ true
      up x y h k = labelcmp_trans label x.label y.label k (refcmp-label x y h)

      apart :
          (x y : MapEntry A)
          → Follows x y
          → is_below (labelcmp label x.label) ≡ true
          → is_zero (labelcmp label x.label) ≡ false
          → is_zero (labelcmp label y.label) ≡ false
      apart x y h k z = elim (Bool-cases (is_zero (labelcmp label y.label))) [
        | inl e ↦
            let back : is_below (labelcmp x.label label) ≡ true =
              subst (λ l. is_below (labelcmp x.label l) ≡ true) (sym (labelcmp_eq label y.label e))
                (refcmp-label x y h) in
            absurd (ground (arith, z, labelcmp_antisym label x.label k back))
        | inr e ↦ e
      ]

  -- What a search in the entries kept gives.
  found-IsOldest :
      (label : Bytes) (refs sorted kept : List (MapEntry A)) (o : Option (MapEntry A))
      → Permᴰ refs sorted
      → IsDistinct sorted kept
      → Finds (refsearch label) kept o
      → IsOldest label refs o
  unfolding refsearch
  found-IsOldest label refs sorted kept none p d h = λ x m e.
      let (k, n, f) = d.kept_label x (perm-mem p m) in
      let same : is_zero (labelcmp label k.label) ≡ true =
        subst (λ l. is_zero (labelcmp label l) ≡ true) (e ∙ sym f) (labelcmp_refl label) in
      ground (arith, same, h k n)
  found-IsOldest label refs sorted kept (some r) p d (m, z) =
      let e = labelcmp_eq label r.label z in
      (
        perm-mem (Permᴰ.symm p) (d.kept_mem r m),
        e,
        λ x n f. d.kept_age r x m (perm-mem p n) (sym e ∙ f),
      )

module _ {A : Type 0} (lib : SortSearch (MapEntry A)) where
  abbrev pub Cached : CmarkMap A → Option (List (MapEntry A)) → Type 0
  Cached m none = m.size ≡ length m.refs
  Cached m (some kept) = (kept ≡ distinct (lib.qsort refcmp m.refs)) × (m.size ≡ length kept)

  -- The map of a document, before its first lookup or after it.
  unfoldable pub IsReady : CmarkMap A → Type 0
  IsReady m = Aged m.refs × Cached m m.sorted

  -- The entry, unless it expands to more than what is left of the limit.
  abbrev pub within_limit : CmarkMap A → Option (MapEntry A) → Option (MapEntry A)
  within_limit m none = none
  within_limit m (some r) = if ltb (m.max_ref_size - m.ref_size) r.size then none else some r

  pub expand_lem :
      (m : CmarkMap A) (o : Option (MapEntry A))
      → IsLimited m
      → IsReady m
      → ((expand lib m o).0 ≡ within_limit m o) × IsReady (expand lib m o).1
  unfolding expand IsReady
  expand_lem m none l r = (refl, r)
  expand_lem m (some e) (h, k) r =
      rw (limit_lem m.max_ref_size m.ref_size e.size h k)
        (elim (Bool-cases (ltb (m.max_ref_size - m.ref_size) e.size)) [
          | inl z ↦ rw z (refl, r)
          | inr z ↦ rw z (refl, r)
        ])

  module _ (laws : IsSortSearch lib) where
    pub sorted-IsDistinct :
        (refs : List (MapEntry A))
        → IsDistinct (lib.qsort refcmp refs) (distinct (lib.qsort refcmp refs))
    sorted-IsDistinct refs =
        distinct-IsDistinct _ (laws.ordered refcmp refcmp_trans refcmp_total refs)

    pub search_lem :
        (label : Bytes) (refs : List (MapEntry A))
        → Aged refs
        → lib.bsearch (refsearch label) (distinct (lib.qsort refcmp refs)) ≡ oldest label refs
    search_lem label refs g =
        let d = sorted-IsDistinct refs in
        let f = laws.finds (refsearch label) _ (refsearch-Partitioned label _ d.kept_ordered) in
        IsOldest-unique label refs _ _ g
          (found-IsOldest label refs _ _ _ (laws.permuted refcmp refs) d f)
          (oldest-IsOldest label refs g)
