-- ===== src/Map/Size.antt =====
-- The limit on what the references of a document expand to.
use swift_cmark.Base.{
  Bool, Bool-cases, Bytes, Option, Option-cases, arith, false, if◌then◌else◌, inl, inr, length, ltb,
  none, refl, some, true, ℕ, ◌%◌, ◌+◌, ◌-◌, ◌<◌, ◌==◌, ◌^◌, ◌||◌, ◌∙◌, ◌≡◌, ◌≤◌,
}
use swift_cmark.Map.{
  normalize_map_label, max_link_label_length, sorted_entries, refsearch, sort_once, sort_map,
  expand, lookup, SortSearch, CmarkMap, MapEntry,
}

-- The size counted is within the limit, and the limit a `size_t`.
abbrev pub IsLimited : {A : Type 0} → CmarkMap A → Type 0
IsLimited m = (m.ref_size ≤ m.max_ref_size) × (m.max_ref_size < 2 ^ 64)

abbrev size_of : {A : Type 0} → Option (MapEntry A) → ℕ
size_of none = 0
size_of (some r) = r.size

pub limit_lem :
    (limit used size : ℕ)
    → used ≤ limit
    → limit < 2 ^ 64
    → ltb ((limit + 2 ^ 64 - used) % 2 ^ 64) size ≡ ltb (limit - used) size
limit_lem limit used size h k = ground arith

-- Only the size counted changes, by the size of the entry found.
abbrev pub Counts : {A : Type 0} → CmarkMap A → Option (MapEntry A) × CmarkMap A → Type 0
Counts m (found, t) =
    (t.ref_size ≡ m.ref_size + size_of found)
    × (t.max_ref_size ≡ m.max_ref_size)
    × (t.refs ≡ m.refs)
    × (t.ref_size ≤ t.max_ref_size)

module _ {A : Type 0} (lib : SortSearch (MapEntry A)) where
  expand-Counts :
      (m : CmarkMap A) (r : Option (MapEntry A)) → IsLimited m → Counts m (expand lib m r)
  unfolding expand
  expand-Counts m none (h, k) = (omega arith, refl, refl, h)
  expand-Counts m (some r) (h, k) =
      elim (Bool-cases (ltb ((m.max_ref_size + 2 ^ 64 - m.ref_size) % 2 ^ 64) r.size)) [
        | inl e ↦ rw e (omega arith, refl, refl, h)
        | inr e ↦
            let fits : m.ref_size + r.size ≤ m.max_ref_size =
              room m.max_ref_size m.ref_size r.size h k e in
            rw e (ground (arith, fits, k), refl, refl, ground (arith, fits, k))
      ]
    where
      room :
          (limit used size : ℕ)
          → used ≤ limit
          → limit < 2 ^ 64
          → ltb ((limit + 2 ^ 64 - used) % 2 ^ 64) size ≡ false
          → used + size ≤ limit
      room limit used size h k e = ground (arith, limit_lem limit used size h k, e)

  sort_once-Counts : (m : CmarkMap A) → IsLimited m → Counts m (none, sort_once lib m)
  unfolding sort_map
  sort_once-Counts m (h, k) = elim (Option-cases m.sorted) [
    | inl e ↦ rw e (omega arith, refl, refl, h)
    | inr (s, e) ↦ rw e (omega arith, refl, refl, h)
  ]

  if-Counts :
      (m : CmarkMap A) (x y : Option (MapEntry A) × CmarkMap A) (b : Bool)
      → Counts m x
      → Counts m y
      → Counts m (if b then x else y)
  if-Counts m x y true p q = p
  if-Counts m x y false p q = q

  then_expand :
      (m s : CmarkMap A) (r : Option (MapEntry A))
      → IsLimited m
      → Counts m (none, s)
      → Counts m (expand lib s r)
  then_expand m s r (h, k) (a, b, c, d) =
      let (e, f, g, i) = expand-Counts s r (d, omega (arith, b, k)) in
      (omega (arith, a, e), f ∙ b, g ∙ c, i)

  -- Where the size counted is within the limit, and the limit below 2^64, a lookup adds the size
  -- of the entry that it gives, and nothing if it gives none, keeps the limit and the entries, and
  -- leaves the size counted within the limit.
  pub lookup-Counts :
      (fold : ℕ → Bytes) (m : CmarkMap A) (label : Bytes)
      → IsLimited m
      → Counts m (lookup lib fold m label)
  unfolding lookup
  lookup-Counts fold m label h =
      if-Counts m _ _ (ltb (length label) 1 || ltb max_link_label_length (length label)) unchanged
        (if-Counts m _ _ (m.size == 0) unchanged (found (normalize_map_label fold label)))
    where
      unchanged : Counts m (none, m)
      unchanged = (omega arith, refl, refl, h.0)

      found :
          (o : Option Bytes)
          → Counts m (elim o [
            | none ↦ (none, m)
            | some norm ↦
                let s = sort_once lib m in
                expand lib s (lib.bsearch (refsearch norm) (sorted_entries lib s))
          ])
      found none = unchanged
      found (some norm) =
          then_expand m (sort_once lib m)
            (lib.bsearch (refsearch norm) (sorted_entries lib (sort_once lib m))) h
            (sort_once-Counts m h)
