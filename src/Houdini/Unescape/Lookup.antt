-- ===== src/Houdini/Unescape/Lookup.antt =====
-- The binary search of `S_lookup` on a sorted table.
use swift_cmark.Base.{
  Bool-cases, Bytes, arith, if◌then◌else◌, inl, inr, ltb, some, suc, zero, ℕ, ◌+◌, ◌-◌, ◌/◌, ◌<◌,
  ◌==◌, ◌∙◌, ◌≡◌, ◌≤◌, ◌⊎◌,
}
use Prim.Native.Nat.{lt, gt}
use swift_cmark.Strings.{
  strcmp, strncmp_of_lt, strncmp_of_gt, strncmp_refl, eq_of_strncmp, strcmp_flip,
}
use swift_cmark.Houdini.Unescape.{lookup, lookup_entity}

module _ (name bytes : ℕ → Bytes) where
  found_here : (fuel i low hi : ℕ) → lookup name bytes (suc fuel) i low hi (name i) ≡ some (bytes i)
  unfolding lookup
  found_here fuel i low hi = ground (arith, strncmp_refl (name i))

  -- Where the search goes on below, and above.
  abbrev down : ℕ → ℕ → ℕ
  down i low = if i - (i - low) / 2 == i then i - 1 else i - (i - low) / 2

  abbrev up : ℕ → ℕ → ℕ
  up i hi = if i + (hi - i) / 2 == i then i + 1 else i + (hi - i) / 2

  go_left :
      (fuel i low hi : ℕ) (s : Bytes)
      → strcmp s (name i) ≡ lt
      → low < i
      → lookup name bytes (suc fuel) i low hi s ≡ lookup name bytes fuel (down i low) low (i - 1) s
  unfolding lookup
  go_left fuel i low hi s h l = ground (arith, strncmp_of_lt s (name i) h)

  go_right :
      (fuel i low hi : ℕ) (s : Bytes)
      → strcmp s (name i) ≡ gt
      → i < hi
      → lookup name bytes (suc fuel) i low hi s ≡ lookup name bytes fuel (up i hi) (i + 1) hi s
  unfolding lookup
  go_right fuel i low hi s h l = ground (arith, strncmp_of_gt s (name i) h)

  module _ (count : ℕ)
      (sorted : (j k : ℕ) → j < k → k < count → strcmp (name j) (name k) ≡ lt) where
    lookup_complete :
        (fuel i low hi k : ℕ)
        → low ≤ i
        → i ≤ hi
        → hi < count
        → low ≤ k
        → k ≤ hi
        → hi - low < fuel
        → lookup name bytes fuel i low hi (name k) ≡ some (bytes k)
    lookup_complete zero i low hi k a b c d e f = absurd (omega arith)
    lookup_complete (suc fuel) i low hi k a b c d e f = elim (Bool-cases (ltb k i)) [
      | inl below ↦
          let lt_ki : k < i = ground arith in
          go_left fuel i low hi (name k) (sorted k i lt_ki (omega arith)) (omega arith)
          ∙ lookup_complete fuel (down i low) low (i - 1) k (ground arith) (ground arith)
              (omega arith) d (omega arith) (omega arith)
      | inr other ↦ elim (Bool-cases (k == i)) [
        | inl same ↦ let e : k ≡ i = ground arith in rw e (found_here fuel i low hi)
        | inr above ↦
            let lt_ik : i < k = ground arith in
            go_right fuel i low hi (name k)
              ((strcmp_flip (name i) (name k)).0 (sorted i k lt_ik (omega arith))) (omega arith)
            ∙ lookup_complete fuel (up i hi) (i + 1) hi k (ground arith) (ground arith) c
                (omega arith) e (omega arith)
      ]
    ]

  lookup_cases :
      (fuel i low hi : ℕ) (s b : Bytes)
      → lookup name bytes (suc fuel) i low hi s ≡ some b
      → ((name i ≡ s) × (bytes i ≡ b))
        ⊎ (((low < i) × (lookup name bytes fuel (down i low) low (i - 1) s ≡ some b))
            ⊎ ((i < hi) × (lookup name bytes fuel (up i hi) (i + 1) hi s ≡ some b)))
  unfolding lookup
  lookup_cases fuel i low hi s b h = ground (arith, eq_of_strncmp s (name i))

  lookup_sound :
      (fuel i low hi : ℕ) (s b : Bytes)
      → i ≤ hi
      → lookup name bytes fuel i low hi s ≡ some b
      → (k : ℕ) × (k ≤ hi) × (name k ≡ s) × (bytes k ≡ b)
  lookup_sound zero i low hi s b le h = absurd (unfold lookup in cc)
  lookup_sound (suc fuel) i low hi s b le h = elim (lookup_cases fuel i low hi s b h) [
    | inl here ↦ (i, le, here.0, here.1)
    | inr (inl (l, left)) ↦
        let (k, a, c, d) = lookup_sound fuel (down i low) low (i - 1) s b (ground arith) left in
        (k, omega arith, c, d)
    | inr (inr (l, right)) ↦ lookup_sound fuel (up i hi) (i + 1) hi s b (ground arith) right
  ]

  module _ (count : ℕ)
      (sorted : (j k : ℕ) → j < k → k < count → strcmp (name j) (name k) ≡ lt) where
    -- In a table sorted strictly by `strcmp`, the binary search finds every entry.
    pub lookup_entity_complete :
        (k : ℕ) → k < count → lookup_entity name bytes count (name k) ≡ some (bytes k)
    unfolding lookup_entity
    lookup_entity_complete k h =
        lookup_complete count sorted count (count / 2) 0 (count - 1) k (omega arith) (omega arith)
          (omega arith) (omega arith) (omega arith) (omega arith)

  -- What the binary search finds in a table that is not empty stands in the table under the name
  -- searched for.
  pub lookup_entity_sound :
      (count : ℕ) (s b : Bytes)
      → 0 < count
      → lookup_entity name bytes count s ≡ some b
      → (k : ℕ) × (k < count) × (name k ≡ s) × (bytes k ≡ b)
  unfolding lookup_entity
  lookup_entity_sound count s b h e =
      let (k, a, c, d) = lookup_sound count (count / 2) 0 (count - 1) s b (omega arith) e in
      (k, omega arith, c, d)
