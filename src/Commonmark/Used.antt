-- ===== src/Commonmark/Used.antt =====
-- The set of the lengths that runs have.
use swift_cmark.Base.{
  ==_iff, Bool, Bool-cases, Bytes, List, [], ap, arith, false, get_or, inl, inr, length, ltb, refl,
  set, subst, suc, sym, true, zero, ℕ, ◌&&◌, ◌+◌, ◌<◌, ◌==◌, ◌↔◌, ◌∙◌, ◌∷◌, ◌≡◌, ◌≢◌, ◌≤◌, ◌⊎◌,
}
use swift_cmark.Commonmark.{mark, used_loop, first_unused, no_bits}
use swift_cmark.Commonmark.Runs.{HasRun}

abbrev pub bit : List Bool → ℕ → Bool
bit bits k = get_or bits k false

bit-set : (bits : List Bool) (i : ℕ) → i < length bits → bit (set bits i true) i ≡ true
bit-set [] i h = absurd (omega arith)
bit-set (b ∷ bs) zero h = refl
bit-set (b ∷ bs) (suc i) h = bit-set bs i (omega arith)

bit-set_ne : (bits : List Bool) (i k : ℕ) → i ≢ k → bit (set bits i true) k ≡ bit bits k
bit-set_ne [] i k h = refl
bit-set_ne (b ∷ bs) zero zero h = absurd (h refl)
bit-set_ne (b ∷ bs) zero (suc k) h = refl
bit-set_ne (b ∷ bs) (suc i) zero h = refl
bit-set_ne (b ∷ bs) (suc i) (suc k) h = bit-set_ne bs i k (λ e. h (ap suc e))

length-set : (bits : List Bool) (i : ℕ) (v : Bool) → length (set bits i v) ≡ length bits
length-set [] i v = refl
length-set (b ∷ bs) zero v = refl
length-set (b ∷ bs) (suc i) v = ap suc (length-set bs i v)

length-mark : (used : List Bool) (current : ℕ) → length (mark used current) ≡ length used
length-mark used current = elim (Bool-cases (ltb 0 current && ltb current 32)) [
  | inl e ↦ rw e (length-set used current true)
  | inr e ↦ rw e refl
]

pub length-used_loop :
    (s : Bytes) (used : List Bool) (current : ℕ) → length (used_loop used current s) ≡ length used
unfolding used_loop
length-used_loop [] used current = length-mark used current
length-used_loop (c ∷ s) used current = elim (Bool-cases (c == b'`')) [
  | inl e ↦ rw e (length-used_loop s used (current + 1))
  | inr e ↦ rw e (length-used_loop s (mark used current) 0 ∙ length-mark used current)
]

-- The lowest bit, which no run sets, stays set.
mark-low : (used : List Bool) (current : ℕ) → bit used 0 ≡ true → bit (mark used current) 0 ≡ true
mark-low used current h = elim (Bool-cases (ltb 0 current && ltb current 32)) [
  | inl e ↦ rw e (bit-set_ne used current 0 (ground (arith, e)) ∙ h)
  | inr e ↦ rw e h
]

pub used_loop-low :
    (s : Bytes) (used : List Bool) (current : ℕ)
    → bit used 0 ≡ true
    → bit (used_loop used current s) 0 ≡ true
unfolding used_loop
used_loop-low [] used current h = mark-low used current h
used_loop-low (c ∷ s) used current h = elim (Bool-cases (c == b'`')) [
  | inl e ↦ rw e (used_loop-low s used (current + 1) h)
  | inr e ↦ rw e (used_loop-low s (mark used current) 0 (mark-low used current h))
]

pub no_bits-bit : (n k : ℕ) → bit (no_bits n) k ≡ false
no_bits-bit zero k = refl
no_bits-bit (suc n) zero = refl
no_bits-bit (suc n) (suc k) = no_bits-bit n k

module _ (n : ℕ) (positive : 0 < n) (small : n < 32) where
  mark-bit :
      (used : List Bool) (current : ℕ)
      → length used ≡ 32
      → (bit (mark used current) n ≡ true) ↔ ((bit used n ≡ true) ⊎ (current ≡ n))
  mark-bit used current l = elim (Bool-cases (current == n)) [
    | inl e ↦
        let same : current ≡ n = (==_iff current n).0 e in
        (λ _. inr same, λ _. subst (λ k. bit (mark used k) n ≡ true) (sym same) marked)
    | inr e ↦
        let other : current ≢ n = ground (arith, e) in
        let unchanged = elsewhere other in
        (λ h. inl (sym unchanged ∙ h), elim [ inl h ↦ unchanged ∙ h | inr h ↦ absurd (other h) ])
  ]
    where
      marked : bit (mark used n) n ≡ true
      marked =
          let e : ltb 0 n && ltb n 32 ≡ true = ground arith in
          rw e (bit-set used n (omega (arith, l)))

      elsewhere : current ≢ n → bit (mark used current) n ≡ bit used n
      elsewhere h = elim (Bool-cases (ltb 0 current && ltb current 32)) [
        | inl e ↦ rw e (bit-set_ne used current n h)
        | inr e ↦ rw e refl
      ]

  pub used_loop-bit :
      (s : Bytes) (used : List Bool) (current : ℕ)
      → length used ≡ 32
      → (bit (used_loop used current s) n ≡ true) ↔ ((bit used n ≡ true) ⊎ HasRun n current s)
  unfolding used_loop
  used_loop-bit [] used current l = mark-bit used current l
  used_loop-bit (c ∷ s) used current l = elim (Bool-cases (c == b'`')) [
    | inl e ↦
        let tick : c ≡ b'`' = (==_iff c b'`').0 e in
        let (to, from) = used_loop-bit s used (current + 1) l in
        rw e (
          λ h. elim (to h) [ inl k ↦ inl k | inr k ↦ inr (inl (tick, k)) ],
          elim [
            | inl k ↦ from (inl k)
            | inr (inl k) ↦ from (inr k.1)
            | inr (inr k) ↦ absurd (k.0 tick)
          ],
        )
    | inr e ↦
        let other : c ≢ b'`' = ground (arith, e) in
        let (to, from) = used_loop-bit s (mark used current) 0 (length-mark used current ∙ l) in
        let (to_mark, from_mark) = mark-bit used current l in
        rw e (
          λ h. elim (to h) [
            | inl k ↦ elim (to_mark k) [ inl m ↦ inl m | inr m ↦ inr (inr (other, inl m)) ]
            | inr k ↦ inr (inr (other, inr k))
          ],
          elim [
            | inl k ↦ from (inl (from_mark (inl k)))
            | inr (inl k) ↦ absurd (other k.0)
            | inr (inr (_, inl k)) ↦ from (inl (from_mark (inr k)))
            | inr (inr (_, inr k)) ↦ from (inr k)
          ],
        )
  ]

pub first_unused_lem :
    (bits : List Bool)
    → (first_unused bits ≤ length bits)
      × (first_unused bits < length bits → bit bits (first_unused bits) ≡ false)
      × ((j : ℕ) → j < first_unused bits → bit bits j ≡ true)
unfolding first_unused
first_unused_lem [] =
    (omega arith, λ h. absurd (omega (arith, h)), λ j h. absurd (omega (arith, h)))
first_unused_lem (b ∷ bs) = elim (Bool-cases b) [
  | inl e ↦ rw e (
      let (le, off, on) = first_unused_lem bs in
      (omega (arith, le), λ h. off (omega (arith, h)), all_on on))
  | inr e ↦ rw e (omega arith, λ _. refl, λ j h. absurd (omega (arith, h)))
]
  where
    all_on :
        {n : ℕ}
        → ((j : ℕ) → j < n → bit bs j ≡ true)
        → (j : ℕ) → j < suc n
        → bit (true ∷ bs) j ≡ true
    all_on on zero h = refl
    all_on on (suc j) h = on j (omega (arith, h))
