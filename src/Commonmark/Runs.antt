-- ===== src/Commonmark/Runs.antt =====
-- Runs of backticks, by reading the text from the left.
use swift_cmark.Base.{
  ==_iff, Bool-cases, Bytes, [], ap, arith, at, inl, inr, refl, suc, zero, ℕ, ◌+◌, ◌-◌, ◌<◌, ◌==◌,
  ◌↔◌, ◌∙◌, ◌∷◌, ◌≡◌, ◌≢◌, ◌≤◌, ◌⊎◌,
}
use swift_cmark.Inline.Backticks.Runs.{IsRun}

-- The text, with `current` backticks in front of it, holds a run of exactly `n`.
abbrev pub HasRun : ℕ → ℕ → Bytes → Type 0
HasRun n current [] = current ≡ n
HasRun n current (c ∷ s) =
    ((c ≡ b'`') × HasRun n (current + 1) s) ⊎ ((c ≢ b'`') × ((current ≡ n) ⊎ HasRun n 0 s))

-- The text begins with `m` backticks and no more.
abbrev Leads : ℕ → Bytes → Type 0
Leads m s = ((i : ℕ) → i < m → at s i ≡ b'`') × (at s m ≢ b'`')

Leads-HasRun : (s : Bytes) (n current m : ℕ) → current + m ≡ n → Leads m s → HasRun n current s
Leads-HasRun [] n current zero e h = omega (arith, e)
Leads-HasRun [] n current (suc m) e (h, k) = absurd (ground (arith, h 0 (omega arith)))
Leads-HasRun (c ∷ s) n current zero e (h, k) = inr (k, inl (omega (arith, e)))
Leads-HasRun (c ∷ s) n current (suc m) e (h, k) = inl (
  h 0 (omega arith),
  Leads-HasRun s n (current + 1) m (omega (arith, e)) (λ i l. h (suc i) (omega (arith, l)), k),
)

-- A run behind another byte, wherever that stands.
module _ (n : ℕ) (positive : 0 < n) where
  Run-HasRun :
      (s : Bytes) (current q : ℕ)
      → ((i : ℕ) → i < n → at s (suc (q + i)) ≡ b'`')
      → at s (suc (q + n)) ≢ b'`'
      → at s q ≢ b'`'
      → HasRun n current s
  Run-HasRun [] current q h stop start = absurd (ground (arith, h 0 positive))
  Run-HasRun (c ∷ s) current zero h stop start = inr (
    start,
    inr (
        Leads-HasRun s n 0 n (omega arith) (
          λ i l. ap (at s) {x = i} {y = 0 + i} (omega arith) ∙ h i l,
          λ e. stop (ap (at s) {x = 0 + n} {y = n} (omega arith) ∙ e),
        )),
  )
  Run-HasRun (c ∷ s) current (suc q) h stop start = elim (Bool-cases (c == b'`')) [
    | inl e ↦ inl ((==_iff c b'`').0 e, Run-HasRun s (current + 1) q rest_hyps.0 rest_hyps.1 start)
    | inr e ↦ inr (ground (arith, e), inr (Run-HasRun s 0 q rest_hyps.0 rest_hyps.1 start))
  ]
    where
      rest_hyps : ((i : ℕ) → i < n → at s (suc (q + i)) ≡ b'`') × (at s (suc (q + n)) ≢ b'`')
      rest_hyps = (
        λ i l. ap (at s) {x = suc (q + i)} {y = suc q + i} (omega arith) ∙ h i l,
        λ e. stop (ap (at s) {x = suc q + n} {y = suc (q + n)} (omega arith) ∙ e),
      )

  IsRun-HasRun : (s : Bytes) (q : ℕ) → IsRun s 0 n q → HasRun n 0 s
  IsRun-HasRun s zero (a, b, c, d, e) = Leads-HasRun s n 0 n (omega arith) (
    λ i l. c i (omega arith) (omega (arith, l)),
    λ f. d (ap (at s) {x = 0 + n} {y = n} (omega arith) ∙ f),
  )
  IsRun-HasRun s (suc q) (a, b, c, d, inl e) = absurd (omega (arith, e))
  IsRun-HasRun s (suc q) (a, b, c, d, inr e) =
      Run-HasRun s 0 q (λ i l. c (suc (q + i)) (omega arith) (omega (arith, l)))
        (λ f. d (ap (at s) {x = suc q + n} {y = suc (q + n)} (omega arith) ∙ f))
        (λ f. e (ap (at s) {x = suc q - 1} {y = q} (omega arith) ∙ f))

  cons-IsRun :
      (c : ℕ) (s : Bytes) (q : ℕ)
      → ((i : ℕ) → q ≤ i → i < q + n → at s i ≡ b'`')
      → at s (q + n) ≢ b'`'
      → at (c ∷ s) q ≢ b'`'
      → IsRun (c ∷ s) 0 n (suc q)
  cons-IsRun c s q h stop start = (
    omega arith,
    positive,
    inside,
    λ f. stop (ap (at (c ∷ s)) {x = suc (q + n)} {y = suc q + n} (omega arith) ∙ f),
    inr (λ f. start (ap (at (c ∷ s)) {x = q} {y = suc q - 1} (omega arith) ∙ f)),
  )
    where
      inside : (i : ℕ) → suc q ≤ i → i < suc q + n → at (c ∷ s) i ≡ b'`'
      inside zero l k = absurd (omega (arith, l))
      inside (suc i) l k = h i (omega (arith, l)) (omega (arith, k))

  again : (c : ℕ) (s : Bytes) (q : ℕ) → IsRun s 0 n (suc q) → IsRun (c ∷ s) 0 n (suc (suc q))
  again c s q (a, b, h, stop, inl e) = absurd (omega (arith, e))
  again c s q (a, b, h, stop, inr e) =
      cons-IsRun c s (suc q) h stop (λ f. e (ap (at s) {x = suc q - 1} {y = q} (omega arith) ∙ f))

  HasRun-IsRun :
      (s : Bytes) (current : ℕ)
      → HasRun n current s
      → ((m : ℕ) × (current + m ≡ n) × Leads m s) ⊎ ((q : ℕ) × IsRun s 0 n (suc q))
  HasRun-IsRun [] current h =
      inl (0, omega (arith, h), (λ i l. absurd (omega (arith, l)), λ e. omega (arith, e)))
  HasRun-IsRun (c ∷ s) current (inl (t, k)) = elim (HasRun-IsRun s (current + 1) k) [
    | inl (m, e, (h, stop)) ↦ inl (suc m, omega (arith, e), (first h, stop))
    | inr (q, run) ↦ inr (suc q, again c s q run)
  ]
    where
      first :
          {m : ℕ} → ((i : ℕ) → i < m → at s i ≡ b'`') → (i : ℕ) → i < suc m → at (c ∷ s) i ≡ b'`'
      first h zero l = t
      first h (suc i) l = h i (omega (arith, l))
  HasRun-IsRun (c ∷ s) current (inr (o, inl e)) =
      inl (0, omega (arith, e), (λ i l. absurd (omega (arith, l)), o))
  HasRun-IsRun (c ∷ s) current (inr (o, inr k)) = elim (HasRun-IsRun s 0 k) [
    | inl (m, e, (h, stop)) ↦ inr (
      0,
      cons-IsRun c s 0 (λ i l b. h i (omega (arith, b, e)))
          (λ f. stop (ap (at s) {x = m} {y = 0 + n} (omega (arith, e)) ∙ f)) o,
    )
    | inr (q, run) ↦ inr (suc q, again c s q run)
  ]

  pub HasRun-iff : (s : Bytes) → HasRun n 0 s ↔ ((q : ℕ) × IsRun s 0 n q)
  HasRun-iff s = (to, λ (q, r). IsRun-HasRun s q r)
    where
      to : HasRun n 0 s → (q : ℕ) × IsRun s 0 n q
      to h = elim (HasRun-IsRun s 0 h) [
        | inl (m, e, (l, stop)) ↦ (
          0,
          (
            omega arith,
            positive,
            λ i a b. l i (omega (arith, b, e)),
            λ f. stop (ap (at s) {x = m} {y = 0 + n} (omega (arith, e)) ∙ f),
            inl refl,
          ),
        )
        | inr (q, run) ↦ (suc q, run)
      ]
