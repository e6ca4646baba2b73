-- ===== src/Inline/Backticks/Runs.antt =====
-- Runs of backticks, by the places they hold.
use swift_cmark.Base.{
  Bool, Bool-cases, Bytes, [], ap, arith, at, drop, false, inl, inr, length, refl, subst, suc, true,
  zero, ℕ, ◌+◌, ◌-◌, ◌<◌, ◌∙◌, ◌∷◌, ◌≡◌, ◌≢◌, ◌≤◌, ◌⊎◌,
}
use swift_cmark.Houdini.{span_length}
use swift_cmark.Buffer.Block.{at-drop}
use swift_cmark.Inline.Backticks.{isbacktick, is_other}

-- `n` backticks at `q` with none behind them, and none before them from `lo` on.
abbrev pub IsRun : Bytes → ℕ → ℕ → ℕ → Type 0
IsRun s lo n q =
    (lo ≤ q)
    × (0 < n)
    × ((i : ℕ) → q ≤ i → i < q + n → at s i ≡ b'`')
    × (at s (q + n) ≢ b'`')
    × ((q ≡ lo) ⊎ (at s (q - 1) ≢ b'`'))

span-all : (f : ℕ → Bool) (s : Bytes) (i : ℕ) → i < span_length f s → f (at s i) ≡ true
unfolding span_length
span-all f [] i h = absurd (omega arith)
span-all f (c ∷ s) i h = elim (Bool-cases (f c)) [
  | inl e ↦ inside e i (rw e at h) (λ j. span-all f s j)
  | inr e ↦ absurd (outside (rw e at h))
]
  where
    inside :
        f c ≡ true
        → (i : ℕ) → i < suc (span_length f s)
        → ((j : ℕ) → j < span_length f s → f (at s j) ≡ true)
        → f (at (c ∷ s) i) ≡ true
    inside e zero h go = e
    inside e (suc j) h go = go j (omega (arith, h))

    outside : i < 0 → ⊥
    outside h = omega arith

span-end : (f : ℕ → Bool) (s : Bytes) → f 0 ≡ false → f (at s (span_length f s)) ≡ false
unfolding span_length
span-end f [] z = z
span-end f (c ∷ s) z = elim (Bool-cases (f c)) [
  | inl e ↦ rw e (span-end f s z)
  | inr e ↦ rw e (rw e refl)
]

pub span-le : (f : ℕ → Bool) (s : Bytes) → span_length f s ≤ length s
unfolding span_length
span-le f [] = omega arith
span-le f (c ∷ s) = ground (arith, span-le f s)

-- From `p` on, the places that a span covers, and the first behind it.
pub span-at :
    (f : ℕ → Bool) (s : Bytes) (p : ℕ)
    → f 0 ≡ false
    → ((i : ℕ) → p ≤ i → i < p + span_length f (drop p s) → f (at s i) ≡ true)
      × (f (at s (p + span_length f (drop p s))) ≡ false)
span-at f s p z = (inside, behind)
  where
    n : ℕ
    n = span_length f (drop p s)

    inside : (i : ℕ) → p ≤ i → i < p + n → f (at s i) ≡ true
    inside i h k =
        let there : at (drop p s) (i - p) ≡ at s i =
          at-drop s p (i - p) ∙ ap (at s) {x = p + (i - p)} {y = i} (omega arith) in
        subst (λ c. f c ≡ true) there (span-all f (drop p s) (i - p) (omega arith))

    behind : f (at s (p + n)) ≡ false
    behind = subst (λ c. f c ≡ false) (at-drop s p n) (span-end f (drop p s) z)

-- A run from `lo` on, where the bytes from `lo` to `p` are no backticks and then `k` of them follow,
-- is these, or lies behind them.
pub IsRun-cases :
    (s : Bytes) (lo p k n q : ℕ)
    → lo ≤ p
    → ((i : ℕ) → lo ≤ i → i < p → is_other (at s i) ≡ true)
    → ((i : ℕ) → p ≤ i → i < p + k → isbacktick (at s i) ≡ true)
    → (isbacktick (at s (p + k)) ≡ false)
    → IsRun s lo n q
    → ((q ≡ p) × (n ≡ k)) ⊎ IsRun s (p + k) n q
IsRun-cases s lo p k n q le before inside behind (a, b, c, d, e) =
    choose (order q p) (order q (p + k))
  where
    order : (x y : ℕ) → (x < y) ⊎ ((x ≡ y) ⊎ (y < x))
    order x y = ground arith

    choose :
        (q < p) ⊎ ((q ≡ p) ⊎ (p < q))
        → (q < p + k) ⊎ ((q ≡ p + k) ⊎ (p + k < q))
        → ((q ≡ p) × (n ≡ k)) ⊎ IsRun s (p + k) n q
    choose (inl h) o = absurd (clash (before q a h) (c q (omega arith) (omega (arith, b))))
      where
        clash : is_other (at s q) ≡ true → at s q ≡ b'`' → ⊥
        clash x y = ground (arith, x, y)
    choose (inr (inl h)) o = inl (h, same (order n k))
      where
        same : (n < k) ⊎ ((n ≡ k) ⊎ (k < n)) → n ≡ k
        same (inl l) =
            absurd (ground (arith, d, inside (q + n) (omega (arith, h)) (omega (arith, h, l))))
        same (inr (inl f)) = f
        same (inr (inr l)) =
            absurd (ground (arith, behind, c (p + k) (omega (arith, h)) (omega (arith, h, l))))
    choose (inr (inr h)) (inl o) = absurd (apart e)
      where
        apart : (q ≡ lo) ⊎ (at s (q - 1) ≢ b'`') → ⊥
        apart (inl f) = omega (arith, h, le, f)
        apart (inr f) = ground (arith, f, inside (q - 1) (omega (arith, h)) (omega (arith, h, o)))
    choose (inr (inr h)) (inr (inl o)) = inr (omega (arith, o), b, c, d, inl o)
    choose (inr (inr h)) (inr (inr o)) = inr (omega (arith, o), b, c, d, inr (free e))
      where
        free : (q ≡ lo) ⊎ (at s (q - 1) ≢ b'`') → at s (q - 1) ≢ b'`'
        free (inl f) = absurd (omega (arith, h, le, f))
        free (inr f) = f
