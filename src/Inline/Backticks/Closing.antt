-- ===== src/Inline/Backticks/Closing.antt =====
-- What one round of the search says of the closing run.
use swift_cmark.Base.{
  Bytes, arith, at, at_past, false, inl, inr, length, refl, subst, sym, true, ℕ, ◌+◌, ◌-◌, ◌<◌, ◌≡◌,
  ◌≢◌, ◌≤◌, ◌⊎◌,
}
use swift_cmark.Inline.Backticks.{isbacktick, is_other}
use swift_cmark.Inline.Backticks.Runs.{IsRun, IsRun-cases}

-- `r` is the place behind the first run of `n` from `lo` on, or 0 if there is none.
abbrev pub Closes : Bytes → ℕ → ℕ → ℕ → Type 0
Closes s lo n r =
    ((r ≡ 0) × ((q : ℕ) → IsRun s lo n q → ⊥))
    ⊎ ((q : ℕ) × (r ≡ q + n) × IsRun s lo n q × ((j : ℕ) → IsRun s lo n j → q ≤ j))

abbrev pub NulFree : Bytes → Type 0
NulFree s = (i : ℕ) → i < length s → at s i ≢ 0

-- A round over the bytes of a text, with the places that it tells.
module _ (s : Bytes) (lo p k n : ℕ) (le : lo ≤ p)
    (before : (i : ℕ) → lo ≤ i → i < p → is_other (at s i) ≡ true)
    (inside : (i : ℕ) → p ≤ i → i < p + k → isbacktick (at s i) ≡ true)
    (behind : isbacktick (at s (p + k)) ≡ false) where
  pub ends-Closes : length s ≤ p → Closes s lo n 0
  ends-Closes h = inl (refl, none_left)
    where
      none_left : (q : ℕ) → IsRun s lo n q → ⊥
      none_left q (a, b, c, d, e) = choose split
        where
          split : (q < p) ⊎ (p ≤ q)
          split = ground arith

          here : at s q ≡ b'`'
          here = c q (omega arith) (omega (arith, b))

          choose : (q < p) ⊎ (p ≤ q) → ⊥
          choose (inl l) = ground (arith, before q a l, here)
          choose (inr l) = ground (arith, at_past s q (omega (arith, h, l)), here)

  pub found-Closes : 0 < k → k ≡ n → Closes s lo n (p + k)
  found-Closes h e = inr (p, omega (arith, e), (le, omega (arith, h, e), all, stop, start), least)
    where
      all : (i : ℕ) → p ≤ i → i < p + n → at s i ≡ b'`'
      all i a b = ground (arith, inside i a (omega (arith, b, e)))

      stop : at s (p + n) ≢ b'`'
      stop f = ground (arith, behind, subst (λ x. at s (p + x) ≡ b'`') (sym e) f)

      split : (p ≡ lo) ⊎ (lo < p)
      split = ground arith

      start : (p ≡ lo) ⊎ (at s (p - 1) ≢ b'`')
      start = elim split [
        | inl f ↦ inl f
        | inr f ↦ inr (λ g. ground (arith, g, before (p - 1) (omega (arith, f)) (omega (arith, f))))
      ]

      least : (j : ℕ) → IsRun s lo n j → p ≤ j
      least j r = elim (IsRun-cases s lo p k n j le before inside behind r) [
        | inl f ↦ omega (arith, f.0)
        | inr f ↦ omega (arith, f.0)
      ]

  pub later-Closes : (r : ℕ) → k ≢ n → Closes s (p + k) n r → Closes s lo n r
  later-Closes r ne (inl (z, f)) = inl (z, λ q h. f q (beyond q h))
    where
      beyond : (q : ℕ) → IsRun s lo n q → IsRun s (p + k) n q
      beyond q h = elim (IsRun-cases s lo p k n q le before inside behind h) [
        | inl f ↦ absurd (ne (sym f.1))
        | inr f ↦ f
      ]
  later-Closes r ne (inr (q, e, (a, b, c, d, g), least)) =
      inr (q, e, (omega (arith, a, le), b, c, d, inr (free g)), λ j h. least j (beyond j h))
    where
      beyond : (q : ℕ) → IsRun s lo n q → IsRun s (p + k) n q
      beyond q h = elim (IsRun-cases s lo p k n q le before inside behind h) [
        | inl f ↦ absurd (ne (sym f.1))
        | inr f ↦ f
      ]

      free : (q ≡ p + k) ⊎ (at s (q - 1) ≢ b'`') → at s (q - 1) ≢ b'`'
      free (inl f) = absurd (
          ground
            (arith, behind, subst (λ x. at s x ≡ b'`') f (c q (omega arith) (omega (arith, b)))))
      free (inr f) = f
