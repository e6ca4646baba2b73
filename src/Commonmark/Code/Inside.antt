-- ===== src/Commonmark/Code/Inside.antt =====
-- Runs of backticks in a part of a text.
use swift_cmark.Base.{
  Bytes, [], ap, arith, at, at_past, inl, inr, length, refl, suc, sym, zero, ℕ, ◌++◌, ◌+◌, ◌-◌, ◌<◌,
  ◌∙◌, ◌∷◌, ◌≡◌, ◌≢◌, ◌≤◌, ◌⊎◌,
}
use swift_cmark.Inline.Backticks.Runs.{IsRun}
use swift_cmark.Block.Text.Closing.{at-append}

pub at-left : (u v : Bytes) (i : ℕ) → i < length u → at (u ++ v) i ≡ at u i
at-left [] v i h = absurd (omega (arith, h))
at-left (c ∷ u) v zero h = refl
at-left (c ∷ u) v (suc i) h = at-left u v i (omega (arith, h))

-- A run behind the first part.
pub shift-IsRun :
    (u v : Bytes) (n q : ℕ) → IsRun (u ++ v) (length u) n q → IsRun v 0 n (q - length u)
shift-IsRun u v n q (a, b, c, d, e) = (omega arith, b, inside, stop, start zero_or)
  where
    at_behind : (i j : ℕ) → j ≡ length u + i → at (u ++ v) j ≡ at v i
    at_behind i j h = ap (at (u ++ v)) h ∙ at-append u v i

    inside : (i : ℕ) → q - length u ≤ i → i < q - length u + n → at v i ≡ b'`'
    inside i l k =
        sym (at_behind i (length u + i) refl)
        ∙ c (length u + i) (omega (arith, l)) (omega (arith, k, a))

    stop : at v (q - length u + n) ≢ b'`'
    stop f = d (at_behind (q - length u + n) (q + n) (omega (arith, a)) ∙ f)

    zero_or : (q ≡ length u) ⊎ (length u < q)
    zero_or = ground arith

    start : (q ≡ length u) ⊎ (length u < q) → (q - length u ≡ 0) ⊎ (at v (q - length u - 1) ≢ b'`')
    start (inl z) = inl (omega (arith, z))
    start (inr l) = elim e [
      | inl z ↦ inl (omega (arith, z))
      | inr f ↦ inr (λ g. f (at_behind (q - length u - 1) (q - 1) (omega (arith, l)) ∙ g))
    ]

-- A run that begins in the first part is a run of that part, where a backtick is missing at the border.
pub shrink-IsRun :
    (u v : Bytes) (n q : ℕ)
    → IsRun (u ++ v) 0 n q
    → q < length u
    → (at u (length u - 1) ≢ b'`') ⊎ (at v 0 ≢ b'`')
    → IsRun u 0 n q
shrink-IsRun u v n q (a, b, c, d, e) h border = (a, b, inside, stop end_or, start e)
  where
    fits_or : (q + n ≤ length u) ⊎ (length u < q + n)
    fits_or = ground arith

    fits : q + n ≤ length u
    fits = elim fits_or [
      | inl k ↦ k
      | inr k ↦ absurd (elim border [
        | inl f ↦ f (
            sym (at-left u v (length u - 1) (omega (arith, h)))
            ∙ c (length u - 1) (omega (arith, h)) (omega (arith, k)))
        | inr f ↦ f (sym (at-append u v 0) ∙ c (length u + 0) (omega (arith, h)) (omega (arith, k)))
      ])
    ]

    inside : (i : ℕ) → q ≤ i → i < q + n → at u i ≡ b'`'
    inside i l k = sym (at-left u v i (omega (arith, k, fits))) ∙ c i l k

    end_or : (q + n < length u) ⊎ (length u ≤ q + n)
    end_or = ground arith

    stop : (q + n < length u) ⊎ (length u ≤ q + n) → at u (q + n) ≢ b'`'
    stop (inl k) f = d (at-left u v (q + n) k ∙ f)
    stop (inr k) f = omega (arith, sym (at_past u (q + n) k) ∙ f)

    start : (q ≡ 0) ⊎ (at (u ++ v) (q - 1) ≢ b'`') → (q ≡ 0) ⊎ (at u (q - 1) ≢ b'`')
    start (inl z) = inl z
    start (inr f) = inr (λ g. f (at-left u v (q - 1) (omega (arith, h)) ∙ g))
