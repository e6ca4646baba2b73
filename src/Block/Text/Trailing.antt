-- ===== src/Block/Text/Trailing.antt =====
-- The blank lines at the end of a code block.
use swift_cmark.Base.{
  All, Bool-cases, Bytes, [], ap, arith, at, drop, false, if◌then◌else◌, inl, inr, length, refl,
  subst, suc, sym, take, true, zero, ℕ, ◌++◌, ◌+◌, ◌∙◌, ◌∷◌, ◌≡◌, ◌⊎◌,
}
use swift_cmark.Houdini.{span_length}
use swift_cmark.Block.Text.{
  is_blank_char, blank_loop, is_in_line, cut_lines, remove_trailing_blank_lines,
}

abbrev pub IsBlank : Bytes → Type 0
IsBlank s = All (λ c. is_blank_char c ≡ true) s

-- The last byte that is not blank, and of the blanks behind it those on its line.
abbrev pub EndsLine : Bytes → Bytes → Type 0
EndsLine s r =
    (u : Bytes) × (c : ℕ) × (v : Bytes) × (s ≡ u ++ c ∷ v)
    × (is_blank_char c ≡ false)
    × IsBlank v
    × (r ≡ u ++ c ∷ take (span_length is_in_line v) v)

abbrev after_first : ℕ → ℕ → ℕ
after_first x zero = if is_blank_char x then 0 else 1
after_first x (suc n) = suc (suc n)

blank_loop-cons :
    (x : ℕ) (s : Bytes) (n : ℕ) → blank_loop (x ∷ s) (suc n) ≡ after_first x (blank_loop s n)
unfolding blank_loop
blank_loop-cons x s zero = refl
blank_loop-cons x s (suc n) = elim (Bool-cases (is_blank_char (at s n))) [
  | inl e ↦ rw e (blank_loop-cons x s n)
  | inr e ↦ rw e refl
]

cut_lines-cons : (x i : ℕ) (s : Bytes) → cut_lines (x ∷ s) (suc (suc i)) ≡ x ∷ cut_lines s (suc i)
cut_lines-cons x i s =
    ap (λ (k : ℕ). take k (x ∷ s)) {y = suc (i + span_length is_in_line (drop i s))} (omega arith)

cut_lines-first :
    (x : ℕ) (s : Bytes)
    → is_blank_char x ≡ false
    → cut_lines (x ∷ s) 1 ≡ x ∷ take (span_length is_in_line s) s
unfolding span_length
cut_lines-first x s e =
    let line : is_in_line x ≡ true = ground (arith, e) in
    rw line (ap (λ (k : ℕ). take k (x ∷ s)) {y = suc (span_length is_in_line s)} (omega arith))

Removed : Bytes → ℕ → Type 0
Removed s n = ((n ≡ 0) × IsBlank s) ⊎ ((i : ℕ) × (n ≡ suc i) × EndsLine s (cut_lines s n))

later-Removed :
    (x : ℕ) (s : Bytes) (i : ℕ)
    → EndsLine s (cut_lines s (suc i))
    → Removed (x ∷ s) (after_first x (suc i))
unfolding Removed
later-Removed x s i (u, c, v, p, q, b, r) =
    inr (suc i, refl, (x ∷ u, c, v, ap (◌∷◌ x) p, q, b, cut_lines-cons x i s ∙ ap (◌∷◌ x) r))

first-Removed : (x : ℕ) (s : Bytes) → IsBlank s → Removed (x ∷ s) (after_first x 0)
unfolding Removed
first-Removed x s b = elim (Bool-cases (is_blank_char x)) [
  | inl e ↦ rw e (inl (refl, (refl, b)))
  | inr e ↦ rw e (inr (0, refl, ([], x, s, refl, e, b, cut_lines-first x s e)))
]

cons-Removed : (x : ℕ) (s : Bytes) (n : ℕ) → Removed s n → Removed (x ∷ s) (after_first x n)
unfolding Removed
cons-Removed x s n (inl (z, b)) =
    subst (λ k. Removed (x ∷ s) (after_first x k)) (sym z) (first-Removed x s b)
cons-Removed x s n (inr (i, e, line)) =
    subst (λ k. Removed (x ∷ s) (after_first x k)) (sym e)
      (later-Removed x s i (subst (λ k. EndsLine s (cut_lines s k)) e line))

blank_loop-Removed : (s : Bytes) → Removed s (blank_loop s (length s))
unfolding Removed blank_loop
blank_loop-Removed [] = inl (refl, _)
blank_loop-Removed (x ∷ s) =
    subst (Removed (x ∷ s)) (sym (blank_loop-cons x s (length s)))
      (cons-Removed x s (blank_loop s (length s)) (blank_loop-Removed s))

-- Of a text of spaces, tabs and line ends nothing is left; of any other what is left ends on the
-- line of the last byte that is none of these, with the blanks behind it on that line.
pub remove_trailing_blank_lines-EndsLine :
    (s : Bytes)
    → (IsBlank s × (remove_trailing_blank_lines s ≡ []))
      ⊎ EndsLine s (remove_trailing_blank_lines s)
unfolding remove_trailing_blank_lines Removed
remove_trailing_blank_lines-EndsLine s = elim (blank_loop-Removed s) [
  | inl (z, b) ↦ inl (b, ap (cut_lines s) z)
  | inr (i, e, line) ↦ inr line
]
