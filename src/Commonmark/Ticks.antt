-- ===== src/Commonmark/Ticks.antt =====
-- The shortest run of backticks that a text does not hold.
use swift_cmark.Base.{
  Bool, Bytes, List, arith, false, inl, inr, length, refl, subst, suc, true, zero, ℕ, ◌<◌, ◌∷◌, ◌≡◌,
  ◌≤◌, ◌⊎◌,
}
use swift_cmark.Commonmark.{shortest_unused_backtick_sequence, used_loop, first_unused, no_bits}
use swift_cmark.Inline.Backticks.Runs.{IsRun}
use swift_cmark.Commonmark.Runs.{HasRun-iff}
use swift_cmark.Commonmark.Used.{
  bit, length-used_loop, used_loop-low, no_bits-bit, used_loop-bit, first_unused_lem,
}

-- Between 1 and 32, the length of no run unless it is 32, while every shorter one has a run.
abbrev pub IsShortestUnused : Bytes → ℕ → Type 0
IsShortestUnused code n =
    (1 ≤ n)
    × (n ≤ 32)
    × (n < 32 → (q : ℕ) → ¬ IsRun code 0 n q)
    × ((m : ℕ) → 0 < m → m < n → (q : ℕ) × IsRun code 0 m q)

-- The result is from 1 to 32; unless it is 32, no run of backticks of the text has exactly that
-- length, and each smaller length from 1 on is that of some run.
pub shortest_unused_backtick_sequence-IsShortestUnused :
    (code : Bytes) → IsShortestUnused code (shortest_unused_backtick_sequence code)
unfolding shortest_unused_backtick_sequence
shortest_unused_backtick_sequence-IsShortestUnused code =
    let (le, off, on) = first_unused_lem bits in
    (
      some_bit,
      omega (arith, le, sized),
      λ h q r. apart (off (omega (arith, h, sized))) (
          (used_loop-bit n some_bit h code start 0 refl).1
            (inr ((HasRun-iff n some_bit code).1 (q, r)))),
      λ m h l.
          elim ((used_loop-bit m h (omega (arith, l, le, sized)) code start 0 refl).0 (on m l)) [
            | inl k ↦ absurd (apart (unset m h) k)
            | inr k ↦ (HasRun-iff m h code).0 k
          ],
    )
  where
    start : List Bool
    start = true ∷ no_bits 31

    bits : List Bool
    bits = used_loop start 0 code

    n : ℕ
    n = first_unused bits

    sized : length bits ≡ 32
    sized = length-used_loop code start 0

    apart : {b : Bool} → b ≡ false → b ≡ true → ⊥
    apart e f = cc

    some_bit : 0 < n
    some_bit = elim zero_or [
      | inl z ↦
          let off : bit bits n ≡ false = (first_unused_lem bits).1 (omega (arith, z, sized)) in
          absurd (apart (subst (λ k. bit bits k ≡ false) z off) (used_loop-low code start 0 refl))
      | inr h ↦ h
    ]
      where
        zero_or : (n ≡ 0) ⊎ (0 < n)
        zero_or = ground arith

    unset : (m : ℕ) → 0 < m → bit start m ≡ false
    unset zero h = absurd (omega (arith, h))
    unset (suc m) h = no_bits-bit 31 m
