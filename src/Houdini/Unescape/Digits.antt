-- ===== src/Houdini/Unescape/Digits.antt =====
-- Numeric character references: the clamped code point, and what it becomes.
use swift_cmark.Base.{
  All, Bool, Bool-cases, Bytes, [], ap, arith, at, drop, false, if◌then◌else◌, inl, inr, length,
  length-append, ltb, min, refl, some, suc, true, ℕ, ◌*◌, ◌++◌, ◌+◌, ◌<◌, ◌∙◌, ◌∷◌, ◌≡◌, ◌≤◌, ◌⊎◌,
}
use swift_cmark.Houdini.Unescape.{
  digits_loop, push_digit, dec_value, hex_value, is_digit, is_xdigit, fix_codepoint, numeric,
  numeric_end,
}
use swift_cmark.Utf8.{encode_char}

-- The digits at the front, and the number that digits stand for with `acc` before them.
unfoldable pub span : (ℕ → Bool) → Bytes → Bytes
span test [] = []
span test (c ∷ s) = let rest = span test s in if test c then c ∷ rest else []

unfoldable pub number : (ℕ → ℕ) → ℕ → Bytes → ℕ → ℕ
number value base [] acc = acc
number value base (c ∷ s) acc = number value base s (acc * base + value c)

-- A number that has reached the clamp stays there: the clamp commutes with reading on.
clamp_push :
    (base acc d : ℕ)
    → 1 ≤ base
    → push_digit base (min acc 0x110000) d ≡ min (acc * base + d) 0x110000
unfolding push_digit
clamp_push base acc d h = elim (Bool-cases (ltb acc 0x110000)) [
  | inl small ↦ let e : min acc 0x110000 ≡ acc = ground arith in rw e (ground arith)
  | inr big ↦
      let e : min acc 0x110000 ≡ 0x110000 = ground arith in
      let k : 0x110000 ≤ acc = ground arith in
      let l : acc ≤ acc * base = grind arith in rw e (ground arith)
]

-- The loop counts the digits and reads their number, clamped to 0x110000: no `int` overflows.
pub digits_loop-number :
    (test : ℕ → Bool) (value : ℕ → ℕ) (base : ℕ) (s : Bytes) (acc n : ℕ)
    → 1 ≤ base
    → digits_loop test value base s (min acc 0x110000) n
      ≡ (min (number value base (span test s) acc) 0x110000, n + length (span test s))
unfolding digits_loop number span
digits_loop-number test value base [] acc n h = ground arith
digits_loop-number test value base (c ∷ s) acc n h = elim (Bool-cases (test c)) [
  | inl digit ↦
      rw (digit, clamp_push base acc (value c) h)
        (ground (arith, digits_loop-number test value base s (acc * base + value c) (n + 1) h))
  | inr other ↦ rw other (ground arith)
]

span-append :
    (test : ℕ → Bool) (ds rest : Bytes)
    → All (λ c. test c ≡ true) ds
    → test b';' ≡ false
    → span test (ds ++ b';' ∷ rest) ≡ ds
unfolding span
span-append test [] rest h e = rw e
span-append test (c ∷ ds) rest h e = rw (h.0, span-append test ds rest h.1 e)

at-append : (ds : Bytes) (c : ℕ) (rest : Bytes) → at (ds ++ c ∷ rest) (length ds) ≡ c
at-append [] c rest = refl
at-append (d ∷ ds) c rest = at-append ds c rest

numeric_end_lem :
    (src : Bytes) (skip v n : ℕ)
    → 1 ≤ n
    → n ≤ 8
    → skip + n < length src
    → at src (skip + n) ≡ b';'
    → numeric_end src skip (min v 0x110000, n) ≡ some (encode_char (fix_codepoint v), skip + n + 1)
unfolding numeric_end
numeric_end_lem src skip v n a b c e =
    let clamped : fix_codepoint (min v 0x110000) ≡ fix_codepoint v =
      unfold fix_codepoint in ground arith in
    ground arith

digits-All :
    (test : ℕ → Bool) (value : ℕ → ℕ) (base : ℕ) (ds rest : Bytes)
    → 1 ≤ base
    → All (λ c. test c ≡ true) ds
    → test b';' ≡ false
    → digits_loop test value base (ds ++ b';' ∷ rest) 0 0
      ≡ (min (number value base ds 0) 0x110000, length ds)
digits-All test value base ds rest h all e =
    let count : 0 + length ds ≡ length ds = omega arith in
    digits_loop-number test value base (ds ++ b';' ∷ rest) 0 0 h
    ∙ rw (span-append test ds rest all e, count)

numeric_dec_branch :
    (src : Bytes)
    → is_digit (at src 1) ≡ true
    → numeric src ≡ numeric_end src 1 (digits_loop is_digit dec_value 10 (drop 1 src) 0 0)
unfolding numeric
numeric_dec_branch src h = rw h

numeric_hex_branch :
    (src : Bytes)
    → (at src 1 ≡ b'x') ⊎ (at src 1 ≡ b'X')
    → numeric src ≡ numeric_end src 2 (digits_loop is_xdigit hex_value 16 (drop 2 src) 0 0)
unfolding numeric
numeric_hex_branch src (inl e) = rw e
numeric_hex_branch src (inr e) = rw e

-- A decimal reference of one to eight digits and a semicolon gives the encoding of its number, or
-- of U+FFFD where that is 0, a surrogate or beyond U+10FFFF, and takes all its bytes.
pub numeric_dec :
    (ds rest : Bytes)
    → 1 ≤ length ds
    → length ds ≤ 8
    → All (λ c. is_digit c ≡ true) ds
    → numeric (b'#' ∷ (ds ++ b';' ∷ rest))
      ≡ some (encode_char (fix_codepoint (number dec_value 10 ds 0)), 1 + length ds + 1)
numeric_dec [] rest a b h = absurd (omega arith)
numeric_dec (d ∷ ds) rest a b h =
    let src = b'#' ∷ (d ∷ (ds ++ b';' ∷ rest)) in
    numeric_dec_branch src h.0
    ∙ ap (numeric_end src 1)
        (digits-All is_digit dec_value 10 (d ∷ ds) rest (omega arith) h (unfold is_digit in refl))
    ∙ numeric_end_lem src 1 (number dec_value 10 (d ∷ ds) 0) (suc (length ds)) a b
        (omega (arith, length-append ds (b';' ∷ rest)))
        (let e : 1 + suc (length ds) ≡ suc (suc (length ds)) = omega arith in
          ap (at src) e ∙ at-append ds b';' rest)

-- A hexadecimal reference behind `x` or `X`, of one to eight bytes that `is_xdigit` accepts and a
-- semicolon, gives the encoding of its number, or of U+FFFD where that is 0, a surrogate or beyond
-- U+10FFFF, and takes all its bytes.
pub numeric_hex :
    (x : ℕ) (ds rest : Bytes)
    → (x ≡ b'x') ⊎ (x ≡ b'X')
    → 1 ≤ length ds
    → length ds ≤ 8
    → All (λ c. is_xdigit c ≡ true) ds
    → numeric (b'#' ∷ x ∷ (ds ++ b';' ∷ rest))
      ≡ some (encode_char (fix_codepoint (number hex_value 16 ds 0)), 2 + length ds + 1)
numeric_hex x ds rest mark a b h =
    let src = b'#' ∷ x ∷ (ds ++ b';' ∷ rest) in
    numeric_hex_branch src mark
    ∙ ap (numeric_end src 2)
        (digits-All is_xdigit hex_value 16 ds rest (omega arith) h (unfold is_xdigit in refl))
    ∙ numeric_end_lem src 2 (number hex_value 16 ds 0) (length ds) a b
        (omega (arith, length-append ds (b';' ∷ rest)))
        (let e : 2 + length ds ≡ suc (suc (length ds)) = omega arith in
          ap (at src) e ∙ at-append ds b';' rest)
