-- ===== src/Inline/Smart.antt =====
-- Smart dashes and ellipses: the text that stands for the bytes from a place on, and the place behind
-- them.
pub mod Dashes
use swift_cmark.Base.{
  Bool, Bytes, [], at, drop, if◌then◌else◌, not, suc, zero, ℕ, ◌%◌, ◌&&◌, ◌++◌, ◌+◌, ◌-◌, ◌/◌, ◌==◌,
  ◌||◌, ◌∷◌,
}
use swift_cmark.Houdini.{span_length}

abbrev pub emdash : Bytes
emdash = 0xe2 ∷ 0x80 ∷ 0x94 ∷ []

abbrev pub endash : Bytes
endash = 0xe2 ∷ 0x80 ∷ 0x93 ∷ []

abbrev pub ellipses : Bytes
ellipses = 0xe2 ∷ 0x80 ∷ 0xa6 ∷ []

-- `em_count` and `en_count`
unfoldable pub dash_counts : ℕ → ℕ × ℕ
dash_counts n =
    if n % 3 == 0
    then (n / 3, 0)
    else if n % 2 == 0
    then (0, n / 2)
    else if n % 3 == 2
    then ((n - 2) / 3, 1)
    else ((n - 4) / 3, 2)

-- `cmark_strbuf_puts`, `n` times.
abbrev pub puts_loop : ℕ → Bytes → Bytes → Bytes
puts_loop zero s buf = buf
puts_loop (suc n) s buf = puts_loop n s (buf ++ s)

-- `handle_hyphen` at a hyphen.
unfoldable pub handle_hyphen : Bool → Bytes → ℕ → Bytes × ℕ
unfolding dash_counts
handle_hyphen smart input start =
    let numhyphens = 1 + span_length (λ c. c == b'-') (drop (start + 1) input) in
    let (em, en) = dash_counts numhyphens in
    if not smart || not (at input (start + 1) == b'-')
    then (b'-' ∷ [], start + 1)
    else (puts_loop en endash (puts_loop em emdash []), start + numhyphens)

-- `handle_period` at a period.
unfoldable pub handle_period : Bool → Bytes → ℕ → Bytes × ℕ
handle_period smart input start =
    if smart && at input (start + 1) == b'.'
    then if at input (start + 2) == b'.'
      then (ellipses, start + 3)
      else (b'.' ∷ b'.' ∷ [], start + 2)
    else (b'.' ∷ [], start + 1)
