-- ===== src/Commonmark.antt =====
-- src/commonmark.c: printing CommonMark; of the nodes, code spans. A `uint32_t` that is used as a set is
-- the list of its 32 bits, the lowest first.
pub mod Runs
pub mod Used
pub mod Ticks
pub mod Code
mod Tests
use swift_cmark.Base.{
  Bool, Bytes, List, Option, [], at, false, if◌then◌else◌, length, ltb, not, set, some, suc, true,
  zero, ℕ, ◌%◌, ◌&&◌, ◌++◌, ◌+◌, ◌-◌, ◌/◌, ◌==◌, ◌>>=◌, ◌||◌, ◌∷◌,
}
use swift_cmark.Ctype.{ispunct, isspace, isdigit, isalpha}
use swift_cmark.Render.{
  render_ascii, render_code_point, Renderer, out, Escaping, literal, normal, title, url,
}

-- What `snprintf` writes for `%2X` and a number below 128: at least two characters, with spaces on the
-- left; and for `%d` and a number below 100.
abbrev hex_digit : ℕ → ℕ
hex_digit d = if ltb d 10 then b'0' + d else b'A' + (d - 10)

abbrev pub percent_2X : ℕ → Bytes
percent_2X c = (if ltb c 16 then b' ' else hex_digit (c / 16)) ∷ hex_digit (c % 16) ∷ []

abbrev pub percent_d : ℕ → Bytes
percent_d c = if ltb c 10 then (b'0' + c) ∷ [] else (b'0' + c / 10) ∷ (b'0' + c % 10) ∷ []

abbrev pub follows_digit : Renderer → Bool
follows_digit r = ltb 0 (length r.buffer) && isdigit (at r.buffer (length r.buffer - 1))

-- The tests of `needs_escaping` on a character below 0x80.
unfoldable pub needs_escaping : Renderer → Escaping → ℕ → ℕ → Bool
unfolding isalpha isspace isdigit
needs_escaping r literal c nextc = false
needs_escaping r normal c nextc =
    ltb c 0x20
    || c == b'*'
    || c == b'_'
    || c == b'['
    || c == b']'
    || c == b'#'
    || c == b'<'
    || c == b'>'
    || c == b'\\'
    || c == b'`'
    || c == b'~'
    || c == b'!'
    || (c == b'&' && isalpha nextc)
    || (c == b'!' && nextc == b'[')
    || (c == b'^' && nextc == b'[')
    || (r.begin_content && (c == b'-' || c == b'+' || c == b'=') && not (follows_digit r))
    || (r.begin_content
        && (c == b'.' || c == b')')
        && follows_digit r
        && (nextc == 0 || isspace nextc))
needs_escaping r url c nextc =
    c == b'`' || c == b'<' || c == b'>' || isspace c || c == b'\\' || c == b')' || c == b'('
needs_escaping r title c nextc = c == b'`' || c == b'<' || c == b'>' || c == b'"' || c == b'\\'

unfoldable pub is_url : Escaping → Bool
is_url url = true
is_url _ = false

-- `outc`
unfoldable pub outc : Renderer → Escaping → ℕ → ℕ → Renderer
unfolding needs_escaping render_code_point render_ascii isspace ispunct is_url
outc r escape c nextc =
    if ltb c 0x80 && needs_escaping r escape c nextc
    then if is_url escape && isspace c
      then (let encoded = b'%' ∷ percent_2X c in
          record r { buffer = r.buffer ++ encoded; column = r.column + 3 })
      else if ispunct c
      then render_code_point (render_ascii r (b'\\' ∷ [])) c
      else (let encoded = b'&' ∷ b'#' ∷ percent_d c ++ b';' ∷ [] in
          record r { buffer = r.buffer ++ encoded; column = r.column + length encoded })
    else render_code_point r c

-- `longest_backtick_sequence` from the state of its loop; the last round is on the NUL.
unfoldable pub longest_loop : ℕ → ℕ → Bytes → ℕ
longest_loop longest current [] = if ltb longest current then current else longest
longest_loop longest current (c ∷ s) =
    let inside = longest_loop longest (current + 1) s in
    let outside = longest_loop (if ltb longest current then current else longest) 0 s in
    if c == b'`' then inside else outside

abbrev pub longest_backtick_sequence : Bytes → ℕ
longest_backtick_sequence code = longest_loop 0 0 code

-- `used |= (1U << current)` under its guard.
abbrev pub mark : List Bool → ℕ → List Bool
mark used current = if ltb 0 current && ltb current 32 then set used current true else used

-- The first loop of `shortest_unused_backtick_sequence`.
unfoldable pub used_loop : List Bool → ℕ → Bytes → List Bool
used_loop used current [] = mark used current
used_loop used current (c ∷ s) =
    let inside = used_loop used (current + 1) s in
    let outside = used_loop (mark used current) 0 s in if c == b'`' then inside else outside

-- Its second loop: the number of the first bit that is 0.
unfoldable pub first_unused : List Bool → ℕ
first_unused [] = 0
first_unused (b ∷ bs) = let rest = first_unused bs in if b then suc rest else 0

abbrev pub no_bits : ℕ → List Bool
no_bits zero = []
no_bits (suc n) = false ∷ no_bits n

unfoldable pub shortest_unused_backtick_sequence : Bytes → ℕ
unfolding used_loop first_unused
shortest_unused_backtick_sequence code = first_unused (used_loop (true ∷ no_bits 31) 0 code)

abbrev pub extra_spaces : Bytes → Bool
extra_spaces code =
    length code == 0
    || at code 0 == b'`'
    || at code (length code - 1) == b'`'
    || at code 0 == b' '
    || at code (length code - 1) == b' '

-- The macro `LIT`, `n` times.
unfoldable pub lit_loop : (ℕ → Bool) → ℕ → Bytes → Renderer → Option Renderer
unfolding out
lit_loop escapes zero s r = some r
lit_loop escapes (suc n) s r = out outc escapes r s false literal >>= lit_loop escapes n s

-- `S_render_node` on a code span; `breaks` is whether the options allow wrapping.
unfoldable pub render_code : (ℕ → Bool) → Bool → Renderer → Bytes → Option Renderer
render_code escapes breaks r code = do
  let numticks = shortest_unused_backtick_sequence code
  let spaces = if extra_spaces code then 1 else 0
  let allow_wrap = ltb 0 r.width && breaks
  r₁ ← lit_loop escapes numticks (b'`' ∷ []) r
  r₂ ← lit_loop escapes spaces (b' ' ∷ []) r₁
  r₃ ← out outc escapes r₂ code allow_wrap literal
  r₄ ← lit_loop escapes spaces (b' ' ∷ []) r₃
  lit_loop escapes numticks (b'`' ∷ []) r₄
