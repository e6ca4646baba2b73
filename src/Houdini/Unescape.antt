-- ===== src/Houdini/Unescape.antt =====
-- src/houdini_html_u.c: entities read back. The table of src/entities.inc is the section's
-- parameter: `name i` is the entity at index `i` and `bytes i` what it stands for.
pub mod Lookup
pub mod Digits
pub mod Whole
pub mod RoundTrip
use swift_cmark.Base.{
  Bool, Bytes, Option, [], at, drop, false, if◌then◌else◌, leb, length, ltb, min, none, not, some,
  suc, take, true, within, zero, ℕ, ◌%◌, ◌&&◌, ◌*◌, ◌++◌, ◌+◌, ◌-◌, ◌/◌, ◌==◌, ◌||◌, ◌∷◌,
}
use swift_cmark.Houdini.{span_length}
use Prim.Native.Nat.{Ordering, lt, eq, gt, bit_or}
use swift_cmark.Strings.{strncmp}
use swift_cmark.Utf8.{encode_char}

abbrev pub entity_min_length : ℕ
entity_min_length = 2

abbrev pub entity_max_length : ℕ
entity_max_length = 32

unfoldable pub is_digit : ℕ → Bool
is_digit c = within b'0' b'9' c

-- `strchr` finds the NUL at the end of the digits too, so a NUL passes.
unfoldable pub is_xdigit : ℕ → Bool
is_xdigit c = within b'0' b'9' c || within b'A' b'F' c || within b'a' b'f' c || c == 0

-- One more digit of a code point, held at 0x110000 from there on.
unfoldable pub push_digit : ℕ → ℕ → ℕ → ℕ
push_digit base codepoint d =
    let next = codepoint * base + d in if leb 0x110000 next then 0x110000 else next

-- The loops over digits: the code point and the number of digits.
unfoldable pub digits_loop : (ℕ → Bool) → (ℕ → ℕ) → ℕ → Bytes → ℕ → ℕ → ℕ × ℕ
unfolding push_digit
digits_loop test value base [] codepoint n = (codepoint, n)
digits_loop test value base (c ∷ s) codepoint n =
    let rest = digits_loop test value base s (push_digit base codepoint (value c)) (n + 1) in
    if test c then rest else (codepoint, n)

unfoldable pub dec_value : ℕ → ℕ
dec_value c = c - b'0'

unfoldable pub hex_value : ℕ → ℕ
hex_value c = bit_or c 32 % 39 - 9

-- A code point that is no scalar value, or 0, is read as U+FFFD.
unfoldable pub fix_codepoint : ℕ → ℕ
fix_codepoint c = if c == 0 || (leb 0xd800 c && ltb c 0xe000) || leb 0x110000 c then 0xfffd else c

-- Behind `skip` bytes and the digits there has to be a semicolon. The result is what is appended, and
-- how many bytes of the source were read; `none` is 0.
unfoldable pub numeric_end : Bytes → ℕ → ℕ × ℕ → Option (Bytes × ℕ)
unfolding fix_codepoint
numeric_end src skip (codepoint, n) =
    if leb 1 n && leb n 8 && ltb (skip + n) (length src) && at src (skip + n) == b';'
    then some (encode_char (fix_codepoint codepoint), skip + n + 1)
    else none

unfoldable pub numeric : Bytes → Option (Bytes × ℕ)
unfolding is_digit is_xdigit digits_loop dec_value hex_value numeric_end
numeric src =
    if is_digit (at src 1)
    then numeric_end src 1 (digits_loop is_digit dec_value 10 (drop 1 src) 0 0)
    else if at src 1 == b'x' || at src 1 == b'X'
    then numeric_end src 2 (digits_loop is_xdigit hex_value 16 (drop 2 src) 0 0)
    else none

module _ (name bytes : ℕ → Bytes) where
  -- `S_lookup` of a name without NUL: at a NUL `strncmp` stops, and the source may then read behind
  -- an entity's end. The range shrinks with each call, so its size is fuel enough.
  unfoldable pub lookup : ℕ → ℕ → ℕ → ℕ → Bytes → Option Bytes
  lookup zero i low hi s = none
  lookup (suc fuel) i low hi s =
      let cmp = strncmp s (name i) (length s) in
      let found : Bool = elim cmp [ eq ↦ leb (length (name i)) (length s) | _ ↦ false ] in
      let le : Bool = elim cmp [ gt ↦ false | _ ↦ true ] in
      let down = if i - (i - low) / 2 == i then i - 1 else i - (i - low) / 2 in
      let up = if i + (hi - i) / 2 == i then i + 1 else i + (hi - i) / 2 in
      let left = lookup fuel down low (i - 1) s in
      let right = lookup fuel up (i + 1) hi s in
      if found
      then some (bytes i)
      else if le && ltb low i
      then left
      else if not le && ltb i hi
      then right
      else none

  module _ (count : ℕ) where
    -- `S_lookup_entity`
    unfoldable pub lookup_entity : Bytes → Option Bytes
    unfolding lookup
    lookup_entity s = lookup count (count / 2) 0 (count - 1) s

    -- The loop over a name, at offset `i` of `n` bytes more.
    unfoldable pub name_loop : Bytes → ℕ → ℕ → Option (Bytes × ℕ)
    name_loop src i zero = none
    name_loop src i (suc n) =
        let rest = name_loop src (i + 1) n in
        let entity = lookup_entity (take i src) in
        if at src i == b' '
        then none
        else if at src i == b';'
        then elim entity [ none ↦ none | some e ↦ some (e, i + 1) ]
        else rest

    -- `houdini_unescape_ent` on the bytes behind an ampersand.
    unfoldable pub unescape_ent : Bytes → Option (Bytes × ℕ)
    unfolding numeric name_loop
    unescape_ent src =
        if leb 3 (length src) && at src 0 == b'#'
        then numeric src
        else name_loop src entity_min_length
            (min (length src) entity_max_length - entity_min_length)

    -- The outer loop of `houdini_unescape_html`.
    unfoldable pub unescape_loop : ℕ → Bytes → Bytes → Bytes
    unescape_loop zero src ob = ob
    unescape_loop (suc fuel) src ob =
        let n = span_length (λ c. not (c == b'&')) src in
        let ob' = if ltb 0 n then ob ++ take n src else ob in
        elim (drop n src) [
          | [] ↦ ob'
          | c ∷ rest ↦ elim (unescape_ent rest) [
            | none ↦ unescape_loop fuel rest (ob' ++ b'&' ∷ [])
            | some (out, k) ↦ unescape_loop fuel (drop k rest) (ob' ++ out)
          ]
        ]

    -- `houdini_unescape_html` on an empty buffer; `none` is its 0, with nothing written.
    unfoldable pub unescape_html : Bytes → Option Bytes
    unfolding unescape_loop
    unescape_html src =
        let n = span_length (λ c. not (c == b'&')) src in
        if ltb 0 n && leb (length src) n then none else some (unescape_loop (length src) src [])

    -- `houdini_unescape_html_f`
    unfoldable pub unescape_html_f : Bytes → Bytes
    unfolding unescape_html
    unescape_html_f src = elim (unescape_html src) [ none ↦ src | some out ↦ out ]
