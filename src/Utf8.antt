-- ===== src/Utf8.antt =====
-- src/utf8.c: UTF-8 decoding, validation and encoding. A `const uint8_t *` with its length is the list
-- of its bytes; the buffer that a function appends to is the list of its contents (`Buffer.put_lem`).
-- The masks and shifts of the source stand as `%`, `*` and `/` by powers of two.
pub mod RoundTrip
pub mod Valid
pub mod Check
pub mod Classes
mod Tests
use swift_cmark.Base.{
  Bool, Bytes, Option, [], at, drop, if◌then◌else◌, leb, length, ltb, neg, negsuc, none, not, pos,
  some, suc, take, zero, ℕ, ℤ, ◌%◌, ◌&&◌, ◌*◌, ◌++◌, ◌+◌, ◌-◌, ◌/◌, ◌==◌, ◌||◌, ◌∷◌,
}

-- `utf8proc_utf8class`: the length that a first byte announces, 0 for none.
unfoldable pub utf8class : ℕ → ℕ
utf8class c =
    if ltb c 0x80
    then 1
    else if ltb c 0xc0
    then 0
    else if ltb c 0xe0
    then 2
    else if ltb c 0xf0
    then 3
    else if ltb c 0xf8
    then 4
    else 0

-- `(c & 0xC0) == 0x80`
unfoldable pub is_cont : ℕ → Bool
is_cont c = c / 64 % 4 == 2

-- `encode_unknown`
abbrev pub replacement : Bytes
replacement = 239 ∷ 191 ∷ 189 ∷ []

-- The loop of `utf8proc_charlen`: byte `i` and `n - 1` more are to be continuation bytes.
unfoldable pub charlen_loop : Bytes → ℕ → ℕ → ℕ → ℤ
charlen_loop str length zero i = pos length
charlen_loop str length (suc n) i =
    let rest = charlen_loop str length n (i + 1) in if not (is_cont (at str i)) then neg i else rest

unfoldable pub charlen : Bytes → ℤ
unfolding utf8class charlen_loop is_cont
charlen str =
    let str_len = length str in
    let len = utf8class (at str 0) in
    if str_len == 0
    then pos 0
    else if len == 0
    then negsuc 0
    else if ltb str_len len
    then neg str_len
    else charlen_loop str len (len - 1) 1

-- `utf8proc_valid`, the switch on the length announced.
unfoldable pub valid_switch : Bytes → ℕ → ℤ
unfolding is_cont
valid_switch str len =
    if len == 2
    then if not (is_cont (at str 1))
      then negsuc 0
      else if ltb (at str 0) 0xc2
      then neg len
      else pos len
    else if len == 3
    then if not (is_cont (at str 1))
      then negsuc 0
      else if not (is_cont (at str 2))
      then negsuc 1
      else if at str 0 == 0xe0
      then if ltb (at str 1) 0xa0 then neg len else pos len
      else if at str 0 == 0xed
      then if leb 0xa0 (at str 1) then neg len else pos len
      else pos len
    else if len == 4
    then if not (is_cont (at str 1))
      then negsuc 0
      else if not (is_cont (at str 2))
      then negsuc 1
      else if not (is_cont (at str 3))
      then negsuc 2
      else if at str 0 == 0xf0
      then if ltb (at str 1) 0x90 then neg len else pos len
      else if leb 0xf4 (at str 0)
      then if ltb 0xf4 (at str 0) || leb 0x90 (at str 1) then neg len else pos len
      else pos len
    else pos len

unfoldable pub valid : Bytes → ℤ
unfolding utf8class valid_switch
valid str =
    let len = utf8class (at str 0) in
    if len == 0
    then negsuc 0
    else if ltb (length str) len
    then neg (length str)
    else valid_switch str len

-- The value that `cmark_utf8proc_iterate` assembles from `len` bytes, `none` for -1.
unfoldable pub assemble : Bytes → ℕ → Option ℕ
assemble str len =
    if len == 1
    then some (at str 0)
    else if len == 2
    then (let uc = at str 0 % 32 * 64 + at str 1 % 64 in if ltb uc 0x80 then none else some uc)
    else if len == 3
    then (let uc = at str 0 % 16 * 4096 + at str 1 % 64 * 64 + at str 2 % 64 in
        if ltb uc 0x800 || (leb 0xd800 uc && ltb uc 0xe000) then none else some uc)
    else if len == 4
    then (let uc =
          at str 0 % 8 * 262144 + at str 1 % 64 * 4096 + at str 2 % 64 * 64 + at str 3 % 64 in
        if ltb uc 0x10000 || leb 0x110000 uc then none else some uc)
    else none

iterate_at : Bytes → ℤ → Option (ℕ × ℕ)
unfolding assemble
iterate_at str (negsuc n) = none
iterate_at str (pos n) = elim (assemble str n) [ none ↦ none | some uc ↦ some (n, uc) ]

-- `cmark_utf8proc_iterate`: the length and the code point; `none` is -1, with the code point -1.
unfoldable pub iterate : Bytes → Option (ℕ × ℕ)
unfolding charlen iterate_at
iterate str = iterate_at str (charlen str)

-- The bytes that `cmark_utf8proc_encode_char` appends.
unfoldable pub encode_char : ℕ → Bytes
encode_char uc =
    if ltb uc 0x80
    then uc ∷ []
    else if ltb uc 0x800
    then (0xc0 + uc / 64) ∷ (0x80 + uc % 64) ∷ []
    else if uc == 0xffff
    then 0xff ∷ []
    else if uc == 0xfffe
    then 0xfe ∷ []
    else if ltb uc 0x10000
    then (0xe0 + uc / 4096) ∷ (0x80 + uc / 64 % 64) ∷ (0x80 + uc % 64) ∷ []
    else if ltb uc 0x110000
    then (0xf0 + uc / 262144)
      ∷ (0x80 + uc / 4096 % 64)
      ∷ (0x80 + uc / 64 % 64)
      ∷ (0x80 + uc % 64)
      ∷ []
    else replacement

-- The inner loop of `cmark_utf8proc_check`, from offset `i`: where it stops, and how many bytes there
-- are not UTF-8 (0 at the end of the line).
unfoldable pub check_span : ℕ → Bytes → ℕ → ℕ × ℕ
check_span zero line i = (i, 0)
check_span (suc fuel) line i =
    let ascii = check_span fuel line (i + 1) in
    let multi : ℕ × ℕ = elim (valid (drop i line)) [
      | pos n ↦ check_span fuel line (i + n)
      | negsuc n ↦ (i, suc n)
    ] in
    if leb (length line) i
    then (i, 0)
    else if ltb (at line i) 0x80 && not (at line i == 0)
    then ascii
    else if leb 0x80 (at line i)
    then multi
    else (i, 1)

-- The outer loop: the text that passes goes to `ob`, what does not is replaced.
unfoldable pub check_loop : ℕ → Bytes → ℕ → Bytes → Bytes
check_loop zero line org ob = ob
check_loop (suc fuel) line org ob =
    let (i, charlen) = check_span (length line) line org in
    let ob' = if ltb org i then ob ++ take (i - org) (drop org line) else ob in
    let rest = check_loop fuel line (i + charlen) (ob' ++ replacement) in
    if leb (length line) org then ob else if leb (length line) i then ob' else rest

-- `cmark_utf8proc_check` on an empty buffer.
unfoldable pub check : Bytes → Bytes
unfolding check_span check_loop
check line = check_loop (length line) line 0 []
