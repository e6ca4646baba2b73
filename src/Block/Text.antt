-- ===== src/Block/Text.antt =====
-- What src/blocks.c does to the text of headings and code blocks.
pub mod Closing
pub mod Trailing
mod Tests
use swift_cmark.Base.{
  Bool, Bytes, [], at, drop, if◌then◌else◌, length, ltb, not, suc, take, zero, ℕ, ◌&&◌, ◌+◌, ◌-◌,
  ◌==◌, ◌||◌,
}
use swift_cmark.Chunk.{chunk_rtrim}
use swift_cmark.Houdini.{span_length}
use swift_cmark.Block.Line.{is_space_or_tab, is_line_end_char}

-- The first loop of `chop_trailing_hashtags`: how many bytes stand before the `#`s at the end of the
-- first `n`, which is the loop's last index and 1.
unfoldable pub hash_loop : Bytes → ℕ → ℕ
hash_loop s zero = zero
hash_loop s (suc n) = let rest = hash_loop s n in if at s n == b'#' then rest else suc n

unfoldable pub chop_trailing_hashtags : Bytes → Bytes
chop_trailing_hashtags s =
    let ch = chunk_rtrim s in
    let n = hash_loop ch (length ch) in
    if not (n == length ch) && ltb 0 n && is_space_or_tab (at ch (n - 1))
    then chunk_rtrim (take (n - 1) ch)
    else ch

-- `c` is a space, a tab or a line end.
abbrev pub is_blank_char : ℕ → Bool
is_blank_char c = is_space_or_tab c || is_line_end_char c

-- The first loop of `remove_trailing_blank_lines`: its last index and 1, from the first `n` bytes.
unfoldable pub blank_loop : Bytes → ℕ → ℕ
blank_loop s zero = zero
blank_loop s (suc n) = let rest = blank_loop s n in if is_blank_char (at s n) then rest else suc n

abbrev pub is_in_line : ℕ → Bool
is_in_line c = not (is_line_end_char c)

-- The cut behind the loop, with `n` the loop's index and 1; without a line end there is none.
abbrev pub cut_lines : Bytes → ℕ → Bytes
cut_lines s zero = []
cut_lines s (suc i) = take (i + span_length is_in_line (drop i s)) s

-- `remove_trailing_blank_lines` on a buffer that holds `s`.
unfoldable pub remove_trailing_blank_lines : Bytes → Bytes
remove_trailing_blank_lines s = cut_lines s (blank_loop s (length s))
