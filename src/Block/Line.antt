-- ===== src/Block/Line.antt =====
-- The position in a line: bytes, virtual columns and tabs. `peek_at` past the end reads the NUL behind
-- the line.
pub mod Columns
pub mod Advance
pub mod Nonspace
use swift_cmark.Base.{
  Bool, Bytes, at, false, if◌then◌else◌, leb, length, ltb, not, suc, zero, ℕ, ◌%◌, ◌&&◌, ◌+◌, ◌-◌,
  ◌==◌, ◌||◌,
}

abbrev pub tab_stop : ℕ
tab_stop = 4

-- The fields of `cmark_parser` that these functions read and write.
pub record Parser : Type 0 where
  pub offset : ℕ
  pub column : ℕ
  pub first_nonspace : ℕ
  pub first_nonspace_column : ℕ
  pub indent : ℕ
  pub blank : Bool
  pub partially_consumed_tab : Bool

unfoldable pub is_line_end_char : ℕ → Bool
is_line_end_char c = c == b'\n' || c == b'\r'

unfoldable pub is_space_or_tab : ℕ → Bool
is_space_or_tab c = c == b' ' || c == b'\t'

-- One round of `S_advance_offset` on byte `c`: the parser, and the count left.
unfoldable pub advance_step : Parser → ℕ → ℕ → Bool → Parser × ℕ
advance_step p c count columns =
    let chars_to_tab = tab_stop - p.column % tab_stop in
    let partial = ltb count chars_to_tab in
    let chars_to_advance = if ltb count chars_to_tab then count else chars_to_tab in
    if c == b'\t'
    then if columns
      then (
        record p {
          column = p.column + chars_to_advance;
          offset = p.offset + (if partial then 0 else 1);
          partially_consumed_tab = partial;
        },
        count - chars_to_advance,
      )
      else (
        record p {
          column = p.column + chars_to_tab;
          offset = p.offset + 1;
          partially_consumed_tab = false;
        },
        count - 1,
      )
    else (
      record p { column = p.column + 1; offset = p.offset + 1; partially_consumed_tab = false },
      count - 1,
    )

-- `S_advance_offset`. Each round takes one from the count, so `count` is fuel enough.
unfoldable pub advance_loop : ℕ → Parser → Bytes → ℕ → Bool → Parser
unfolding advance_step
advance_loop zero p input count columns = p
advance_loop (suc fuel) p input count columns =
    let (p', count') = advance_step p (at input p.offset) count columns in
    let rest = advance_loop fuel p' input count' columns in
    if ltb 0 count && not (at input p.offset == 0) then rest else p

unfoldable pub advance_offset : Parser → Bytes → ℕ → Bool → Parser
unfolding advance_loop
advance_offset p input count columns = advance_loop count p input count columns

-- The loop of `S_find_first_nonspace`, with `fuel` bytes at most: the place and its column.
unfoldable pub nonspace_loop : ℕ → Bytes → ℕ → ℕ → ℕ → ℕ × ℕ
nonspace_loop zero input i column chars_to_tab = (i, column)
nonspace_loop (suc fuel) input i column chars_to_tab =
    let space =
      nonspace_loop fuel input (i + 1) (column + 1)
        (if chars_to_tab - 1 == 0 then tab_stop else chars_to_tab - 1) in
    let tab = nonspace_loop fuel input (i + 1) (column + chars_to_tab) tab_stop in
    if at input i == b' ' then space else if at input i == b'\t' then tab else (i, column)

unfoldable pub find_first_nonspace : Parser → Bytes → Parser
unfolding nonspace_loop is_line_end_char
find_first_nonspace p input =
    let (i, col) =
      if leb p.first_nonspace p.offset
      then nonspace_loop (length input) input p.offset p.column (tab_stop - p.column % tab_stop)
      else (p.first_nonspace, p.first_nonspace_column) in
    record p {
      first_nonspace = i;
      first_nonspace_column = col;
      indent = col - p.column;
      blank = is_line_end_char (at input i);
    }
