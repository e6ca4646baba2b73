-- ===== src/Block/Marker.antt =====
-- List markers: `parse_list_marker` and `lists_match`.
pub mod Bounds
pub mod Interrupts
use swift_cmark.Base.{
  Bool, Bytes, Option, at, false, if◌then◌else◌, leb, length, none, not, some, suc, true, zero, ℕ,
  ◌&&◌, ◌*◌, ◌+◌, ◌-◌, ◌==◌, ◌||◌,
}
use swift_cmark.Ctype.{isspace, isdigit}
use swift_cmark.Block.Line.{is_space_or_tab, is_line_end_char}

pub data ListType : Type 0 where
  no_list bullet_list ordered_list : ListType

pub data DelimType : Type 0 where
  no_delim period_delim paren_delim : DelimType

-- `cmark_list`, as far as the marker sets it.
pub record ListData : Type 0 where
  pub list_type : ListType
  pub marker_offset : ℕ
  pub start : ℕ
  pub delimiter : DelimType
  pub bullet_char : ℕ
  pub tight : Bool

-- The `do` loop over digits, with `n` rounds left at `i`: the number and the place behind it.
unfoldable pub start_loop : ℕ → Bytes → ℕ → ℕ → ℕ × ℕ
start_loop zero input i start = (start, i)
start_loop (suc n) input i start =
    let start' = 10 * start + (at input i - b'0') in
    let rest = start_loop n input (i + 1) start' in
    if leb 1 n && isdigit (at input (i + 1)) then rest else (start', i + 1)

-- The loop over spaces and tabs: the place behind them.
unfoldable pub skip_blanks : ℕ → Bytes → ℕ → ℕ
skip_blanks zero input i = i
skip_blanks (suc fuel) input i =
    let rest = skip_blanks fuel input (i + 1) in if is_space_or_tab (at input i) then rest else i

abbrev pub bullet_data : ℕ → ListData
bullet_data c = record {
  list_type = bullet_list;
  marker_offset = 0;
  start = 0;
  delimiter = no_delim;
  bullet_char = c;
  tight = false;
}

abbrev pub ordered_data : ℕ → ℕ → ListData
ordered_data start c = record {
  list_type = ordered_list;
  marker_offset = 0;
  start = start;
  delimiter = if c == b'.' then period_delim else paren_delim;
  bullet_char = 0;
  tight = false;
}

-- The part behind the digits, which end at `stop`.
unfoldable pub ordered_end : Bytes → ℕ → ℕ → Bool → ℕ → Option (ListData × ℕ)
ordered_end input startpos stop interrupts start =
    let c = at input stop in
    let i = skip_blanks (length input) input (stop + 1) in
    if interrupts && not (start == 1)
    then none
    else if not (c == b'.' || c == b')')
    then none
    else if not (isspace (at input (stop + 1)))
    then none
    else if interrupts && is_line_end_char (at input i)
    then none
    else some (ordered_data start c, stop + 1 - startpos)

-- `parse_list_marker`: the marker's data and length; `none` is 0.
unfoldable pub parse_list_marker : Bytes → ℕ → Bool → Option (ListData × ℕ)
parse_list_marker input startpos interrupts =
    let c = at input startpos in
    let i = skip_blanks (length input) input (startpos + 1) in
    let (start, end) = start_loop 9 input startpos 0 in
    if c == b'*' || c == b'-' || c == b'+'
    then if not (isspace (at input (startpos + 1)))
      then none
      else if interrupts && at input i == b'\n'
      then none
      else some (bullet_data c, 1)
    else if isdigit c
    then ordered_end input startpos end interrupts start
    else none

unfoldable pub same_type : ListType → ListType → Bool
same_type no_list no_list = true
same_type bullet_list bullet_list = true
same_type ordered_list ordered_list = true
same_type _ _ = false

unfoldable pub same_delim : DelimType → DelimType → Bool
same_delim no_delim no_delim = true
same_delim period_delim period_delim = true
same_delim paren_delim paren_delim = true
same_delim _ _ = false

-- `lists_match`
unfoldable pub lists_match : ListData → ListData → Bool
unfolding same_type same_delim
lists_match a b =
    same_type a.list_type b.list_type
    && same_delim a.delimiter b.delimiter
    && a.bullet_char == b.bullet_char
