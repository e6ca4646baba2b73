-- ===== src/Block/Tests.antt =====
-- The theorems on lines and markers at concrete lines.
use swift_cmark.Base.{
  Bytes, [], arith, at, false, inl, inr, refl, some, true, ◌+◌, ◌<◌, ◌^◌, ◌↔◌, ◌∷◌, ◌≡◌, ◌≤◌,
}
use swift_cmark.Ctype.{isspace, isdigit}
use swift_cmark.Block.Line.{
  Parser, is_line_end_char, is_space_or_tab, advance_offset, find_first_nonspace,
}
use swift_cmark.Block.Line.Columns.{IsAligned, column_at, columns}
use swift_cmark.Block.Line.Advance.{Moved, advance_offset-IsAligned, advance_offset-Moved}
use swift_cmark.Block.Line.Nonspace.{FoundNonspace, find_first_nonspace-FoundNonspace}
use swift_cmark.Block.Rule.{scan_thematic_break, is_mark}
use swift_cmark.Block.Rule.Scan.{Run, scan_thematic_break_iff}
use swift_cmark.Block.Marker.{
  bullet_data, ordered_data, parse_list_marker, start_loop, skip_blanks, ordered_end,
}
use swift_cmark.Block.Marker.Bounds.{parse_list_marker_bounds}

-- Two blanks, a tab and a letter.
abbrev tabbed : Bytes
tabbed = b' ' ∷ b' ' ∷ b'\t' ∷ b'x' ∷ b'\n' ∷ []

abbrev at_start : Parser
at_start = record {
  offset = 0;
  column = 0;
  first_nonspace = 0;
  first_nonspace_column = 0;
  indent = 0;
  blank = false;
  partially_consumed_tab = false;
}

at_start-IsAligned : IsAligned tabbed at_start
unfolding column_at
at_start-IsAligned = inl (refl, refl)

advance_offset-IsAligned_example : IsAligned tabbed (advance_offset at_start tabbed 3 true)
advance_offset-IsAligned_example =
    advance_offset-IsAligned at_start tabbed 3 true at_start-IsAligned

advance_offset-Moved_example :
    Moved tabbed 0 3
      (advance_offset at_start tabbed 3 true).column
      (advance_offset at_start tabbed 3 true)
    × Moved tabbed 0 3
        (advance_offset at_start tabbed 3 false).offset
        (advance_offset at_start tabbed 3 false)
advance_offset-Moved_example = advance_offset-Moved at_start tabbed 3

-- One column into the tab.
abbrev in_tab : Parser
in_tab = record at_start { offset = 2; column = 3; partially_consumed_tab = true }

in_tab-IsAligned : IsAligned tabbed in_tab
unfolding column_at columns
in_tab-IsAligned = inr (refl, refl, omega arith, omega arith)

nonspace_example : FoundNonspace tabbed in_tab (find_first_nonspace in_tab tabbed)
nonspace_example = find_first_nonspace-FoundNonspace tabbed in_tab in_tab-IsAligned (omega arith)

-- `12) a`
abbrev ordered_line : Bytes
ordered_line = b'1' ∷ b'2' ∷ b')' ∷ b' ' ∷ b'a' ∷ []

parse_ordered : parse_list_marker ordered_line 0 false ≡ some (ordered_data 12 b')', 3)
unfolding parse_list_marker isdigit ordered_end start_loop isspace is_line_end_char skip_blanks
    is_space_or_tab
parse_ordered = refl

bounds_example :
    (1 ≤ 3)
    × (3 ≤ 10)
    × ((ordered_data 12 b')').start < 10 ^ 9)
    × (isspace (at ordered_line (0 + 3)) ≡ true)
bounds_example =
    parse_list_marker_bounds ordered_line 0 false (ordered_data 12 b')') 3 parse_ordered

-- `1. a`
abbrev first_line : Bytes
first_line = b'1' ∷ b'.' ∷ b' ' ∷ b'a' ∷ []

parse_first : parse_list_marker first_line 0 true ≡ some (ordered_data 1 b'.', 2)
unfolding parse_list_marker isdigit ordered_end start_loop isspace is_line_end_char skip_blanks
    is_space_or_tab
parse_first = refl

-- An item with no content interrupts a paragraph if its line ends with a carriage return.
empty_item : parse_list_marker (b'-' ∷ b'\r' ∷ b'\n' ∷ []) 0 true ≡ some (bullet_data b'-', 1)
unfolding parse_list_marker isspace skip_blanks is_space_or_tab
empty_item = refl

-- ` - - -` with a carriage return is a thematic break; `** *x` is not, from the `x` on.
abbrev dashes : Bytes
dashes = b' ' ∷ b'-' ∷ b' ' ∷ b'-' ∷ b' ' ∷ b'-' ∷ b'\r' ∷ b'\n' ∷ []

rule_with_blanks : scan_thematic_break dashes 1 ≡ inl 6
unfolding scan_thematic_break is_space_or_tab
rule_with_blanks = refl

rule_example :
    (scan_thematic_break dashes 1 ≡ inl 6) ↔ ((is_mark (at dashes 1) ≡ true) × Run dashes 1 6)
rule_example = scan_thematic_break_iff dashes 1 6

no_rule : scan_thematic_break (b'*' ∷ b'*' ∷ b' ' ∷ b'*' ∷ b'x' ∷ b'\n' ∷ []) 0 ≡ inr 4
unfolding scan_thematic_break is_space_or_tab
no_rule = refl
