-- ===== src/Block/Rule.antt =====
-- Thematic breaks: `S_scan_thematic_break`.
pub mod Scan
use swift_cmark.Base.{
  Bool, Bytes, [], at, drop, if◌then◌else◌, inl, inr, leb, not, ℕ, ◌&&◌, ◌+◌, ◌-◌, ◌==◌, ◌||◌, ◌∷◌,
  ◌⊎◌,
}
use swift_cmark.Block.Line.{is_space_or_tab, is_line_end_char}

-- The loop, with `count` marks `c` seen and the rest of the line at `i`: the marks in all, the byte that
-- it stopped at, and the place of that.
unfoldable pub rule_loop : ℕ → Bytes → ℕ → ℕ → ℕ × ℕ × ℕ
unfolding is_space_or_tab
rule_loop c [] count i = (count, 0, i)
rule_loop c (d ∷ s) count i =
    let rest = rule_loop c s (if d == c then count + 1 else count) (i + 1) in
    if d == 0 then (count, 0, i) else if d == c || is_space_or_tab d then rest else (count, d, i)

unfoldable pub is_mark : ℕ → Bool
is_mark c = c == b'*' || c == b'_' || c == b'-'

-- The length of the match, or the value that `thematic_break_kill_pos` gets.
unfoldable pub scan_thematic_break : Bytes → ℕ → ℕ ⊎ ℕ
unfolding rule_loop is_line_end_char is_mark
scan_thematic_break input offset =
    let c = at input offset in
    let (count, nextc, i) = rule_loop c (drop (offset + 1) input) 1 (offset + 1) in
    if not (is_mark c)
    then inr offset
    else if leb 3 count && is_line_end_char nextc
    then inl (i - offset + 1)
    else inr i
