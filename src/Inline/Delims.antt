-- ===== src/Inline/Delims.antt =====
-- Runs of delimiters: how many there are, and whether they can open and close.
pub mod Flanking
use swift_cmark.Base.{
  Bool, Bytes, at, drop, if◌then◌else◌, length, ltb, none, not, some, suc, take, zero, ℕ, ◌&&◌, ◌+◌,
  ◌-◌, ◌/◌, ◌==◌, ◌||◌,
}
use swift_cmark.Houdini.{span_length}
use swift_cmark.Utf8.{iterate}
use swift_cmark.Utf8.Classes.{is_space, is_punctuation}

-- The characters that the extensions of the parser want skipped, `parser->skip_chars`.
module _ (skip_chars : ℕ → Bool) where
  -- The walk back to the beginning of a UTF-8 sequence.
  unfoldable pub walk_back : Bytes → ℕ → ℕ
  walk_back input zero = zero
  walk_back input (suc p) =
      let rest = walk_back input p in
      if at input (suc p) / 64 == 2 || skip_chars (at input (suc p)) then rest else suc p

  -- The character at the beginning of some bytes; a newline where there is none, or one to skip.
  unfoldable pub char_or_newline : Bytes → ℕ
  unfolding iterate
  char_or_newline s = elim (iterate s) [
    | none ↦ 10
    | some (len, c) ↦ if ltb c 256 && skip_chars c then 10 else c
  ]

  unfoldable pub before_char : Bytes → ℕ → ℕ
  unfolding walk_back char_or_newline
  before_char input start =
      if start == 0
      then 10
      else (let p = walk_back input (start - 1) in
          char_or_newline (take (start - p) (drop p input)))

  unfoldable pub after_char : Bytes → ℕ → ℕ
  unfolding char_or_newline
  after_char input start =
      if start == length input
      then 10
      else char_or_newline (drop (start + span_length skip_chars (drop start input)) input)

-- `left_flanking` and `right_flanking` of at least one delimiter.
unfoldable pub flanking : ℕ → ℕ → Bool × Bool
unfolding is_space is_punctuation
flanking before after = (
  not (is_space after) && (not (is_punctuation after) || is_space before || is_punctuation before),
  not (is_space before) && (not (is_punctuation before) || is_space after || is_punctuation after),
)

-- `*can_open` and `*can_close`
unfoldable pub can_open_close : ℕ → ℕ → ℕ → Bool × Bool
unfolding flanking is_punctuation
can_open_close c before after =
    let (left, right) = flanking before after in
    if c == b'_'
    then (left && (not right || is_punctuation before), right && (not left || is_punctuation after))
    else if c == 39 || c == b'"'
    then (left && not right && not (before == b']') && not (before == b')'), right)
    else (left, right)

-- `scan_delims` at a delimiter: the number of them, the place behind them, and what they can do.
unfoldable pub scan_delims : (ℕ → Bool) → Bytes → ℕ → ℕ → ℕ × ℕ × Bool × Bool
scan_delims skip_chars input start c =
    let numdelims =
      if c == 39 || c == b'"' then 1 else span_length (λ d. d == c) (drop start input) in
    let (can_open, can_close) =
      can_open_close c (before_char skip_chars input start)
        (after_char skip_chars input (start + numdelims)) in
    (numdelims, start + numdelims, ltb 0 numdelims && can_open, ltb 0 numdelims && can_close)
