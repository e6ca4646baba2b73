-- ===== src/Inline/Backticks.antt =====
-- Code spans: the search for the closing backticks, with what it remembers of the runs it has passed.
pub mod Runs
pub mod Closing
pub mod Search
pub mod Normal
mod Tests
use swift_cmark.Base.{
  Bool, Bytes, List, Option, [], at, drop, false, if◌then◌else◌, leb, length, ltb, none, not, pos,
  set, some, suc, take, true, zero, ℕ, ◌&&◌, ◌+◌, ◌-◌, ◌==◌, ◌>>=◌, ◌||◌, ◌∷◌,
}
use swift_cmark.Houdini.{span_length}

-- The fields of `subject` that the search reads and writes; `backticks` has 81 places.
pub record Subject : Type 0 where
  pub input : Bytes
  pub pos : ℕ
  pub backticks : List ℕ
  pub scanned_for_backticks : Bool

abbrev pub maxbackticks : ℕ
maxbackticks = 80

abbrev pub isbacktick : ℕ → Bool
isbacktick c = c == b'`'

-- What the search reads over; it stops at a NUL, which no input holds.
abbrev pub is_other : ℕ → Bool
is_other c = not (c == 0) && not (c == b'`')

-- `subj->backticks[numticks] = …` under its guard.
abbrev pub store_ticks : ℕ → ℕ → List ℕ → List ℕ
store_ticks k p ticks = if leb k maxbackticks then set ticks k p else ticks

-- The outer loop from `pos`; `none` is a loop without end.
unfoldable pub closing_loop : ℕ → ℕ → Subject → Option (ℕ × Subject)
closing_loop zero n s = none
closing_loop (suc fuel) n s =
    let p = s.pos + span_length is_other (drop s.pos s.input) in
    let k = span_length isbacktick (drop p s.input) in
    let ticks = store_ticks k p s.backticks in
    let next = closing_loop fuel n (record s { pos = p + k; backticks = ticks }) in
    if leb (length s.input) p
    then some (0, record s { pos = p; scanned_for_backticks = true })
    else if k == n
    then some (p + k, record s { pos = p + k; backticks = ticks })
    else next

-- `scan_to_closing_backticks`. Each round takes a byte at least.
unfoldable pub scan_to_closing_backticks : Subject → ℕ → Option (ℕ × Subject)
unfolding closing_loop
scan_to_closing_backticks s n =
    if ltb maxbackticks n
    then some (0, s)
    else if s.scanned_for_backticks && leb (at s.backticks n) s.pos
    then some (0, s)
    else closing_loop (suc (length s.input)) n s

-- What `S_normalize_code` writes, and whether it saw a byte other than a space. The bytes still to be
-- read have not been written over, except that the byte just read is tested after the write: with no
-- byte left out so far, `same`, a newline counts as the space that it has become.
unfoldable pub code_loop : Bool → Bytes → Bytes × Bool
code_loop same [] = ([], false)
code_loop same (c ∷ s) =
    let skip = c == b'\r' && at s 0 == b'\n' in
    let rest = code_loop (same && not skip) s in
    let written = if c == b'\r' || c == b'\n' then b' ' else c in
    (
      (if skip then rest.0 else written ∷ rest.0),
      not ((if same && not skip then written else c) == b' ') || rest.1,
    )

-- `S_normalize_code` on a buffer that holds `s`.
unfoldable pub normalize_code : Bytes → Bytes
unfolding code_loop
normalize_code s =
    let (t, nonspace) = code_loop true s in
    if nonspace && at t 0 == b' ' && at t (length t - 1) == b' '
    then take (length t - 2) (drop 1 t)
    else t

-- What is made of an opening run: text of that many backticks, or a code span with its text and the
-- length of its run.
pub data Span : Type 0 where
  ticks : ℕ → Span
  code : Bytes → ℕ → Span

-- `handle_backticks`, less the line and column numbers of the node.
unfoldable pub handle_backticks : Subject → Option (Span × Subject)
unfolding scan_to_closing_backticks normalize_code
handle_backticks s =
    let openticks = span_length isbacktick (drop s.pos s.input) in
    let startpos = s.pos + openticks in
    scan_to_closing_backticks (record s { pos = startpos }) openticks >>= λ (endpos, t). some (
      if endpos == 0 then (ticks openticks, record t { pos = startpos }) else (
        code (normalize_code (take (endpos - startpos - openticks) (drop startpos s.input)))
            openticks,
        t,
      ))
