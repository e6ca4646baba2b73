-- ===== src/Block/Feed.antt =====
-- `S_parser_feed`: cutting the input into lines, whatever the chunks that it comes in.
pub mod Lines
pub mod Chunks
mod Tests
use swift_cmark.Base.{
  Bool, Bytes, List, [], drop, false, if◌then◌else◌, length, ltb, not, suc, take, true, zero, ℕ,
  ◌&&◌, ◌++◌, ◌==◌, ◌||◌, ◌∷◌,
}
use swift_cmark.Houdini.{span_length}
use swift_cmark.Utf8.{replacement}
use swift_cmark.Block.Line.{is_line_end_char}

-- The fields of `cmark_parser` that it keeps between calls, less `total_size`.
pub record Pending : Type 0 where
  pub linebuf : Bytes
  pub last_buffer_ended_with_cr : Bool

-- A call of `S_process_line`: the line, and whether it gets a line end if it has none.
abbrev pub Call : Type 0
Call = Bytes × Bool

-- The calls that were made, and what is kept.
abbrev pub Fed : Type 0
Fed = List Call × Pending

abbrev pub add_call : Call → Fed → Fed
add_call c r = (c ∷ r.0, r.1)

-- Where the search for `eol` goes on.
unfoldable pub is_inside : ℕ → Bool
is_inside c = not (is_line_end_char c || c == 0)

-- The line that is processed at its end.
abbrev pub whole_line : Bytes → Bytes → Bytes
whole_line linebuf chunk = if ltb 0 (length linebuf) then linebuf ++ chunk else chunk

-- What is left behind the line end `c`, and whether the buffer ended with a carriage return.
unfoldable pub skip_line_end : ℕ → Bytes → Bytes × Bool
skip_line_end c [] = ([], c == b'\r')
skip_line_end c (d ∷ s) = (if c == b'\r' && d == b'\n' then s else d ∷ s, false)

abbrev pub pending : Bytes → Bool → Fed
pending linebuf ended = ([], record { linebuf = linebuf; last_buffer_ended_with_cr = ended })

-- One round of the `while` loop, with `chunk` before the end of a line, a NUL or the end of the buffer at
-- `stop`; `again buffer linebuf` is the rounds after it, `keep` is `preserveWhitespace`.
unfoldable pub feed_round : (Bytes → Bytes → Fed) → Bool → Bool → Bytes → Bytes → Bytes → Fed
unfolding skip_line_end
feed_round again keep eof linebuf chunk [] =
    if eof
    then (
      (whole_line linebuf chunk, not keep || not eof) ∷ [],
      record { linebuf = []; last_buffer_ended_with_cr = false },
    )
    else pending (linebuf ++ chunk) false
feed_round again keep eof linebuf chunk (c ∷ rest) =
    let (rest', ended) = skip_line_end c rest in
    if c == 0
    then again rest ((linebuf ++ chunk) ++ replacement)
    else add_call (whole_line linebuf chunk, true)
        (if ended then pending [] true else again rest' [])

-- The `while` loop. Each round takes a byte at least, so the length is fuel enough.
unfoldable pub feed_loop : ℕ → Bool → Bool → Bytes → Bytes → Fed
unfolding is_inside feed_round
feed_loop zero keep eof buffer linebuf = pending linebuf false
feed_loop (suc fuel) keep eof [] linebuf = pending linebuf false
feed_loop (suc fuel) keep eof (x ∷ xs) linebuf =
    let n = span_length is_inside (x ∷ xs) in
    feed_round (feed_loop fuel keep eof) keep eof linebuf (take n (x ∷ xs)) (drop n (x ∷ xs))

-- `*buffer` at the start; past an empty chunk the source reads what lies behind it.
unfoldable pub skip_newline : Bool → Bytes → Bytes
skip_newline ended [] = []
skip_newline ended (c ∷ s) = if ended && c == b'\n' then s else c ∷ s

unfoldable pub feed : Bool → Bool → Pending → Bytes → Fed
unfolding feed_loop skip_newline
feed keep eof p buffer =
    let rest = skip_newline p.last_buffer_ended_with_cr buffer in
    feed_loop (length rest) keep eof rest p.linebuf
