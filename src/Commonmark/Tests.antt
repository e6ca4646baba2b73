-- ===== src/Commonmark/Tests.antt =====
-- Code spans and escapes.
use swift_cmark.Utf8.{iterate}
use swift_cmark.Base.{
  Bytes, Option, [], arith, false, length, refl, some, true, ◌++◌, ◌<◌, ◌>>=◌, ◌∷◌, ◌≡◌,
}
use swift_cmark.Commonmark.Code.{printed}
use swift_cmark.Inline.Backticks.Closing.{NulFree}
use swift_cmark.Houdini.{span_length}
use swift_cmark.Ctype.{isspace}
use swift_cmark.Render.{out, url, Renderer}
use swift_cmark.Render.Plain.{ascii-IsText}
use swift_cmark.Commonmark.{
  first_unused, is_url, used_loop, lit_loop, needs_escaping, outc, render_code,
  shortest_unused_backtick_sequence,
}
use swift_cmark.Commonmark.Ticks.{
  IsShortestUnused, shortest_unused_backtick_sequence-IsShortestUnused,
}
use swift_cmark.Commonmark.Code.RoundTrip.{handle_backticks-render_code}
use swift_cmark.Inline.Backticks.{
  code_loop, normalize_code, closing_loop, scan_to_closing_backticks, Subject, Span,
  handle_backticks,
}

abbrev ready : Renderer
ready = record {
  buffer = b'a' ∷ [];
  prefix = [];
  column = 1;
  width = 0;
  need_cr = 0;
  last_breakable = 0;
  begin_line = false;
  begin_content = false;
  no_linebreaks = false;
  in_tight_list_item = false;
}

abbrev bytes_of : Option Renderer → Option Bytes
bytes_of o = o >>= λ r. some r.buffer

-- A tab in a URL is written as a percent sign, a space and a 9.
tab_in_url : (outc ready url 9 0).buffer ≡ b'a' ∷ b'%' ∷ b' ' ∷ b'9' ∷ []
unfolding outc needs_escaping isspace is_url
tab_in_url = refl

-- A code span of one space is printed with three, and read with three.
space_code :
    bytes_of (render_code (λ _. false) true ready (b' ' ∷ []))
    ≡ some (b'a' ∷ b'`' ∷ b' ' ∷ b' ' ∷ b' ' ∷ b'`' ∷ [])
unfolding render_code lit_loop shortest_unused_backtick_sequence used_loop first_unused out iterate
space_code = refl

-- A code span of U+FFFE is printed as the byte FE.
noncharacter_code :
    bytes_of (render_code (λ _. false) true ready (0xef ∷ 0xbf ∷ 0xbe ∷ []))
    ≡ some (b'a' ∷ b'`' ∷ 0xfe ∷ b'`' ∷ [])
unfolding render_code lit_loop shortest_unused_backtick_sequence used_loop first_unused out iterate
noncharacter_code = refl

space_code_back :
    (handle_backticks (record {
      input = b'a' ∷ b'`' ∷ b' ' ∷ b' ' ∷ b' ' ∷ b'`' ∷ [];
      pos = 1;
      backticks = [];
      scanned_for_backticks = false;
    })
      >>= λ r. some r.0)
    ≡ some (Span.code (b' ' ∷ b' ' ∷ b' ' ∷ []) 1)
unfolding handle_backticks scan_to_closing_backticks closing_loop span_length normalize_code
    code_loop
space_code_back = refl

-- a``b
abbrev two_ticks : Bytes
two_ticks = b'a' ∷ b'`' ∷ b'`' ∷ b'b' ∷ []

shortest_example : IsShortestUnused two_ticks (shortest_unused_backtick_sequence two_ticks)
shortest_example = shortest_unused_backtick_sequence-IsShortestUnused two_ticks

two_ticks-small : shortest_unused_backtick_sequence two_ticks < 32
unfolding shortest_unused_backtick_sequence used_loop first_unused
two_ticks-small = omega arith

two_ticks-NulFree : NulFree (ready.buffer ++ (printed two_ticks ++ b'.' ∷ []))
unfolding shortest_unused_backtick_sequence used_loop first_unused
two_ticks-NulFree i h = ground arith

handle_backticks-render_code_example :
    (t : Renderer) × (render_code (λ _. false) true ready two_ticks ≡ some t)
    × (s : Subject) × (handle_backticks (record {
      input = t.buffer ++ b'.' ∷ [];
      pos = 1;
      backticks = [];
      scanned_for_backticks = false;
    })
        ≡ some (Span.code two_ticks (shortest_unused_backtick_sequence two_ticks), s))
    × (s.pos ≡ length t.buffer)
handle_backticks-render_code_example =
    handle_backticks-render_code true ready two_ticks (b'.' ∷ []) [] (refl, refl, refl)
      (ascii-IsText two_ticks (omega arith)) refl (omega arith) two_ticks-small two_ticks-NulFree
      (omega arith)
