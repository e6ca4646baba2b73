-- ===== src/Commonmark/Code/RoundTrip.antt =====
-- What is printed for a code span is read as that code span.
use swift_cmark.Base.{
  All, Bool, Bytes, List, ap, append_assoc, arith, at, false, length, length-append, refl, some,
  subst, sym, true, ℕ, ◌++◌, ◌+◌, ◌-◌, ◌<◌, ◌∙◌, ◌≡◌, ◌≢◌,
}
use swift_cmark.Render.{Renderer}
use swift_cmark.Inline.Backticks.{Subject, Span, handle_backticks}
use swift_cmark.Inline.Backticks.Closing.{NulFree}
use swift_cmark.Inline.Backticks.Normal.{has_nonspace}
use swift_cmark.Render.Plain.{IsText, IsReady}
use swift_cmark.Commonmark.Code.{printed, fence, padding, render_code-Puts}
use swift_cmark.Commonmark.Code.Padded.{padded, length-repeat}
use swift_cmark.Commonmark.Code.Read.{handle_backticks-padded}
use swift_cmark.Commonmark.Ticks.{shortest_unused_backtick_sequence-IsShortestUnused}
use swift_cmark.Commonmark.{render_code, shortest_unused_backtick_sequence, extra_spaces}

printed-padded :
    (code rest : Bytes)
    → printed code ++ rest ≡ fence code ++ (padded (extra_spaces code) code ++ (fence code ++ rest))
printed-padded code rest = simp append_assoc

length-around :
    (f p c : Bytes)
    → length (f ++ (p ++ (c ++ (p ++ f)))) ≡ length f + length (p ++ (c ++ p)) + length f
length-around f p c = omega (
  arith,
  length-append f (p ++ (c ++ (p ++ f))),
  length-append p (c ++ (p ++ f)),
  length-append c (p ++ f),
  length-append p f,
  length-append p (c ++ p),
  length-append c p,
)

length-printed :
    (code : Bytes)
    → length (printed code)
      ≡ shortest_unused_backtick_sequence code
        + length (padded (extra_spaces code) code)
        + shortest_unused_backtick_sequence code
length-printed code = omega (
  arith,
  length-around (fence code) (padding code) code,
  length-repeat (shortest_unused_backtick_sequence code) b'`',
)

-- Rendering a code span in a line that has begun, without a width and with no extension escaping
-- characters, always succeeds, and a parser that has not searched the text to its end before reads
-- what was rendered as one code span with the same text, up to the end of what was rendered; the
-- text of the span is to be UTF-8 of one line with more than spaces in it, without carriage
-- returns and without U+FFFE and U+FFFF, whose shortest unused run of backticks is shorter than
-- 32, all is to be free of NUL, and no backtick is to follow.
pub handle_backticks-render_code :
    (breaks : Bool) (r : Renderer) (code rest : Bytes) (memory : List ℕ)
    → IsReady r
    → IsText code
    → has_nonspace code ≡ true
    → All (λ c. (c ≢ b'\r') × (c ≢ b'\n')) code
    → shortest_unused_backtick_sequence code < 32
    → NulFree (r.buffer ++ (printed code ++ rest))
    → at rest 0 ≢ b'`'
    → (t : Renderer) × (render_code (λ _. false) breaks r code ≡ some t)
      × (s : Subject) × (handle_backticks (record {
        input = t.buffer ++ rest;
        pos = length r.buffer;
        backticks = memory;
        scanned_for_backticks = false;
      })
          ≡ some (Span.code code (shortest_unused_backtick_sequence code), s))
      × (s.pos ≡ length t.buffer)
handle_backticks-render_code breaks r code rest memory ready text some_text plain small free stops =
    let (t, is_result, _, is_put) = render_code-Puts breaks r code text ready in
    let (positive, _, none_in, _) = shortest_unused_backtick_sequence-IsShortestUnused code in
    let input : t.buffer ++ rest ≡ r.buffer ++ (printed code ++ rest) =
      ap (λ x. x ++ rest) is_put ∙ append_assoc r.buffer (printed code) rest in
    let (s, is_read, at_end) =
      handle_backticks-padded
        (record {
          input = t.buffer ++ rest;
          pos = length r.buffer;
          backticks = memory;
          scanned_for_backticks = false;
        })
        r.buffer (extra_spaces code) code rest (shortest_unused_backtick_sequence code)
        (input ∙ ap (λ x. r.buffer ++ x) (printed-padded code rest)) refl refl
        (subst NulFree (sym input) free) positive (omega (arith, small)) some_text plain
        (edges_of code) (none_in small) stops in
    (
      t,
      is_result,
      s,
      is_read,
      at_end
          ∙ omega
              (arith, length-printed code, ap length is_put, length-append r.buffer (printed code)),
    )
  where
    edges_of :
        (c : Bytes)
        → extra_spaces c ≡ false
        → (at c 0 ≢ b' ') × (at c 0 ≢ b'`') × (at c (length c - 1) ≢ b'`')
    edges_of c e = (ground (arith, e), ground (arith, e), ground (arith, e))
