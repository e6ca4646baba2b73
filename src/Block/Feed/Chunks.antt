-- ===== src/Block/Feed/Chunks.antt =====
-- The chunks that the input comes in do not matter.
use swift_cmark.Base.{
  Bool, Bool-cases, Bytes, [], append_assoc, arith, false, inl, inr, length, refl, ℕ, ◌&&◌, ◌++◌,
  ◌==◌, ◌∙◌, ◌∷◌, ◌≡◌, ◌≢◌,
}
use native.Mathlib.Nat.{le_refl}
use swift_cmark.Block.Line.{is_line_end_char}
use swift_cmark.Block.Feed.{Pending, Fed, is_inside, skip_newline, feed}
use swift_cmark.Block.Feed.Lines.{
  take_byte, take_bytes, then_take, fresh, closing, ends_inside, feed_loop_lem,
}

take_bytes-skip :
    (p : Pending) (c : ℕ) (s : Bytes)
    → take_bytes (fresh p.linebuf) (skip_newline p.last_buffer_ended_with_cr (c ∷ s))
      ≡ take_bytes p (c ∷ s)
unfolding take_bytes take_byte skip_newline
take_bytes-skip p c s = elim (Bool-cases (p.last_buffer_ended_with_cr && c == b'\n')) [
  | inl pair ↦ rw pair refl
  | inr other ↦ rw other refl
]

ends_inside-skip_newline :
    (b : Bool) (c : ℕ) (s : Bytes)
    → ends_inside false (skip_newline b (c ∷ s)) ≡ ends_inside false (c ∷ s)
unfolding ends_inside skip_newline is_inside is_line_end_char
ends_inside-skip_newline b c s = ground arith

-- Feeding a chunk that is not empty does what a machine does that takes one byte after another: a
-- line end makes a line, the line feed behind a carriage return is passed over, also in the next
-- chunk, a NUL becomes U+FFFD, and at the end of the input the line begun is processed if the last
-- byte was inside a line.
pub feed_lem :
    (keep eof : Bool) (p : Pending) (s : Bytes)
    → s ≢ []
    → feed keep eof p s ≡ closing keep eof (ends_inside false s) (take_bytes p s)
unfolding feed
feed_lem keep eof p [] ne = absurd (ne refl)
feed_lem keep eof p (c ∷ s) ne =
    let rest = skip_newline p.last_buffer_ended_with_cr (c ∷ s) in
    feed_loop_lem (length rest) keep eof rest p.linebuf (le_refl (length rest))
    ∙ rw (take_bytes-skip p c s, ends_inside-skip_newline p.last_buffer_ended_with_cr c s) refl

take_bytes-append :
    (p : Pending) (s t : Bytes)
    → take_bytes p (s ++ t) ≡ then_take (take_bytes p s) (λ q. take_bytes q t)
unfolding take_bytes
take_bytes-append p [] t = refl
take_bytes-append p (c ∷ s) t = rw (take_bytes-append (take_byte p c).1 s t, append_assoc) refl

ends_inside-append :
    (b : Bool) (s : Bytes) (c : ℕ) (t : Bytes)
    → ends_inside b (s ++ c ∷ t) ≡ ends_inside false (c ∷ t)
unfolding ends_inside
ends_inside-append b [] c t = refl
ends_inside-append b (d ∷ s) c t = ends_inside-append (is_inside d) s c t

closing-then_take :
    (keep eof inside : Bool) (r : Fed) (f : Pending → Fed)
    → closing keep eof inside (then_take r f) ≡ then_take r (λ q. closing keep eof inside (f q))
closing-then_take keep eof inside r f = elim (Bool-cases (eof && inside)) [
  | inl e ↦ rw (e, append_assoc) refl
  | inr e ↦ rw e refl
]

append_not_empty : (s t : Bytes) → s ≢ [] → s ++ t ≢ []
append_not_empty [] t ne = absurd (ne refl)
append_not_empty (c ∷ s) t ne = λ h. cc

-- Feeding two chunks that are not empty, one after the other, processes the same lines and keeps
-- the same state as feeding both at once, also where the cut is inside a line or between a
-- carriage return and a line feed.
pub feed-append :
    (keep eof : Bool) (p : Pending) (s t : Bytes)
    → s ≢ []
    → t ≢ []
    → feed keep eof p (s ++ t) ≡ then_take (feed keep false p s) (λ q. feed keep eof q t)
feed-append keep eof p s [] ns nt = absurd (nt refl)
feed-append keep eof p s (d ∷ t) ns nt =
    rw
      (
        feed_lem keep eof p (s ++ d ∷ t) (append_not_empty s (d ∷ t) ns),
        feed_lem keep false p s ns,
        feed_lem keep eof (take_bytes p s).1 (d ∷ t) nt,
        take_bytes-append,
        ends_inside-append false s d t,
      )
      (closing-then_take keep eof (ends_inside false (d ∷ t)) (take_bytes p s)
        (λ q. take_bytes q (d ∷ t)))
