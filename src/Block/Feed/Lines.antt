-- ===== src/Block/Feed/Lines.antt =====
-- Feeding against a machine that takes one byte after another.
use swift_cmark.Base.{
  Bool, Bool-cases, Bytes, List-cases, [], ap, append-nil, append_assoc, arith, drop, false,
  if◌then◌else◌, inl, inr, length, length-drop, not, refl, suc, take, true, zero, ℕ, ◌&&◌, ◌++◌,
  ◌<◌, ◌==◌, ◌||◌, ◌∙◌, ◌∷◌, ◌≡◌, ◌≢◌, ◌≤◌,
}
use swift_cmark.Houdini.{span_length}
use swift_cmark.Utf8.{replacement}
use swift_cmark.Block.Line.{is_line_end_char}
use swift_cmark.Block.Feed.{
  Pending, Fed, Call, pending, add_call, is_inside, whole_line, skip_line_end, feed_loop,
}

-- A line end makes a call; the newline of a pair is passed over; NUL becomes U+FFFD.
unfoldable pub take_byte : Pending → ℕ → Fed
take_byte p c =
    if p.last_buffer_ended_with_cr && c == b'\n'
    then pending p.linebuf false
    else if is_line_end_char c
    then ((p.linebuf, true) ∷ [], record { linebuf = []; last_buffer_ended_with_cr = c == b'\r' })
    else if c == 0
    then pending (p.linebuf ++ replacement) false
    else pending (p.linebuf ++ c ∷ []) false

-- The calls of one part, and then those of the next.
abbrev pub then_take : Fed → (Pending → Fed) → Fed
then_take r f = (r.0 ++ (f r.1).0, (f r.1).1)

unfoldable pub take_bytes : Pending → Bytes → Fed
take_bytes p [] = ([], p)
take_bytes p (c ∷ s) = then_take (take_byte p c) (λ q. take_bytes q s)

abbrev pub fresh : Bytes → Pending
fresh linebuf = record { linebuf = linebuf; last_buffer_ended_with_cr = false }

whole_line_lem : (linebuf chunk : Bytes) → whole_line linebuf chunk ≡ linebuf ++ chunk
whole_line_lem [] chunk = refl
whole_line_lem (x ∷ xs) chunk = ground arith

take_byte_inside :
    (p : Pending) (c : ℕ) → is_inside c ≡ true → take_byte p c ≡ pending (p.linebuf ++ c ∷ []) false
unfolding take_byte is_inside is_line_end_char
take_byte_inside p c h = ground arith

take_bytes-span :
    (s linebuf : Bytes)
    → take_bytes (fresh linebuf) s
      ≡ take_bytes
          (fresh (linebuf ++ take (span_length is_inside s) s))
          (drop (span_length is_inside s) s)
unfolding take_bytes span_length
take_bytes-span [] linebuf = rw append-nil refl
take_bytes-span (c ∷ s) linebuf = elim (Bool-cases (is_inside c)) [
  | inl inside ↦
      rw (inside, take_byte_inside (fresh linebuf) c inside)
        (take_bytes-span s (linebuf ++ c ∷ [])
          ∙ ap (λ (t : Bytes). take_bytes (fresh t) (drop (span_length is_inside s) s))
              (append_assoc linebuf (c ∷ []) _))
  | inr stop ↦ rw (stop, append-nil) refl
]

-- What stops the search is a line end or a NUL.
span_stop :
    (s : Bytes) (c : ℕ) (rest : Bytes)
    → drop (span_length is_inside s) s ≡ c ∷ rest
    → is_inside c ≡ false
unfolding span_length
span_stop [] c rest e = cc
span_stop (d ∷ s) c rest e = ground (arith, span_stop s c rest)

span_shorter :
    (s : Bytes) (c : ℕ) (rest : Bytes)
    → drop (span_length is_inside s) s ≡ c ∷ rest
    → length rest < length s
span_shorter s c rest e = omega (arith, ap length e, length-drop (span_length is_inside s) s)

-- The line end behind a chunk, and the newline of a pair.
take_bytes-line_end :
    (c : ℕ) (rest linebuf : Bytes)
    → is_inside c ≡ false
    → c ≢ 0
    → take_bytes (fresh linebuf) (c ∷ rest)
      ≡ add_call
          (linebuf, true)
          (if (skip_line_end c rest).1
            then pending [] true
            else take_bytes (fresh []) (skip_line_end c rest).0)
unfolding take_bytes take_byte skip_line_end is_inside is_line_end_char
take_bytes-line_end c [] linebuf h nz = ground arith
take_bytes-line_end c (d ∷ rest) linebuf h nz = ground arith

take_bytes-nul :
    (c : ℕ) (rest linebuf : Bytes)
    → (c == 0) ≡ true
    → take_bytes (fresh linebuf) (c ∷ rest) ≡ take_bytes (fresh (linebuf ++ replacement)) rest
unfolding take_bytes take_byte is_line_end_char
take_bytes-nul c rest linebuf h = ground arith

-- Whether the last byte is inside a line, `b` if there is none.
unfoldable pub ends_inside : Bool → Bytes → Bool
ends_inside b [] = b
ends_inside b (c ∷ s) = ends_inside (is_inside c) s

-- At the end of the input a line that has no end is processed too.
abbrev pub closing : Bool → Bool → Bool → Fed → Fed
closing keep eof inside r =
    if eof && inside then (r.0 ++ (r.1.linebuf, not keep || not eof) ∷ [], fresh []) else r

ends_inside-all : (s : Bytes) → drop (span_length is_inside s) s ≡ [] → ends_inside true s ≡ true
unfolding ends_inside span_length
ends_inside-all [] e = refl
ends_inside-all (c ∷ s) e = elim (Bool-cases (is_inside c)) [
  | inl inside ↦ rw inside (ends_inside-all s (rw inside at e))
  | inr stop ↦ absurd (not_empty (rw stop at e))
]
  where
    not_empty : c ∷ s ≡ [] → ⊥
    not_empty h = cc

ends_inside-span :
    (s : Bytes) (b : Bool) (c : ℕ) (rest : Bytes)
    → drop (span_length is_inside s) s ≡ c ∷ rest
    → ends_inside b s ≡ ends_inside false rest
unfolding ends_inside span_length
ends_inside-span [] b c rest e = cc
ends_inside-span (d ∷ s) b c rest e = elim (Bool-cases (is_inside d)) [
  | inl inside ↦ ends_inside-span s (is_inside d) c rest (rw inside at e)
  | inr stop ↦ rw stop (ap (ends_inside false) (tails (rw stop at e)))
]
  where
    tails : d ∷ s ≡ c ∷ rest → s ≡ rest
    tails h = cc

ends_inside-skip :
    (c : ℕ) (rest : Bytes) → ends_inside false (skip_line_end c rest).0 ≡ ends_inside false rest
unfolding ends_inside skip_line_end is_inside is_line_end_char
ends_inside-skip c [] = refl
ends_inside-skip c (d ∷ s) = ground arith

length-skip : (c : ℕ) (rest : Bytes) → length (skip_line_end c rest).0 ≤ length rest
unfolding skip_line_end
length-skip c [] = omega arith
length-skip c (d ∷ s) = ground arith

flat :
    (keep eof : Bool) (linebuf : Bytes)
    → pending linebuf false
      ≡ closing keep eof (ends_inside false []) (take_bytes (fresh linebuf) [])
unfolding take_bytes ends_inside
flat keep true linebuf = refl
flat keep false linebuf = refl

closed :
    (keep eof : Bool) (x : ℕ) (xs linebuf chunk : Bytes)
    → drop (span_length is_inside (x ∷ xs)) (x ∷ xs) ≡ []
    → (if eof
        then ((whole_line linebuf chunk, not keep || not eof) ∷ [], fresh [])
        else pending (linebuf ++ chunk) false)
      ≡ closing keep eof (ends_inside false (x ∷ xs)) (take_bytes (fresh (linebuf ++ chunk)) [])
unfolding take_bytes ends_inside
closed keep true x xs linebuf chunk e =
    rw (whole_line_lem linebuf chunk, ends_inside-all (x ∷ xs) e) refl
closed keep false x xs linebuf chunk e = refl

closing-add_call :
    (keep eof inside : Bool) (c : Call) (r : Fed)
    → add_call c (closing keep eof inside r) ≡ closing keep eof inside (add_call c r)
closing-add_call keep eof inside c r = ground arith

-- Behind a last carriage return nothing is left.
ended_lem :
    (c : ℕ) (rest : Bytes) → (skip_line_end c rest).1 ≡ true → ends_inside false rest ≡ false
unfolding skip_line_end ends_inside
ended_lem c [] h = refl
ended_lem c (d ∷ s) h = cc

-- A line end, where the rest is fed as stated.
line_ended :
    (keep eof : Bool) (c : ℕ) (rest line : Bytes) (next : Fed)
    → is_inside c ≡ false
    → (c == 0) ≡ false
    → next
      ≡ closing keep eof
          (ends_inside false (skip_line_end c rest).0)
          (take_bytes (fresh []) (skip_line_end c rest).0)
    → add_call (line, true) (if (skip_line_end c rest).1 then pending [] true else next)
      ≡ closing keep eof (ends_inside false rest) (take_bytes (fresh line) (c ∷ rest))
line_ended keep eof c rest line next h nz n =
    rw
      (
        take_bytes-line_end c rest line h (ground arith),
        ← closing-add_call keep eof (ends_inside false rest) (line, true)
            (if (skip_line_end c rest).1
              then pending [] true
              else take_bytes (fresh []) (skip_line_end c rest).0),
      )
      (elim (Bool-cases (skip_line_end c rest).1) [
        | inl ended ↦ rw (ended, ended_lem c rest ended) (ground arith)
        | inr more ↦ rw (more, n, ends_inside-skip c rest) refl
      ])

pub feed_loop_lem :
    (fuel : ℕ) (keep eof : Bool) (buffer linebuf : Bytes)
    → length buffer ≤ fuel
    → feed_loop fuel keep eof buffer linebuf
      ≡ closing keep eof (ends_inside false buffer) (take_bytes (fresh linebuf) buffer)
unfolding feed_loop
feed_loop_lem zero keep eof [] linebuf h = flat keep eof linebuf
feed_loop_lem zero keep eof (x ∷ xs) linebuf h = absurd (omega arith)
feed_loop_lem (suc fuel) keep eof [] linebuf h = flat keep eof linebuf
feed_loop_lem (suc fuel) keep eof (x ∷ xs) linebuf h =
    rw (take_bytes-span (x ∷ xs) linebuf)
      (elim (List-cases (drop (span_length is_inside (x ∷ xs)) (x ∷ xs))) [
        | inl e ↦ rw e (closed keep eof x xs linebuf _ e)
        | inr (c, rest, e) ↦ elim (Bool-cases (c == 0)) [
          | inl nul ↦
              rw
                (
                  e,
                  nul,
                  ends_inside-span (x ∷ xs) false c rest e,
                  take_bytes-nul c rest (linebuf ++ take (span_length is_inside (x ∷ xs)) (x ∷ xs))
                      nul,
                )
                (feed_loop_lem fuel keep eof rest _ (omega (arith, span_shorter (x ∷ xs) c rest e)))
          | inr other ↦
              rw
                (
                  e,
                  other,
                  ends_inside-span (x ∷ xs) false c rest e,
                  whole_line_lem linebuf (take (span_length is_inside (x ∷ xs)) (x ∷ xs)),
                )
                (line_ended keep eof c rest _ _ (span_stop (x ∷ xs) c rest e) other (
                  feed_loop_lem fuel keep eof (skip_line_end c rest).0 []
                    (omega (arith, span_shorter (x ∷ xs) c rest e, length-skip c rest))))
        ]
      ])
