-- ===== src/Commonmark/Code/Read.antt =====
-- A code span that is printed is read again.
use swift_cmark.Base.{
  All, Bool, Bytes, Option, [], ap, append_assoc, arith, at, drop, false, if_false, if◌then◌else◌,
  length, length-append, refl, some, subst, sym, take, true, ℕ, ◌++◌, ◌+◌, ◌-◌, ◌<◌, ◌==◌, ◌>>=◌,
  ◌∙◌, ◌∷◌, ◌≡◌, ◌≢◌, ◌≤◌,
}
use swift_cmark.Inline.Backticks.{
  normalize_code, ticks, Span, handle_backticks, Subject, code, isbacktick, maxbackticks,
}
use swift_cmark.Houdini.{span_length}
use swift_cmark.Commonmark.Code.{repeat}
use swift_cmark.Inline.Backticks.Runs.{IsRun}
use swift_cmark.Inline.Backticks.Closing.{Closes, NulFree}
use swift_cmark.Inline.Backticks.Normal.{has_nonspace}
use swift_cmark.Inline.Backticks.Search.{scan_to_closing_backticks-Searched}
use swift_cmark.Commonmark.Code.Padded.{
  padded, normalize_code-padded, span-repeat, length-repeat, take-append,
}
use swift_cmark.Commonmark.Code.Fence.{Closes-closing}

drop-before : (u v : Bytes) → drop (length u) (u ++ v) ≡ v
drop-before [] v = refl
drop-before (c ∷ u) v = drop-before u v

at_first :
    (b : Bool) (text v : Bytes)
    → has_nonspace text ≡ true
    → (b ≡ false → at text 0 ≢ b'`')
    → at (padded b text ++ v) 0 ≢ b'`'
at_first false [] v h f = absurd (ground (arith, h))
at_first false (c ∷ text) v h f = f refl
at_first true text v h f = omega arith

module _ (s : Subject) (before : Bytes) (b : Bool) (text rest : Bytes) (n : ℕ)
    (input : s.input ≡ before ++ (repeat n b'`' ++ (padded b text ++ (repeat n b'`' ++ rest))))
    (pos : s.pos ≡ length before) (fresh : s.scanned_for_backticks ≡ false) (free : NulFree s.input)
    (positive : 0 < n) (few : n ≤ maxbackticks) (some_text : has_nonspace text ≡ true)
    (plain : All (λ c. (c ≢ b'\r') × (c ≢ b'\n')) text)
    (edges : b ≡ false
      → (at text 0 ≢ b' ') × (at text 0 ≢ b'`') × (at text (length text - 1) ≢ b'`'))
    (none_in : (j : ℕ) → ¬ IsRun text 0 n j) (stops : at rest 0 ≢ b'`') where
  abbrev behind : Bytes
  behind = padded b text ++ (repeat n b'`' ++ rest)

  abbrev open_ticks : ℕ
  open_ticks = span_length isbacktick (drop s.pos s.input)

  opens : open_ticks ≡ n
  opens =
      ap (λ p. span_length isbacktick (drop p s.input)) pos
      ∙ ap (λ x. span_length isbacktick (drop (length before) x)) input
      ∙ ap (span_length isbacktick) (drop-before before (repeat n b'`' ++ behind))
      ∙ span-repeat n behind (at_first b text _ some_text (λ e. (edges e).1))

  abbrev start : Subject
  start = record s { pos = s.pos + open_ticks }

  abbrev opened : Bytes
  opened = before ++ repeat n b'`'

  length-opened : length opened ≡ length before + n
  length-opened =
      length-append before (repeat n b'`') ∙ ap (λ k. length before + k) (length-repeat n b'`')

  start_at : s.pos + open_ticks ≡ length opened
  start_at = omega (arith, pos, opens, length-opened)

  whole : s.input ≡ opened ++ behind
  whole = input ∙ sym (append_assoc before (repeat n b'`') behind)

  ends :
      (r : ℕ)
      → Closes s.input (s.pos + open_ticks) open_ticks r
      → r ≡ length before + n + length (padded b text) + n
  ends r c = omega (arith, closing, length-opened)
    where
      closing : r ≡ length opened + length (padded b text) + n
      closing =
          Closes-closing opened b text rest n positive (λ e. (edges e).2) none_in stops r
            (subst (λ k. Closes (opened ++ behind) (length opened) k r) opens
              (subst (λ p. Closes (opened ++ behind) p open_ticks r) start_at
                (subst (λ x. Closes x (s.pos + open_ticks) open_ticks r) whole c)))

  slice :
      take
        (length before + n + length (padded b text) + n - (s.pos + open_ticks) - open_ticks)
        (drop (s.pos + open_ticks) s.input)
      ≡ padded b text
  slice =
      ap (take (length before + n + length (padded b text) + n - (s.pos + open_ticks) - open_ticks))
        (ap (λ p. drop p s.input) start_at
          ∙ ap (drop (length opened)) whole
          ∙ drop-before opened behind)
      ∙ ap (λ k. take k behind)
          {x = length before + n + length (padded b text) + n - (s.pos + open_ticks) - open_ticks}
          {y = length (padded b text)} (omega (arith, pos, opens))
      ∙ take-append (padded b text) (repeat n b'`' ++ rest)

  pub handle_backticks-padded :
      (t : Subject) × (handle_backticks s ≡ some (code text n, t))
      × (t.pos ≡ length before + n + length (padded b text) + n)
  unfolding handle_backticks
  handle_backticks-padded =
      let (r, t, is_found, closes, _, moved) =
        (scan_to_closing_backticks-Searched start open_ticks (omega (arith, opens, positive))
            free).0
          fresh (omega (arith, opens, few)) in
      let r_at = ends r closes in
      let not_zero : (r == 0) ≡ false = ground (arith, r_at, positive) in
      (
        t,
        ap (λ o. o >>= spanned) is_found
            ∙ ap some (if_false _ _ (r == 0) not_zero)
            ∙ ap
                (λ k. some (
                  code
                      (normalize_code (
                        take (k - (s.pos + open_ticks) - open_ticks)
                          (drop (s.pos + open_ticks) s.input)))
                      open_ticks,
                  t,
                ))
                r_at
            ∙ ap (λ x. some (code x open_ticks, t))
                (ap normalize_code slice
                  ∙ normalize_code-padded b text some_text (λ e. (edges e).0) plain)
            ∙ ap (λ k. some (code text k, t)) opens,
        moved (λ z. omega (arith, z, r_at, positive)) ∙ r_at,
      )
    where
      spanned : ℕ × Subject → Option (Span × Subject)
      spanned (r, t) = some (
          if r == 0 then (ticks open_ticks, record t { pos = s.pos + open_ticks }) else (
            code
                (normalize_code (
                  take (r - (s.pos + open_ticks) - open_ticks) (drop (s.pos + open_ticks) s.input)))
                open_ticks,
            t,
          ))
