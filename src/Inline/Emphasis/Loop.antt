-- ===== src/Inline/Emphasis/Loop.antt =====
-- The closing loop of `process_emphasis`.
use swift_cmark.Base.{
  All, All-append, Bool, Bool-cases, List, [], ap, arith, false, if◌then◌else◌, inl, inr, leb, refl,
  some, subst, suc, sym, true, zero, ℕ, ◌++◌, ◌<◌, ◌>>=◌, ◌∙◌, ◌∷◌, ◌≡◌, ◌≤◌,
}
use swift_cmark.Inline.Emphasis.Rounds.{close_round_elim, low_of}
use swift_cmark.Inline.Emphasis.Opener.{find_above, IsBase}
use swift_cmark.Inline.Emphasis.{
  is_emph_char, with_opener, find_opener, work, Found, Bottoms, close_round, Stack, close_loop,
  remove_above, Delimiter, Change, emph, quote, find_opener, insert_emph,
}
use swift_cmark.Inline.Emphasis.Good.{
  RoundGood, Within, IsGood, IsLegal, EndsAt, LeavesOutside, Outside,
}
use swift_cmark.Inline.Emphasis.Round.{
  emph-RoundGood, quote-RoundGood, without-RoundGood, passed-RoundGood,
}

-- No later change has an end between the ends of an emphasis.
abbrev pub IsNested : List Change → Type 0
IsNested [] = Unit
IsNested (emph o c n ∷ cs) = All (EndsAt (Outside o.position c.position)) cs × IsNested cs
IsNested (quote o c ∷ cs) = IsNested cs

some_eq {ℓ} : {A : Type ℓ} {x y : A} → some x ≡ some y → x ≡ y
some_eq h = cc

module _ (stack_bottom : ℕ) (base : List Delimiter) (is_base : IsBase stack_bottom base) where
  IsBase-weaken :
      (k : ℕ) (ds : List Delimiter) → stack_bottom ≤ k → IsBase stack_bottom ds → IsBase k ds
  IsBase-weaken k [] h b = _
  IsBase-weaken k (d ∷ ds) h b = omega (arith, h, b)

  le_low : (s : Stack) (closer : Delimiter) → stack_bottom ≤ low_of stack_bottom s closer
  le_low s closer = ground arith

  -- A round on a good stack has a result, and it is good again with less to do.
  close_round-RoundGood :
      (P : ℕ → Type 0) (s : Stack) (closer : Delimiter) (after : List Delimiter)
      → IsGood P stack_bottom base (record s { from = closer ∷ after })
      → (r : List Change × Stack) × (close_round stack_bottom s closer after ≡ some r)
        × RoundGood P stack_bottom base (closer ∷ after) r
  close_round-RoundGood P s closer after (up, mid, is_up, ups, (here, afters), falls, (le, rises)) =
      close_round_elim (RoundGood P stack_bottom base (closer ∷ after)) stack_bottom s closer after
        here.0
        (λ e.
          passed-RoundGood P stack_bottom base s closer after up mid is_up ups here afters falls le
            rises)
        matched
        (λ e.
          without-RoundGood P stack_bottom base s closer after up mid is_up ups here afters falls le
            rises e)
    where
      matched :
          closer.can_close ≡ true
          → (found : Found)
          → find_opener (low_of stack_bottom s closer) closer s.before ≡ some found
          → RoundGood P stack_bottom base (closer ∷ after) (with_opener s found closer after)
      matched e found eq =
          let above =
            find_above (Within P stack_bottom) base (low_of stack_bottom s closer) closer
              (IsBase-weaken _ base (le_low s closer) is_base) up found ups
              (sym (ap (find_opener (low_of stack_bottom s closer) closer) is_up) ∙ eq) in
          let result = λ (b : Bool). RoundGood P stack_bottom base (closer ∷ after) (
            if b then insert_emph s found closer after else (
              quote (some found.1) closer ∷ [],
              record s { before = found.0 ++ found.2; from = after },
            )) in
          elim (Bool-cases (is_emph_char closer.delim_char)) [
            | inl c ↦ subst result (sym c) (
                emph-RoundGood P stack_bottom base s closer after up mid is_up ups here afters falls
                  le rises found above e c)
            | inr c ↦ subst result (sym c) (
                quote-RoundGood P stack_bottom base s closer after up mid is_up ups here afters
                  falls le rises found above e)
          ]

  remove_above_lem :
      (P : ℕ → Type 0) (up : List Delimiter)
      → All (Within P stack_bottom) up
      → remove_above stack_bottom (up ++ base) ≡ base
  unfolding remove_above
  remove_above_lem P [] h = by_base base is_base
    where
      by_base : (ds : List Delimiter) → IsBase stack_bottom ds → remove_above stack_bottom ds ≡ ds
      by_base [] h = refl
      by_base (d ∷ ds) h = let e : leb stack_bottom d.position ≡ false = ground arith in rw e refl
  remove_above_lem P (d ∷ ds) (h, hs) =
      let e : leb stack_bottom d.position ≡ true = ground arith in rw e (remove_above_lem P ds hs)

  -- What the loop reports, and what it leaves.
  abbrev pub Ended : (ℕ → Type 0) → List Change × List Delimiter → Type 0
  Ended P r =
      All IsLegal r.0 × All (EndsAt P) r.0 × IsNested r.0 × (remove_above stack_bottom r.1 ≡ base)

  IsNested-append :
      (cs : List Change) (s : Stack) (ts : List Change)
      → LeavesOutside stack_bottom base cs s
      → ((Q : ℕ → Type 0) → IsGood Q stack_bottom base s → All (EndsAt Q) ts)
      → IsNested ts
      → IsNested (cs ++ ts)
  IsNested-append [] s ts l q n = n
  IsNested-append (emph o c k ∷ cs) s ts l q n = rw (l.0) (q (Outside o.position c.position) l.1, n)
  IsNested-append (quote o c ∷ cs) s ts l q n = IsNested-append cs s ts l q n

  pub close_loop-Ended :
      (fuel : ℕ) (P : ℕ → Type 0) (before from : List Delimiter) (bottoms : Bottoms)
      → IsGood P stack_bottom base (record { before = before; from = from; bottoms = bottoms })
      → work from < fuel
      → (r : List Change × List Delimiter) × (close_loop fuel stack_bottom
            (record { before = before; from = from; bottoms = bottoms })
          ≡ some r)
        × Ended P r
  unfolding close_loop
  close_loop-Ended zero P before from bottoms g h = absurd (omega arith)
  close_loop-Ended (suc fuel) P before [] bottoms (up, mid, is_up, ups, _, falls, _) h = (
    ([], before),
    refl,
    (_, _, _, ap (remove_above stack_bottom) is_up ∙ remove_above_lem P up ups),
  )
  close_loop-Ended (suc fuel) P before (closer ∷ after) bottoms g h =
      let (r, is_round, (good, less, legal, ends, outside)) =
        close_round-RoundGood P (record { before = before; from = after; bottoms = bottoms }) closer
          after g in
      let shorter : work r.1.from < fuel = omega (arith, less, h) in
      let (t, is_rest, (legals, endings, nested, left)) =
        close_loop-Ended fuel P r.1.before r.1.from r.1.bottoms good shorter in
      let endings_in = λ (Q : ℕ → Type 0) (good_in : IsGood Q stack_bottom base r.1).
        let (u, is_in, (l, endings', n, k)) =
          close_loop-Ended fuel Q r.1.before r.1.from r.1.bottoms good_in shorter in
        subst (λ v. All (EndsAt Q) v.0) (some_eq (sym is_in ∙ is_rest)) endings' in
      (
        (r.0 ++ t.0, t.1),
        ap (λ o. o >>= λ x. close_loop fuel stack_bottom x.1 >>= λ y. some (x.0 ++ y.0, y.1))
              is_round
            ∙ ap (λ o. o >>= λ y. some (r.0 ++ y.0, y.1)) is_rest,
        (
          All-append IsLegal r.0 t.0 legal legals,
          All-append (EndsAt P) r.0 t.0 ends endings,
          IsNested-append r.0 r.1 t.0 outside endings_in nested,
          left,
        ),
      )
