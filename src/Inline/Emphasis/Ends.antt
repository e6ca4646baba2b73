-- ===== src/Inline/Emphasis/Ends.antt =====
-- `process_emphasis` from its start to its end.
use swift_cmark.Base.{
  All, Bool-cases, List, [], ap, arith, false, if◌then◌else◌, inl, inr, leb, ltb, refl, some, suc,
  sym, true, ℕ, ◌<◌, ◌>>=◌, ◌∙◌, ◌∷◌, ◌≡◌, ◌≤◌,
}
use swift_cmark.Inline.Emphasis.Opener.{IsBase}
use swift_cmark.Inline.Emphasis.Rounds.{IsLive}
use swift_cmark.Inline.Emphasis.Sorted.{Rises-weaken, Rises, Falls}
use swift_cmark.Inline.Emphasis.Loop.{close_loop-Ended, IsNested}
use swift_cmark.Inline.Emphasis.Good.{EndsAt, IsLegal, Within}
use swift_cmark.Inline.Emphasis.{
  work, init_bottoms, remove_above, Change, move_back, process_emphasis, Delimiter,
}

-- The delimiters before the bottom.
abbrev pub below : ℕ → List Delimiter → List Delimiter
below stack_bottom [] = []
below stack_bottom (d ∷ ds) =
    if ltb d.position stack_bottom then d ∷ below stack_bottom ds else below stack_bottom ds

module _ (stack_bottom : ℕ) where
  below_all :
      (hi : ℕ) (ds : List Delimiter) → hi < stack_bottom → Falls hi ds → below stack_bottom ds ≡ ds
  below_all hi [] h f = refl
  below_all hi (d ∷ ds) h (le, f) =
      let e : ltb d.position stack_bottom ≡ true = ground arith in
      rw e (ap (◌∷◌ d) (below_all d.position ds (omega arith) f))

  move_back-below :
      (hi : ℕ) (ds from : List Delimiter)
      → Falls hi ds
      → (move_back stack_bottom ds from).1 ≡ below stack_bottom ds
  unfolding move_back
  move_back-below hi [] from f = refl
  move_back-below hi (d ∷ ds) from (le, f) = elim (Bool-cases (leb stack_bottom d.position)) [
    | inl e ↦
        let g : ltb d.position stack_bottom ≡ false = ground arith in
        rw (e, g) (move_back-below d.position ds (d ∷ from) f)
    | inr e ↦
        let g : ltb d.position stack_bottom ≡ true = ground arith in
        rw (e, g) (ap (◌∷◌ d) (sym (below_all d.position ds (ground arith) f)))
  ]

  move_back-IsBase :
      (ds from : List Delimiter) → IsBase stack_bottom (move_back stack_bottom ds from).1
  unfolding move_back
  move_back-IsBase [] from = _
  move_back-IsBase (d ∷ ds) from = elim (Bool-cases (leb stack_bottom d.position)) [
    | inl e ↦ rw e (move_back-IsBase ds (d ∷ from))
    | inr e ↦ rw e (ground arith)
  ]

  move_back-Within :
      (hi : ℕ) (ds from : List Delimiter)
      → All IsLive ds
      → Falls hi ds
      → All (Within (λ p. stack_bottom ≤ p) stack_bottom) from
      → Rises hi from
      → All (Within (λ p. stack_bottom ≤ p) stack_bottom) (move_back stack_bottom ds from).0
        × Rises 0 (move_back stack_bottom ds from).0
  unfolding move_back
  move_back-Within hi [] from l f w r = (w, Rises-weaken hi 0 from (omega arith) r)
  move_back-Within hi (d ∷ ds) from (l, ls) (le, f) w r =
      elim (Bool-cases (leb stack_bottom d.position)) [
        | inl e ↦ rw e (
            move_back-Within d.position ds (d ∷ from) ls f ((l, ground arith, ground arith), w)
              (omega arith, Rises-weaken hi d.position from le r))
        | inr e ↦ rw e (w, Rises-weaken hi 0 from (omega arith) r)
      ]

  -- On a stack of delimiters of the four characters of the core, with characters left, in the
  -- order of the text, the loops end; what stays on the stack are the delimiters before the
  -- bottom, unchanged; each emphasis and each pair of quotes is between delimiters that match, and
  -- takes no more characters than both have left; and no later change ends between the ends of an
  -- emphasis, so emphases are nested or apart.
  pub process_emphasis-IsNested :
      (hi : ℕ) (delims : List Delimiter)
      → All IsLive delims
      → Falls hi delims
      → (cs : List Change) × (process_emphasis stack_bottom delims
          ≡ some (cs, below stack_bottom delims))
        × All IsLegal cs
        × All (EndsAt (λ p. stack_bottom ≤ p)) cs
        × IsNested cs
  unfolding process_emphasis
  process_emphasis-IsNested hi delims live falls =
      let m = move_back stack_bottom delims [] in
      let (relevant, rises) = move_back-Within hi delims [] live falls _ _ in
      let (r, is_result, (legal, ends, nested, left)) =
        close_loop-Ended stack_bottom m.1 (move_back-IsBase delims []) (suc (work m.0))
          (λ p. stack_bottom ≤ p) m.1 m.0 (init_bottoms stack_bottom)
          ([], 0, refl, _, relevant, _, rises) (omega arith) in
      (
        r.0,
        ap (λ o. o >>= λ x. some (x.0, remove_above stack_bottom x.1)) is_result
            ∙ ap (λ ds. some (r.0, ds)) (left ∙ move_back-below hi delims [] falls),
        legal,
        ends,
        nested,
      )
