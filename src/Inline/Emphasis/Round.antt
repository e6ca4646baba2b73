-- ===== src/Inline/Emphasis/Round.antt =====
-- A round of the loop keeps the invariant.
use swift_cmark.Base.{
  All, All-append, Bool-cases, List, [], ap, append_assoc, arith, false, if◌then◌else◌, inl, inr,
  none, refl, some, subst, sym, true, ℕ, ◌++◌, ◌<◌, ◌==◌, ◌∙◌, ◌∷◌, ◌≡◌, ◌≤◌, ◌⊎◌,
}
use swift_cmark.Inline.Emphasis.{
  Delimiter, quote, Found, Stack, is_emph_char, insert_emph, without_opener, keep, use_chars,
  use_delims, work,
}
use swift_cmark.Inline.Emphasis.Rounds.{low_of}
use swift_cmark.Inline.Emphasis.Opener.{FoundAbove}
use swift_cmark.Inline.Emphasis.Sorted.{
  Falls, Rises, Falls-weaken, Rises-weaken, Falls-suffix, Falls-without, Falls-All, Rises-All,
}
use swift_cmark.Inline.Emphasis.Good.{
  Within, IsGood, Outside, RoundGood, All-map2, use_delims_bounds, keep-Within, keep-Falls,
  keep-Rises, keep-work,
}

keep-append : (d : Delimiter) (xs ys : List Delimiter) → keep d (xs ++ ys) ≡ keep d xs ++ ys
keep-append d xs ys = elim (Bool-cases (d.chars == 0)) [ inl e ↦ rw e refl | inr e ↦ rw e refl ]

module _ (P : ℕ → Type 0) (stack_bottom : ℕ) (base : List Delimiter) (s : Stack)
    (closer : Delimiter) (after : List Delimiter) (up : List Delimiter) (mid : ℕ)
    (is_up : s.before ≡ up ++ base) (ups : All (Within P stack_bottom) up)
    (here : Within P stack_bottom closer) (afters : All (Within P stack_bottom) after)
    (falls : Falls mid up) (le : mid ≤ closer.position) (rises : Rises closer.position after) where
  pass-Good : IsGood P stack_bottom base (record s { before = closer ∷ s.before; from = after })
  pass-Good = (
    closer ∷ up,
    closer.position,
    ap (◌∷◌ closer) is_up,
    (here, ups),
    afters,
    (omega arith, Falls-weaken mid closer.position up le falls),
    rises,
  )

  drop-Good :
      (bottoms : ℕ → ℕ → ℕ)
      → IsGood P stack_bottom base (record { before = s.before; from = after; bottoms = bottoms })
  drop-Good bottoms =
      (up, mid, is_up, ups, afters, falls, Rises-weaken closer.position mid after le rises)

  shorter : work after < work (closer ∷ after)
  shorter = omega arith

  pub passed-RoundGood :
      RoundGood P stack_bottom base
        (closer ∷ after)
        ([], record s { before = closer ∷ s.before; from = after })
  passed-RoundGood = (pass-Good, shorter, _, _, _)

  pub without-RoundGood :
      closer.can_close ≡ true
      → RoundGood P stack_bottom base (closer ∷ after) (without_opener s closer after)
  without-RoundGood e = elim (Bool-cases closer.can_open) [
    | inl o ↦ by_char (kept o)
    | inr o ↦ by_char (dropped o)
  ]
    where
      Result : Type 0
      Result = IsGood P stack_bottom base (without_opener s closer after).1

      kept : closer.can_open ≡ true → Result
      kept o = (
        closer ∷ up,
        closer.position,
        ap (λ b. if b then closer ∷ s.before else s.before) o ∙ ap (◌∷◌ closer) is_up,
        (here, ups),
        afters,
        (omega arith, Falls-weaken mid closer.position up le falls),
        rises,
      )

      dropped : closer.can_open ≡ false → Result
      dropped o = (
        up,
        mid,
        ap (λ b. if b then closer ∷ s.before else s.before) o ∙ is_up,
        ups,
        afters,
        falls,
        Rises-weaken closer.position mid after le rises,
      )

      by_char :
          Result → RoundGood P stack_bottom base (closer ∷ after) (without_opener s closer after)
      by_char g = elim (Bool-cases (is_emph_char closer.delim_char)) [
        | inl c ↦
            subst
              (λ b.
                RoundGood P stack_bottom base (closer ∷ after)
                  ((if b then [] else quote none closer ∷ []), (without_opener s closer after).1))
              (sym c) (g, shorter, _, _, _)
        | inr c ↦
            subst
              (λ b.
                RoundGood P stack_bottom base (closer ∷ after)
                  ((if b then [] else quote none closer ∷ []), (without_opener s closer after).1))
              (sym c) (g, shorter, (e, _), (here.2, _), _)
      ]

  module _ (f : Found)
      (found : FoundAbove (Within P stack_bottom) base (low_of stack_bottom s closer) closer up f)
      (e : closer.can_close ≡ true) where
    abbrev spent : ℕ
    spent = use_delims f.1 closer

    emph-Good :
        (Q : ℕ → Type 0)
        → All (Within Q stack_bottom) (found.0)
        → Within Q stack_bottom f.1
        → Within Q stack_bottom closer
        → All (Within Q stack_bottom) after
        → IsGood Q stack_bottom base (insert_emph s f closer after).1
    emph-Good Q belows opening closing afters =
        let falling = Falls-suffix mid f.0 f.1 found.0 (subst (Falls mid) found.6 falls) in
        (
          keep (use_chars spent f.1) found.0,
          mid,
          ap (keep (use_chars spent f.1)) found.1 ∙ keep-append (use_chars spent f.1) found.0 base,
          keep-Within Q stack_bottom spent f.1 found.0 opening belows,
          keep-Within Q stack_bottom spent closer after closing afters,
          keep-Falls Q stack_bottom spent f.1 found.0 opening mid falling.0 falling.1,
          keep-Rises Q stack_bottom spent closer after closing mid le rises,
        )

    -- What is left is not between the opener and the closer.
    emph-Outside :
        IsGood
          (Outside f.1.position closer.position)
          stack_bottom
          base
          (insert_emph s f closer after).1
    emph-Outside =
        let falling = Falls-suffix mid f.0 f.1 found.0 (subst (Falls mid) found.6 falls) in
        emph-Good (Outside f.1.position closer.position)
          (All-map2 (λ d w h. (w.0, w.1, inl h)) found.0 found.4
            (Falls-All f.1.position found.0 falling.1))
          (found.3.0, found.3.1, inl (omega arith)) (here.0, here.1, inr (omega arith))
          (All-map2 (λ d w h. (w.0, w.1, inr h)) after afters
            (Rises-All closer.position after rises))

    pub emph-RoundGood :
        is_emph_char closer.delim_char ≡ true
        → RoundGood P stack_bottom base (closer ∷ after) (insert_emph s f closer after)
    emph-RoundGood c =
        let falling = Falls-suffix mid f.0 f.1 found.0 (subst (Falls mid) found.6 falls) in
        let (uses, opener_has, closer_has) = use_delims_bounds f.1 closer found.3.0.1 here.0.1 in
        (
          emph-Good P found.4 found.3 here afters,
          keep-work P stack_bottom spent closer after here (some_use uses),
          ((found.5, e, c, omega (arith, falling.0, le), uses, opener_has, closer_has), _),
          ((found.3.2, here.2), _),
          (refl, emph-Outside),
        )
      where
        some_use : {n : ℕ} → (n ≡ 1) ⊎ (n ≡ 2) → 0 < n
        some_use h = ground (arith, h)

    pub quote-RoundGood :
        RoundGood P stack_bottom base
          (closer ∷ after)
          (quote (some f.1) closer ∷ [], record s { before = f.0 ++ f.2; from = after })
    quote-RoundGood =
        let (below_up, is_below, betweens, opening, belows, m, is_split) = found in
        let falling = Falls-suffix mid f.0 f.1 below_up (subst (Falls mid) is_split falls) in
        (
          (
            f.0 ++ below_up,
            mid,
            ap (◌++◌ f.0) is_below ∙ sym (append_assoc f.0 below_up base),
            All-append (Within P stack_bottom) f.0 below_up betweens belows,
            afters,
            Falls-without mid f.0 f.1 below_up (subst (Falls mid) is_split falls),
            Rises-weaken closer.position mid after le rises,
          ),
          shorter,
          ((m, e, omega (arith, falling.0, le)), _),
          ((opening.2, here.2), _),
          _,
        )
