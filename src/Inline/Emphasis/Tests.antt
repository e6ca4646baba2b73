-- ===== src/Inline/Emphasis/Tests.antt =====
-- The stack of `*****Hello*world****`.
use swift_cmark.Base.{All, Bool, List, [], arith, false, refl, some, true, ℕ, ◌↔◌, ◌∷◌, ◌≡◌, ◌≤◌}
use swift_cmark.Inline.Emphasis.Ends.{below, process_emphasis-IsNested}
use swift_cmark.Inline.Emphasis.Loop.{IsNested}
use swift_cmark.Inline.Emphasis.Good.{IsLegal, EndsAt}
use swift_cmark.Inline.Emphasis.Opener.{IsNearest, find_opener-iff-IsNearest}
use swift_cmark.Inline.Emphasis.{
  Delimiter, Change, process_emphasis, close_loop, close_round, find_opener, is_match, move_back,
  remove_above,
}

abbrev star : ℕ → ℕ → ℕ → Bool → Bool → Delimiter
star n p len o c = record {
  inl_text = n;
  position = p;
  length = len;
  delim_char = b'*';
  can_open = o;
  can_close = c;
  chars = len;
}

abbrev stars : List Delimiter
stars = star 3 20 4 false true ∷ star 2 11 1 true true ∷ star 1 5 5 true false ∷ []

-- The first five stars stay unused: the bound that the middle star has left keeps the last four from
-- them, although these two may match.
left_over :
    process_emphasis 0 stars
    ≡ some (Change.emph (star 2 11 1 true true) (star 3 20 4 false true) 1 ∷ [], [])
unfolding process_emphasis close_loop close_round find_opener is_match move_back remove_above
left_over = refl

five_match : is_match (star 3 20 4 false true) (star 1 5 5 true false) ≡ true
unfolding is_match
five_match = refl

stars_example :
    (cs : List Change) × (process_emphasis 0 stars ≡ some (cs, below 0 stars))
    × All IsLegal cs
    × All (EndsAt (λ p. 0 ≤ p)) cs
    × IsNested cs
stars_example =
    process_emphasis-IsNested 0 20 stars
      ((refl, omega arith), ((refl, omega arith), ((refl, omega arith), tt)))
      (omega arith, (omega arith, (omega arith, tt)))

five_example :
    (find_opener 0 (star 3 20 4 false true) (star 1 5 5 true false ∷ [])
      ≡ some ([], star 1 5 5 true false, []))
    ↔ IsNearest 0
        (star 3 20 4 false true)
        (star 1 5 5 true false ∷ [])
        ([], star 1 5 5 true false, [])
five_example =
    find_opener-iff-IsNearest 0 (star 3 20 4 false true) (star 1 5 5 true false ∷ [])
      ([], star 1 5 5 true false, [])
