-- ===== src/Inline/Emphasis/Rounds.antt =====
-- What one round of the loop can do.
use swift_cmark.Base.{
  Bool, Bool-cases, List, Option, [], ap, false, inl, inr, none, refl, some, true, ℕ, ◌%◌, ◌<◌,
  ◌||◌, ◌∙◌, ◌∷◌, ◌≡◌,
}
use swift_cmark.Inline.Emphasis.{
  Delimiter, Change, Found, Stack, is_emph_char, is_quote_char, find_opener, with_opener,
  without_opener, choose_round, close_round, max,
}

-- A delimiter that the core pushes, with characters left.
abbrev pub IsLive : Delimiter → Type 0
IsLive d = (is_emph_char d.delim_char || is_quote_char d.delim_char ≡ true) × (0 < d.chars)

abbrev is_known : Delimiter → Bool
is_known d = is_emph_char d.delim_char || is_quote_char d.delim_char

abbrev pub low_of : ℕ → Stack → Delimiter → ℕ
low_of stack_bottom s closer = max stack_bottom (s.bottoms (closer.length % 3) closer.delim_char)

module _ (C : List Change × Stack → Type 0) (stack_bottom : ℕ) (s : Stack) (closer : Delimiter)
    (after : List Delimiter) where
  abbrev searched : Option Found
  searched = find_opener (low_of stack_bottom s closer) closer s.before

  abbrev round : Bool → Bool → Option Found → Option (List Change × Stack)
  round can known o =
      choose_round can known o ([], record s { before = closer ∷ s.before; from = after })
        (λ found. with_opener s found closer after) (without_opener s closer after)

  closed :
      IsLive closer
      → closer.can_close ≡ true
      → ((found : Found)
          → find_opener (low_of stack_bottom s closer) closer s.before ≡ some found
          → C (with_opener s found closer after))
      → C (without_opener s closer after)
      → (o : Option Found) → find_opener (low_of stack_bottom s closer) closer s.before ≡ o
      → (r : List Change × Stack) × (close_round stack_bottom s closer after ≡ some r) × C r
  unfolding close_round
  closed (live, some_chars) e with_ without none eq = (
    _,
    ap (λ b. round b (is_known closer) searched) e
        ∙ ap (λ b. round true b searched) live
        ∙ ap (round true true) eq,
    without,
  )
  closed (live, some_chars) e with_ without (some found) eq = (
    _,
    ap (λ b. round b (is_known closer) searched) e
        ∙ ap (λ b. round true b searched) live
        ∙ ap (round true true) eq,
    with_ found eq,
  )

  -- A round that passes a delimiter, finds an opener for it, or finds none.
  pub close_round_elim :
      IsLive closer
      → (closer.can_close ≡ false → C ([], record s { before = closer ∷ s.before; from = after }))
      → (closer.can_close ≡ true
          → (found : Found)
          → find_opener (low_of stack_bottom s closer) closer s.before ≡ some found
          → C (with_opener s found closer after))
      → (closer.can_close ≡ true → C (without_opener s closer after))
      → (r : List Change × Stack) × (close_round stack_bottom s closer after ≡ some r) × C r
  unfolding close_round
  close_round_elim live pass with_ without = elim (Bool-cases closer.can_close) [
    | inl e ↦ closed live e (with_ e) (without e) _ refl
    | inr e ↦ (_, ap (λ b. round b (is_known closer) searched) e, pass e)
  ]
