-- ===== src/Inline/Tests.antt =====
-- Underscores in a word, and dashes.
use swift_cmark.Base.{
  Bytes, [], arith, at, drop, false, refl, true, ℕ, ◌++◌, ◌+◌, ◌<◌, ◌==◌, ◌∷◌, ◌≡◌,
}
use swift_cmark.Houdini.{span_length}
use swift_cmark.Ctype.{isalnum}
use swift_cmark.Inline.Delims.{scan_delims}
use swift_cmark.Inline.Delims.Flanking.{scan_delims_word}
use swift_cmark.Inline.Smart.{handle_hyphen, dash_counts, emdash, endash}

-- `a__b`
abbrev snake : Bytes
snake = b'a' ∷ b'_' ∷ b'_' ∷ b'b' ∷ []

abbrev snake_length : ℕ
snake_length = span_length (λ d. d == b'_') (drop 1 snake)

snake-isalnum : isalnum (at snake (1 + snake_length)) ≡ true
unfolding isalnum span_length
snake-isalnum = refl

head-isalnum : isalnum b'a' ≡ true
unfolding isalnum
head-isalnum = refl

scan_delims_example :
    (0 < snake_length)
    × (scan_delims (λ _. false) snake 1 b'_' ≡ (snake_length, 1 + snake_length, false, false))
scan_delims_example =
    scan_delims_word (λ _. false) snake 0 b'_' head-isalnum snake-isalnum refl refl refl
      (omega arith) (omega arith)

-- Five hyphens are an em dash and an en dash.
five_hyphens : handle_hyphen true (b'-' ∷ b'-' ∷ b'-' ∷ b'-' ∷ b'-' ∷ []) 0 ≡ (emdash ++ endash, 5)
unfolding handle_hyphen span_length dash_counts
five_hyphens = refl
