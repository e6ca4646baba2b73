-- ===== src/Inline/Delims/Flanking.antt =====
-- Delimiters inside a word.
use swift_cmark.Base.{
  ==_iff, Bool, Bool-cases, Bytes, List, [], ap, arith, at, at_past, drop, false, if_false, inl,
  inr, leb, length, ltb, not, refl, some, subst, suc, take, true, within, zero, ℕ, ◌&&◌, ◌+◌, ◌-◌,
  ◌/◌, ◌<◌, ◌==◌, ◌||◌, ◌∙◌, ◌∷◌, ◌≡◌, ◌≢◌, ◌≤◌, ◌⊎◌,
}
use swift_cmark.Inline.Delims.{
  flanking, can_open_close, before_char, walk_back, after_char, char_or_newline,
}
use swift_cmark.Houdini.{span_length}
use swift_cmark.Ctype.{isalnum, ispunct}
use swift_cmark.Utf8.{iterate}
use swift_cmark.Inline.Delims.{scan_delims, before_char, after_char, can_open_close}
use swift_cmark.Utf8.Classes.{is_space, is_punctuation, in_ranges, punctuation}
use swift_cmark.Buffer.Block.{drop-eq-cons}

all_above : List (ℕ × ℕ) → Bool
all_above [] = true
all_above (r ∷ rs) = leb 128 r.0 && all_above rs

in_ranges_below :
    (rs : List (ℕ × ℕ)) (c : ℕ) → all_above rs ≡ true → c < 128 → in_ranges rs c ≡ false
unfolding in_ranges all_above
in_ranges_below [] c h l = refl
in_ranges_below (r ∷ rs) c h l =
    let out : within r.0 r.1 c ≡ false = ground (arith, h, l) in
    rw (out, in_ranges_below rs c (ground (arith, h)) l) refl

-- A letter or digit of ASCII is in no class, and is decoded as itself.
isalnum_low : (c : ℕ) → isalnum c ≡ true → c < 128
unfolding isalnum
isalnum_low c h = ground arith

isalnum-is_space : (c : ℕ) → isalnum c ≡ true → is_space c ≡ false
unfolding isalnum is_space
isalnum-is_space c h = ground arith

isalnum-ispunct : (c : ℕ) → isalnum c ≡ true → ispunct c ≡ false
unfolding isalnum ispunct
isalnum-ispunct c h = ground arith

isalnum-is_punctuation : (c : ℕ) → isalnum c ≡ true → is_punctuation c ≡ false
unfolding is_punctuation all_above
isalnum-is_punctuation c h =
    rw (isalnum-ispunct c h, in_ranges_below punctuation c refl (isalnum_low c h)) (ground arith)

iterate_low : (c : ℕ) (s : Bytes) → c < 128 → iterate (c ∷ s) ≡ some (1, c)
unfolding iterate
iterate_low c s h = ground arith

can_open_close_word :
    (c a z : ℕ)
    → isalnum a ≡ true
    → isalnum z ≡ true
    → c ≢ 39
    → c ≢ b'"'
    → can_open_close c a z ≡ (not (c == b'_'), not (c == b'_'))
unfolding can_open_close flanking
can_open_close_word c a z h k n m =
    let no_quote : c == 39 || c == b'"' ≡ false = ground (arith, n, m) in
    rw
      (
        isalnum-is_space a h,
        isalnum-is_space z k,
        isalnum-is_punctuation a h,
        isalnum-is_punctuation z k,
        no_quote,
      )
      (elim (Bool-cases (c == b'_')) [ inl e ↦ rw e refl | inr e ↦ rw e refl ])

no_nul : isalnum 0 ≡ true → ⊥
unfolding isalnum
no_nul h = ground arith

module _ (skip_chars : ℕ → Bool) (input : Bytes) where
  char_or_newline_low :
      (c : ℕ) (s : Bytes)
      → isalnum c ≡ true
      → skip_chars c ≡ false
      → char_or_newline skip_chars (c ∷ s) ≡ c
  unfolding char_or_newline
  char_or_newline_low c s h k =
      rw (char_or_newline, iterate_low c s (isalnum_low c h))
        (let e : ltb c 256 && skip_chars c ≡ false = ground (arith, k) in rw e refl)

  in_text : (p : ℕ) → isalnum (at input p) ≡ true → p < length input
  in_text p h = elim split [
    | inl l ↦ l
    | inr g ↦ absurd (no_nul (subst (λ c. isalnum c ≡ true) (at_past input p g) h))
  ]
    where
      split : (p < length input) ⊎ (length input ≤ p)
      split = ground arith

  walk_back_low :
      (p : ℕ)
      → isalnum (at input p) ≡ true
      → skip_chars (at input p) ≡ false
      → walk_back skip_chars input p ≡ p
  unfolding walk_back
  walk_back_low zero h k = refl
  walk_back_low (suc p) h k =
      let low : at input (suc p) < 128 = isalnum_low _ h in
      let e : at input (suc p) / 64 == 2 || skip_chars (at input (suc p)) ≡ false =
        ground (arith, low, k) in
      rw e refl

  before_char_low :
      (p : ℕ)
      → isalnum (at input p) ≡ true
      → skip_chars (at input p) ≡ false
      → before_char skip_chars input (suc p) ≡ at input p
  unfolding before_char
  before_char_low p h k =
      if_false 10 _ (suc p == 0) (ground arith)
      ∙ ap (λ q. first (walk_back skip_chars input q)) {x = suc p - 1} {y = p} (omega arith)
      ∙ ap first (walk_back_low p h k)
      ∙ ap (λ n. char_or_newline skip_chars (take n (drop p input))) {x = suc p - p} {y = 1}
          (omega arith)
      ∙ ap (λ x. char_or_newline skip_chars (take 1 x)) (drop-eq-cons input p (in_text p h))
      ∙ char_or_newline_low (at input p) [] h k
    where
      first : ℕ → ℕ
      first q = char_or_newline skip_chars (take (suc p - q) (drop q input))

  none_skipped :
      (p : ℕ)
      → isalnum (at input p) ≡ true
      → skip_chars (at input p) ≡ false
      → span_length skip_chars (drop p input) ≡ 0
  unfolding span_length
  none_skipped p h k = rw (drop-eq-cons input p (in_text p h), k) refl

  after_char_low :
      (p : ℕ)
      → isalnum (at input p) ≡ true
      → skip_chars (at input p) ≡ false
      → after_char skip_chars input p ≡ at input p
  unfolding after_char
  after_char_low p h k =
      if_false 10 _ (p == length input) (ground (arith, in_text p h))
      ∙ ap (λ n. char_or_newline skip_chars (drop (p + n) input)) (none_skipped p h k)
      ∙ ap (λ n. char_or_newline skip_chars (drop n input)) {x = p + 0} {y = p} (omega arith)
      ∙ ap (char_or_newline skip_chars) (drop-eq-cons input p (in_text p h))
      ∙ char_or_newline_low (at input p) (drop (suc p) input) h k

  module _ (p c : ℕ) (h : isalnum (at input p) ≡ true)
      (k : isalnum (at input (suc p + span_length (λ d. d == c) (drop (suc p) input))) ≡ true)
      (here : at input (suc p) ≡ c) where
    abbrev delims : ℕ
    delims = span_length (λ d. d == c) (drop (suc p) input)

    some_delim : 0 < delims
    unfolding span_length
    some_delim =
        let same : (at input (suc p) == c) ≡ true = (==_iff (at input (suc p)) c).1 here in
        rw (drop-eq-cons input (suc p) (omega (arith, in_text (suc p + delims) k)), same)
          (omega arith)

    -- A run of delimiters other than quotes between two ASCII letters or digits, which no
    -- extension wants skipped, has some length and is scanned to its end, and can open and close
    -- unless it is of underscores, which can do neither.
    pub scan_delims_word :
        skip_chars (at input p) ≡ false
        → skip_chars (at input (suc p + span_length (λ d. d == c) (drop (suc p) input))) ≡ false
        → c ≢ 39
        → c ≢ b'"'
        → (0 < span_length (λ d. d == c) (drop (suc p) input))
          × (scan_delims skip_chars input (suc p) c ≡ (
            span_length (λ d. d == c) (drop (suc p) input),
            suc p + span_length (λ d. d == c) (drop (suc p) input),
            not (c == b'_'),
            not (c == b'_'),
          ))
    unfolding scan_delims
    scan_delims_word f g n m =
        let no_quote : c == 39 || c == b'"' ≡ false = ground (arith, n, m) in
        let positive : ltb 0 delims ≡ true = ground (arith, some_delim) in
        (
          some_delim,
          ap
                (λ x. result x (
                  can_open_close c (before_char skip_chars input (suc p))
                    (after_char skip_chars input (suc p + x))))
                (if_false 1 delims (c == 39 || c == b'"') no_quote)
              ∙ ap
                  (λ x.
                    result delims
                      (can_open_close c x (after_char skip_chars input (suc p + delims))))
                  (before_char_low p h f)
              ∙ ap (λ x. result delims (can_open_close c (at input p) x))
                  (after_char_low (suc p + delims) k g)
              ∙ ap (result delims)
                  (can_open_close_word c (at input p) (at input (suc p + delims)) h k n m)
              ∙ ap (λ b. (delims, suc p + delims, b && not (c == b'_'), b && not (c == b'_')))
                  positive,
        )
      where
        result : ℕ → Bool × Bool → ℕ × ℕ × Bool × Bool
        result x o = (x, suc p + x, ltb 0 x && o.0, ltb 0 x && o.1)
