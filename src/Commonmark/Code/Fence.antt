-- ===== src/Commonmark/Code/Fence.antt =====
-- The run behind the padded text is the first that closes.
use swift_cmark.Base.{
  Bool, Bytes, ap, arith, at, false, inl, inr, length, sym, ℕ, ◌++◌, ◌+◌, ◌-◌, ◌<◌, ◌∙◌, ◌≡◌, ◌≢◌,
  ◌≤◌, ◌⊎◌,
}
use swift_cmark.Inline.Backticks.Runs.{IsRun}
use swift_cmark.Inline.Backticks.Closing.{Closes}
use swift_cmark.Commonmark.Code.{repeat}
use swift_cmark.Commonmark.Code.Inside.{at-left, shift-IsRun}
use swift_cmark.Commonmark.Code.Padded.{padded, padded_last, no_early, at-repeat, length-repeat}
use swift_cmark.Block.Text.Closing.{at-append}

module _ (before : Bytes) (b : Bool) (text rest : Bytes) (n : ℕ) (positive : 0 < n)
    (last : b ≡ false → at text (length text - 1) ≢ b'`') (none_in : (j : ℕ) → ¬ IsRun text 0 n j)
    (stops : at rest 0 ≢ b'`') where
  abbrev closing : Bytes
  closing = repeat n b'`' ++ rest

  abbrev behind : Bytes
  behind = padded b text ++ closing

  at_padded : (i : ℕ) → at (before ++ behind) (length before + i) ≡ at behind i
  at_padded i = at-append before behind i

  at-closing :
      (i : ℕ) → at (before ++ behind) (length before + length (padded b text) + i) ≡ at closing i
  at-closing i =
      ap (at (before ++ behind)) {x = length before + length (padded b text) + i}
        {y = length before + (length (padded b text) + i)} (omega arith)
      ∙ at_padded (length (padded b text) + i)
      ∙ at-append (padded b text) closing i

  closing-IsRun :
      IsRun (before ++ behind) (length before) n (length before + length (padded b text))
  closing-IsRun = (omega arith, positive, inside, stop, start (zero_or))
    where
      q : ℕ
      q = length before + length (padded b text)

      inside : (i : ℕ) → q ≤ i → i < q + n → at (before ++ behind) i ≡ b'`'
      inside i l k =
          ap (at (before ++ behind)) {x = i} {y = q + (i - q)} (omega (arith, l))
          ∙ at-closing (i - q)
          ∙ at-repeat n b'`' (i - q) rest (omega (arith, l, k))

      stop : at (before ++ behind) (q + n) ≢ b'`'
      stop f = stops (
          sym (at-append (repeat n b'`') rest 0)
          ∙ ap (at closing) {x = length (repeat n b'`') + 0} {y = n}
              (omega (arith, length-repeat n b'`'))
          ∙ sym (at-closing n)
          ∙ f)

      zero_or : (length (padded b text) ≡ 0) ⊎ (0 < length (padded b text))
      zero_or = ground arith

      start :
          (length (padded b text) ≡ 0) ⊎ (0 < length (padded b text))
          → (q ≡ length before) ⊎ (at (before ++ behind) (q - 1) ≢ b'`')
      start (inl z) = inl (omega (arith, z))
      start (inr h) = inr (λ f. padded_last b text last (
          sym (at-left (padded b text) closing (length (padded b text) - 1) (omega (arith, h)))
          ∙ sym (at_padded (length (padded b text) - 1))
          ∙ ap (at (before ++ behind)) {x = length before + (length (padded b text) - 1)}
              {y = q - 1} (omega (arith, h))
          ∙ f))

  pub Closes-closing :
      (r : ℕ)
      → Closes (before ++ (padded b text ++ (repeat n b'`' ++ rest))) (length before) n r
      → r ≡ length before + length (padded b text) + n
  Closes-closing r (inl (z, no_run)) = absurd (no_run _ closing-IsRun)
  Closes-closing r (inr (q, e, run, least)) =
      omega (arith, e, least _ closing-IsRun, not_before split)
    where
      split :
          (q < length before + length (padded b text))
          ⊎ (length before + length (padded b text) ≤ q)
      split = ground arith

      not_before :
          (q < length before + length (padded b text))
            ⊎ (length before + length (padded b text) ≤ q)
          → length before + length (padded b text) ≤ q
      not_before (inr h) = h
      not_before (inl h) = absurd (
          no_early b text closing n (q - length before) last none_in
            (shift-IsRun before behind n q run) (omega (arith, h, run.0)))
