-- ===== src/Utf8/Valid.antt =====
-- The validator against the decoder, and what it depends on.
use swift_cmark.Base.{
  Bytes, IsBytes, Option, [], arith, length, negsuc, none, pos, refl, some, suc, take, ℕ, ◌++◌, ◌<◌,
  ◌↔◌, ◌∷◌, ◌≡◌, ◌≢◌, ◌≤◌,
}
use swift_cmark.Utf8.{iterate, valid}

-- The length that the decoder reports.
abbrev pub decoded_length : Bytes → Option ℕ
decoded_length s = elim (iterate s) [ none ↦ none | some (n, uc) ↦ some n ]

-- On a text of bytes that is not empty, the validator accepts a character of `n` bytes exactly if
-- the decoder decodes one of `n` bytes.
pub valid_iff-iterate :
    (s : Bytes) (n : ℕ) → IsBytes s → s ≢ [] → (valid s ≡ pos n) ↔ (decoded_length s ≡ some n)
unfolding iterate valid
valid_iff-iterate [] n h ne = absurd (ne refl)
valid_iff-iterate (a ∷ []) n h ne = ground arith
valid_iff-iterate (a ∷ b ∷ []) n h ne = ground arith
valid_iff-iterate (a ∷ b ∷ c ∷ []) n h ne = ground arith
valid_iff-iterate (a ∷ b ∷ c ∷ d ∷ t) n h ne = ground arith

pub valid_bounds : (s : Bytes) (n : ℕ) → s ≢ [] → valid s ≡ pos n → (0 < n) × (n ≤ length s)
unfolding valid
valid_bounds [] n ne e = absurd (ne refl)
valid_bounds (a ∷ []) n ne e = ground arith
valid_bounds (a ∷ b ∷ []) n ne e = ground arith
valid_bounds (a ∷ b ∷ c ∷ []) n ne e = ground arith
valid_bounds (a ∷ b ∷ c ∷ d ∷ t) n ne e = ground arith

-- A refusal says how many bytes to skip: at least one, and no more than there are.
pub valid_skip : (s : Bytes) (n : ℕ) → valid s ≡ negsuc n → s ≢ [] → suc n ≤ length s
unfolding valid
valid_skip [] n e ne = absurd (ne refl)
valid_skip (a ∷ []) n e ne = ground arith
valid_skip (a ∷ b ∷ []) n e ne = ground arith
valid_skip (a ∷ b ∷ c ∷ []) n e ne = ground arith
valid_skip (a ∷ b ∷ c ∷ d ∷ t) n e ne = ground arith

-- The verdict on a character does not depend on what follows it.
pub valid-append : (s t : Bytes) (n : ℕ) → s ≢ [] → valid s ≡ pos n → valid (take n s ++ t) ≡ pos n
unfolding valid
valid-append [] t n ne e = absurd (ne refl)
valid-append (a ∷ []) t n ne e = ground arith
valid-append (a ∷ b ∷ []) t n ne e = ground arith
valid-append (a ∷ b ∷ c ∷ []) t n ne e = ground arith
valid-append (a ∷ b ∷ c ∷ d ∷ r) t n ne e = ground arith
