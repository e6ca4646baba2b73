-- ===== src/Utf8/Check.antt =====
-- `cmark_utf8proc_check`, which copies a line in spans, against a description character by character.
pub mod Loop
use swift_cmark.Base.{
  Bytes, [], ap, arith, at, drop, inl, inr, length, length-append, length-take, neg, negsuc, pos,
  refl, subst, suc, sym, take, take-append-drop, zero, ℕ, ◌++◌, ◌<◌, ◌∙◌, ◌∷◌, ◌≡◌, ◌≢◌, ◌≤◌, ◌⊎◌,
}
use swift_cmark.Utf8.{valid, replacement}
use swift_cmark.Utf8.Valid.{valid_bounds, valid-append}

-- The text begins with a character of `n` bytes that is passed: valid UTF-8, and not NUL.
pub record Passes (s : Bytes) (n : ℕ) : Type 0 where
  pub is_valid : valid s ≡ pos n
  pub not_nul : at s 0 ≢ 0
  pub not_empty : 0 < n
  pub fits : n ≤ length s

-- The text begins with `n` bytes that are replaced: no UTF-8, or a NUL.
pub record Refused (s : Bytes) (n : ℕ) : Type 0 where
  pub why : (valid s ≡ neg n) ⊎ ((at s 0 ≡ 0) × (n ≡ 1))
  pub not_empty : 0 < n
  pub fits : n ≤ length s

pub data Sanitized : Bytes → Bytes → Type 0 where
  end : Sanitized [] []
  keep :
      {s out : Bytes} (n : ℕ)
      → Passes s n
      → Sanitized (drop n s) out
      → Sanitized s (take n s ++ out)
  replace :
      {s out : Bytes} (n : ℕ)
      → Refused s n
      → Sanitized (drop n s) out
      → Sanitized s (replacement ++ out)

-- UTF-8 with no NUL.
pub data IsClean : Bytes → Type 0 where
  nil : IsClean []
  char : {s : Bytes} (n : ℕ) → Passes s n → IsClean (drop n s) → IsClean s

drop-append : (n : ℕ) (s t : Bytes) → n ≤ length s → drop n (take n s ++ t) ≡ t
drop-append zero s t h = refl
drop-append (suc n) [] t h = absurd (omega arith)
drop-append (suc n) (c ∷ s) t h = drop-append n s t (omega arith)

at-take_append : (n : ℕ) (s t : Bytes) → 0 < n → n ≤ length s → at (take n s ++ t) 0 ≡ at s 0
at-take_append zero s t p h = absurd (omega arith)
at-take_append (suc n) [] t p h = absurd (omega arith)
at-take_append (suc n) (c ∷ s) t p h = refl

not_nil : (s : Bytes) (n : ℕ) → 0 < n → n ≤ length s → s ≢ []
not_nil [] n p h = absurd (omega arith)
not_nil (c ∷ s) n p h = cc

pub Passes-append : (s t : Bytes) (n : ℕ) → Passes s n → Passes (take n s ++ t) n
Passes-append s t n c = record {
  is_valid = valid-append s t n (not_nil s n c.not_empty c.fits) c.is_valid;
  not_nul = rw (at-take_append n s t c.not_empty c.fits) c.not_nul;
  not_empty = c.not_empty;
  fits = omega (arith, length-append (take n s) t, length-take n s, c.fits);
}

Passes-replacement : (t : Bytes) → Passes (replacement ++ t) 3
unfolding valid
Passes-replacement t = record {
  is_valid = ground arith;
  not_nul = ground arith;
  not_empty = omega arith;
  fits = omega arith;
}

-- What is copied or put in is UTF-8 with no NUL.
pub Sanitized-IsClean : {s out : Bytes} → Sanitized s out → IsClean out
Sanitized-IsClean end = nil
Sanitized-IsClean (keep {s} {out} n c r) =
    char n (Passes-append s out n c) (rw (drop-append n s out c.fits) (Sanitized-IsClean r))
Sanitized-IsClean (replace {out} n c r) = char 3 (Passes-replacement out) (Sanitized-IsClean r)

Passes-not-Refused : {s : Bytes} {n k : ℕ} → Passes s n → Refused s k → ⊥
Passes-not-Refused {k = zero} c r = absurd (omega (arith, r.not_empty))
Passes-not-Refused {k = suc k} c r = elim r.why [
  | inl e ↦ let both : negsuc k ≡ pos _ = sym e ∙ c.is_valid in cc
  | inr z ↦ c.not_nul z.0
]

-- Nothing is changed in UTF-8 with no NUL.
pub Sanitized_id : {s out : Bytes} → IsClean s → Sanitized s out → out ≡ s
Sanitized_id nil end = refl
Sanitized_id nil (keep n c r) = absurd (omega (arith, c.fits, c.not_empty))
Sanitized_id nil (replace n c r) = absurd (omega (arith, c.fits, c.not_empty))
Sanitized_id (char n c r) end = absurd (omega (arith, c.fits, c.not_empty))
Sanitized_id (char {s} n c r) (keep {out} m d q) =
    let both : pos n ≡ pos m = sym c.is_valid ∙ d.is_valid in
    let e : n ≡ m = cc in
    ap (λ (t : Bytes). take m s ++ t) (Sanitized_id (subst (λ (k : ℕ). IsClean (drop k s)) e r) q)
    ∙ take-append-drop m s
Sanitized_id (char n c r) (replace m d q) = absurd (Passes-not-Refused c d)
