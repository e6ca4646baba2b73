-- ===== src/Inline/Backticks/Normal.antt =====
-- The text of a code span.
use swift_cmark.Base.{
  All, Bool, Bytes, [], arith, at, drop, false, if◌then◌else◌, length, not, refl, take, true, ℕ,
  ◌&&◌, ◌-◌, ◌==◌, ◌||◌, ◌∷◌, ◌≡◌, ◌≢◌,
}
use swift_cmark.Inline.Backticks.{code_loop, normalize_code}

abbrev pub to_space : ℕ → ℕ
to_space c = if c == b'\n' then b' ' else c

-- Each newline as a space.
abbrev pub spaced : Bytes → Bytes
spaced [] = []
spaced (c ∷ s) = to_space c ∷ spaced s

abbrev pub has_nonspace : Bytes → Bool
has_nonspace [] = false
has_nonspace (c ∷ s) = not (c == b' ') || has_nonspace s

-- One space less at both ends, where there is one at both, and more than spaces.
abbrev pub stripped : Bytes → Bytes
stripped t =
    if has_nonspace t && at t 0 == b' ' && at t (length t - 1) == b' '
    then take (length t - 2) (drop 1 t)
    else t

code_loop-spaced :
    (s : Bytes)
    → All (λ c. c ≢ b'\r') s
    → (code_loop true s).0 ≡ spaced s × ((code_loop true s).1 ≡ has_nonspace (spaced s))
unfolding code_loop
code_loop-spaced [] h = (refl, refl)
code_loop-spaced (c ∷ s) (h, hs) =
    let (e, f) = code_loop-spaced s hs in
    let plain : (c == b'\r') ≡ false = ground (arith, h) in rw (plain, e, f) (refl, refl)

-- Without carriage returns, the text of a code span is the source with newlines as spaces, and one
-- space less at both ends if both have one and something other than spaces is in it.
pub normalize_code-stripped :
    (s : Bytes) → All (λ c. c ≢ b'\r') s → normalize_code s ≡ stripped (spaced s)
unfolding normalize_code
normalize_code-stripped s h = let (e, f) = code_loop-spaced s h in rw (e, f) refl
