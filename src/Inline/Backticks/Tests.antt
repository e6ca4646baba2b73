-- ===== src/Inline/Backticks/Tests.antt =====
-- The search in "``` `x``y` ``z``", whose parts are three backticks, and code spans of one and of two.
use swift_cmark.Base.{
  Bytes, List, Option, [], arith, false, refl, some, suc, zero, ℕ, ◌>>=◌, ◌∷◌, ◌≡◌, ◌≤◌, ◌⊎◌,
}
use swift_cmark.Houdini.{span_length}
use swift_cmark.Inline.Backticks.{normalize_code, code_loop}
use swift_cmark.Inline.Backticks.Normal.{stripped, spaced, normalize_code-stripped}
use swift_cmark.Inline.Backticks.Closing.{NulFree}
use swift_cmark.Inline.Backticks.Search.{Searched, scan_to_closing_backticks-Searched}
use swift_cmark.Inline.Backticks.{Subject, closing_loop, scan_to_closing_backticks}
use swift_cmark.Inline.Backticks.{normalize_code, code_loop}
use swift_cmark.Inline.Backticks.Normal.{stripped, spaced, normalize_code-stripped}
use swift_cmark.Inline.Backticks.Closing.{NulFree}
use swift_cmark.Inline.Backticks.Search.{Searched, scan_to_closing_backticks-Searched}

abbrev zeros : ℕ → List ℕ
zeros zero = []
zeros (suc n) = 0 ∷ zeros n

abbrev ticks_text : Bytes
ticks_text =
    b'`' ∷ b'`' ∷ b'`' ∷ b' ' ∷ b'`' ∷ b'x' ∷ b'`' ∷ b'`' ∷ b'y' ∷ b'`' ∷ b' ' ∷ b'`' ∷ b'`' ∷ b'z'
    ∷ b'`' ∷ b'`' ∷ []

abbrev fresh_at : ℕ → Subject
fresh_at p = record {
  input = ticks_text;
  pos = p;
  backticks = zeros 81;
  scanned_for_backticks = false;
}

-- The results for three openers in turn, each search going on with what the one before remembers.
abbrev three_searches : Option (ℕ × ℕ × ℕ)
three_searches = do
  a ← scan_to_closing_backticks (fresh_at 3) 3
  b ← scan_to_closing_backticks (record (a.1) { pos = 5 }) 1
  c ← scan_to_closing_backticks (record (b.1) { pos = 13 }) 2
  some (a.0, b.0, c.0)

-- The last one is 0, although the run at 14 closes it.
forgotten : three_searches ≡ some (0, 10, 0)
unfolding scan_to_closing_backticks closing_loop span_length
forgotten = refl

-- Which a search that remembers nothing finds.
remembered : (scan_to_closing_backticks (fresh_at 13) 2 >>= λ c. some c.0) ≡ some 16
unfolding scan_to_closing_backticks closing_loop span_length
remembered = refl

ticks_text-NulFree : NulFree ticks_text
ticks_text-NulFree i h = ground arith

scan_example :
    ((fresh_at 3).scanned_for_backticks ≡ false
      → 3 ≤ 80
      → Searched (fresh_at 3) 3 (scan_to_closing_backticks (fresh_at 3) 3))
    × ((scan_to_closing_backticks (fresh_at 3) 3 ≡ some (0, fresh_at 3))
        ⊎ Searched (fresh_at 3) 3 (scan_to_closing_backticks (fresh_at 3) 3))
scan_example = scan_to_closing_backticks-Searched (fresh_at 3) 3 (omega arith) ticks_text-NulFree

-- ` a\n`
abbrev code_span : Bytes
code_span = b' ' ∷ b'a' ∷ b'\n' ∷ []

normalize_code_example : normalize_code code_span ≡ stripped (spaced code_span)
normalize_code_example = normalize_code-stripped code_span (omega arith)

-- A span of spaces stays as it is, but not one with a carriage return and a newline in it.
only_spaces : normalize_code (b' ' ∷ b'\n' ∷ b' ' ∷ []) ≡ b' ' ∷ b' ' ∷ b' ' ∷ []
unfolding normalize_code code_loop
only_spaces = refl

return_and_newline : normalize_code (b' ' ∷ b'\r' ∷ b'\n' ∷ b' ' ∷ []) ≡ b' ' ∷ []
unfolding normalize_code code_loop
return_and_newline = refl
