-- ===== src/Buffer/Tests.antt =====
-- The buffer theorems at concrete buffers, with an allocator that pads with zeros.
use swift_cmark.Base.{
  Bytes, [], ap, arith, false, length, refl, some, suc, take, zero, ℕ, ◌++◌, ◌>>=◌, ◌∷◌, ◌≡◌, ◌≤◌,
}
use swift_cmark.Ctype.{isspace}
use swift_cmark.Buffer.{
  empty, init, oversize, Mem, Strbuf, contents, grow, put, trim, normalize_whitespace,
}
use swift_cmark.Buffer.Append.{IsValid, Grown, Holds, grow_lem, put_lem}
use swift_cmark.Buffer.InPlace.Normalize.{collapse, normalize_whitespace-collapse}
use swift_cmark.Buffer.Search.{swap, detach}

-- The block padded with zeros, or cut.
fitted : Bytes → ℕ → Bytes
fitted p zero = []
fitted [] (suc n) = 0 ∷ fitted [] n
fitted (c ∷ p) (suc n) = c ∷ fitted p n

length-fitted : (p : Bytes) (n : ℕ) → length (fitted p n) ≡ n
unfolding fitted
length-fitted p zero = refl
length-fitted [] (suc n) = ap suc (length-fitted [] n)
length-fitted (c ∷ p) (suc n) = ap suc (length-fitted p n)

take-fitted : (p : Bytes) (n : ℕ) → length p ≤ n → take (length p) (fitted p n) ≡ p
unfolding fitted
take-fitted [] zero h = refl
take-fitted [] (suc n) h = refl
take-fitted (c ∷ p) zero h = absurd (omega arith)
take-fitted (c ∷ p) (suc n) h = ap (λ (s : Bytes). c ∷ s) (take-fitted p n (omega arith))

abbrev zero_padded : Mem
zero_padded = record {
  realloc = fitted;
  length-realloc = length-fitted;
  take-realloc = take-fitted;
}

-- The buffer holds ` a  b `, and one more space in its block of eight.
abbrev spaced_text : Bytes
spaced_text = b' ' ∷ b'a' ∷ b' ' ∷ b' ' ∷ b'b' ∷ b' ' ∷ []

abbrev spaced : Strbuf
spaced = record { ptr = spaced_text ++ 0 ∷ 0 ∷ []; asize = 8; size = 6 }

spaced-IsValid : IsValid spaced
spaced-IsValid = record { fits = omega arith; sized = refl }

spaced-Holds : Holds spaced spaced_text
unfolding contents
spaced-Holds = record { contents_are = refl; valid = spaced-IsValid; terminated = refl }

abbrev more : Bytes
more = b'x' ∷ b'\\' ∷ b'*' ∷ []

grow_example : (b' : Strbuf) × (grow zero_padded spaced 20 ≡ some b') × Grown spaced 20 b'
grow_example =
    grow_lem zero_padded spaced 20 (omega arith) spaced-IsValid (omega arith) (omega arith)

put_example :
    (b' : Strbuf) × (put zero_padded spaced more ≡ some b') × Holds b' (contents spaced ++ more)
put_example = put_lem zero_padded spaced more spaced-IsValid refl (omega arith)

normalize_example : Holds (normalize_whitespace spaced) (collapse false spaced_text)
normalize_example = normalize_whitespace-collapse spaced-Holds

-- The results of trimming and collapsing.
trimmed : contents (trim spaced) ≡ b'a' ∷ b' ' ∷ b' ' ∷ b'b' ∷ []
unfolding contents trim isspace
trimmed = refl

collapsed : contents (normalize_whitespace spaced) ≡ b' ' ∷ b'a' ∷ b' ' ∷ b'b' ∷ b' ' ∷ []
unfolding contents normalize_whitespace isspace
collapsed = refl

-- A buffer made, exchanged and detached.
init-empty : init zero_padded 0 ≡ some empty
unfolding init
init-empty = refl

init_sized : (init zero_padded 20 >>= λ b. some b.asize) ≡ some 32
unfolding init grow oversize
init_sized = refl

swapped : swap spaced empty ≡ (empty, spaced)
unfolding swap
swapped = refl

detached : detach spaced ≡ (spaced.ptr, empty)
unfolding detach
detached = refl
