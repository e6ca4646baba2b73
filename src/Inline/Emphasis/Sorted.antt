-- ===== src/Inline/Emphasis/Sorted.antt =====
-- The order of the delimiters on the stack.
use swift_cmark.Base.{All, List, [], arith, ℕ, ◌++◌, ◌∷◌, ◌≤◌}
use swift_cmark.Inline.Emphasis.{Delimiter}

-- Positions that go down from `hi`, and up from `lo`.
abbrev pub Falls : ℕ → List Delimiter → Type 0
Falls hi [] = Unit
Falls hi (d ∷ ds) = (d.position ≤ hi) × Falls d.position ds

abbrev pub Rises : ℕ → List Delimiter → Type 0
Rises lo [] = Unit
Rises lo (d ∷ ds) = (lo ≤ d.position) × Rises d.position ds

pub Falls-weaken : (hi k : ℕ) (ds : List Delimiter) → hi ≤ k → Falls hi ds → Falls k ds
Falls-weaken hi k [] h f = _
Falls-weaken hi k (d ∷ ds) h (e, f) = (omega (arith, h, e), f)

pub Rises-weaken : (lo k : ℕ) (ds : List Delimiter) → k ≤ lo → Rises lo ds → Rises k ds
Rises-weaken lo k [] h f = _
Rises-weaken lo k (d ∷ ds) h (e, f) = (omega (arith, h, e), f)

pub Falls-suffix :
    (hi : ℕ) (xs : List Delimiter) (o : Delimiter) (ys : List Delimiter)
    → Falls hi (xs ++ o ∷ ys)
    → (o.position ≤ hi) × Falls o.position ys
Falls-suffix hi [] o ys h = h
Falls-suffix hi (x ∷ xs) o ys (e, f) =
    let (g, k) = Falls-suffix x.position xs o ys f in (omega (arith, e, g), k)

pub Falls-without :
    (hi : ℕ) (xs : List Delimiter) (o : Delimiter) (ys : List Delimiter)
    → Falls hi (xs ++ o ∷ ys)
    → Falls hi (xs ++ ys)
Falls-without hi [] o ys (e, f) = Falls-weaken o.position hi ys e f
Falls-without hi (x ∷ xs) o ys (e, f) = (e, Falls-without x.position xs o ys f)

pub Falls-All : (hi : ℕ) (ds : List Delimiter) → Falls hi ds → All (λ d. d.position ≤ hi) ds
Falls-All hi [] h = _
Falls-All hi (d ∷ ds) (e, f) = (e, Falls-All hi ds (Falls-weaken d.position hi ds e f))

pub Rises-All : (lo : ℕ) (ds : List Delimiter) → Rises lo ds → All (λ d. lo ≤ d.position) ds
Rises-All lo [] h = _
Rises-All lo (d ∷ ds) (e, f) = (e, Rises-All lo ds (Rises-weaken d.position lo ds e f))
