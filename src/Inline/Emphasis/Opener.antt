-- ===== src/Inline/Emphasis/Opener.antt =====
-- The opener that a search finds.
use swift_cmark.Base.{
  All, Bool-cases, List, Option-cases, [], ap, arith, false, inl, inr, ltb, none, refl, some, subst,
  sym, true, ℕ, ◌++◌, ◌<◌, ◌↔◌, ◌∙◌, ◌∷◌, ◌≡◌, ◌≤◌,
}
use swift_cmark.Inline.Emphasis.{Delimiter, Found, is_match, find_opener}

-- The stack below the bottom: the first of it is too low to be looked at.
abbrev pub IsBase : ℕ → List Delimiter → Type 0
IsBase stack_bottom [] = Unit
IsBase stack_bottom (d ∷ ds) = d.position < stack_bottom

some_eq {ℓ} : {A : Type ℓ} {x y : A} → some x ≡ some y → x ≡ y
some_eq h = cc

module _ (Q : Delimiter → Type 0) (base : List Delimiter) (low : ℕ) (closer : Delimiter) where
  -- The opener matches and stands above the base, as do those passed over and those below it.
  abbrev pub FoundAbove : List Delimiter → Found → Type 0
  FoundAbove up (between, opener, below) =
      (below_up : List Delimiter) × (below ≡ below_up ++ base)
      × All Q between
      × Q opener
      × All Q below_up
      × (is_match closer opener ≡ true)
      × (up ≡ between ++ opener ∷ below_up)

  find_base : IsBase low base → find_opener low closer base ≡ none
  unfolding find_opener
  find_base h = by_base base h
    where
      by_base : (ds : List Delimiter) → IsBase low ds → find_opener low closer ds ≡ none
      by_base [] h = refl
      by_base (d ∷ ds) h = let e : ltb d.position low ≡ true = ground arith in rw e refl

  pub find_above :
      IsBase low base
      → (up : List Delimiter) (f : Found) → All Q up
      → find_opener low closer (up ++ base) ≡ some f
      → FoundAbove up f
  unfolding find_opener
  find_above h [] f q e = absurd (clash (sym (find_base h) ∙ e))
    where
      clash : {A : Type 0} {x : A} → none ≡ some x → ⊥
      clash k = cc
  find_above h (d ∷ up) f (p, q) e = elim (Bool-cases (ltb d.position low)) [
    | inl t ↦ absurd (clash (rw t at e))
    | inr t ↦ elim (Bool-cases (is_match closer d)) [
      | inl m ↦ subst (FoundAbove (d ∷ up)) (some_eq (rw (t, m) at e)) (up, refl, _, p, q, m, refl)
      | inr m ↦ elim (Option-cases (find_opener low closer (up ++ base))) [
        | inl n ↦ absurd (clash (rw (t, m, n) at e))
        | inr (g, n) ↦
            subst (FoundAbove (d ∷ up)) (some_eq (rw (t, m, n) at e))
              (later g (find_above h up g q n))
      ]
    ]
  ]
    where
      clash : {A : Type 0} {x : A} → none ≡ some x → ⊥
      clash k = cc

      later : (g : Found) → FoundAbove up g → FoundAbove (d ∷ up) (d ∷ g.0, g.1, g.2)
      later (bt, o, bl) (b, i, j, k, l, m, n) = (b, i, (p, j), k, l, m, ap (◌∷◌ d) n)

-- What the comment on the search asks: the nearest delimiter down to `low` that matches.
abbrev pub IsNearest : ℕ → Delimiter → List Delimiter → Found → Type 0
IsNearest low closer ds (between, opener, below) =
    (ds ≡ between ++ opener ∷ below)
    × All (λ d. (low ≤ d.position) × (is_match closer d ≡ false)) between
    × (low ≤ opener.position)
    × (is_match closer opener ≡ true)

IsNearest-find_opener :
    (low : ℕ) (closer : Delimiter) (between : List Delimiter) (opener : Delimiter)
    (below : List Delimiter)
    → All (λ d. (low ≤ d.position) × (is_match closer d ≡ false)) between
    → low ≤ opener.position
    → is_match closer opener ≡ true
    → find_opener low closer (between ++ opener ∷ below) ≡ some (between, opener, below)
unfolding find_opener
IsNearest-find_opener low closer [] opener below _ l m =
    let t : ltb opener.position low ≡ false = ground arith in rw (t, m) refl
IsNearest-find_opener low closer (d ∷ ds) opener below ((k, n), h) l m =
    let t : ltb d.position low ≡ false = ground arith in
    rw (t, n, IsNearest-find_opener low closer ds opener below h l m) refl

find_opener-IsNearest :
    (low : ℕ) (closer : Delimiter) (ds : List Delimiter) (f : Found)
    → find_opener low closer ds ≡ some f
    → IsNearest low closer ds f
unfolding find_opener
find_opener-IsNearest low closer [] f e = absurd (clash e)
  where
    clash : {A : Type 0} {x : A} → none ≡ some x → ⊥
    clash k = cc
find_opener-IsNearest low closer (d ∷ ds) f e = elim (Bool-cases (ltb d.position low)) [
  | inl t ↦ absurd (clash (rw t at e))
  | inr t ↦ elim (Bool-cases (is_match closer d)) [
    | inl m ↦
        subst (IsNearest low closer (d ∷ ds)) (some_eq (rw (t, m) at e)) (refl, _, ground arith, m)
    | inr m ↦ elim (Option-cases (find_opener low closer ds)) [
      | inl n ↦ absurd (clash (rw (t, m, n) at e))
      | inr (g, n) ↦
          let (split, skipped, l, k) = find_opener-IsNearest low closer ds g n in
          subst (IsNearest low closer (d ∷ ds)) (some_eq (rw (t, m, n) at e))
            (ap (◌∷◌ d) split, ((ground arith, m), skipped), l, k)
    ]
  ]
]
  where
    clash : {A : Type 0} {x : A} → none ≡ some x → ⊥
    clash k = cc

-- The search backwards gives a delimiter, with those passed over and those below it, exactly if it
-- may open for the closer and stands at the lower bound or above, and all that were passed over do
-- the latter but may not open for the closer.
pub find_opener-iff-IsNearest :
    (low : ℕ) (closer : Delimiter) (ds : List Delimiter) (f : Found)
    → (find_opener low closer ds ≡ some f) ↔ IsNearest low closer ds f
find_opener-iff-IsNearest low closer ds f = (
  find_opener-IsNearest low closer ds f,
  λ (split, skipped, l, m).
      ap (find_opener low closer) split ∙ IsNearest-find_opener low closer f.0 f.1 f.2 skipped l m,
)
