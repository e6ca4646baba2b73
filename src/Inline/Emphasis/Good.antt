-- ===== src/Inline/Emphasis/Good.antt =====
-- The invariant of the loop, and what a round may do.
use swift_cmark.Base.{
  All, Bool-cases, List, [], arith, inl, inr, none, some, suc, true, ℕ, ◌++◌, ◌+◌, ◌-◌, ◌<◌, ◌==◌,
  ◌∷◌, ◌≡◌, ◌≤◌, ◌⊎◌,
}
use swift_cmark.Inline.Emphasis.{
  Delimiter, Change, emph, quote, Stack, is_emph_char, is_match, keep, use_chars, use_delims, work,
}
use swift_cmark.Inline.Emphasis.Rounds.{IsLive}
use swift_cmark.Inline.Emphasis.Sorted.{Falls, Rises, Falls-weaken, Rises-weaken}

-- A live delimiter above the bottom, at a position with `P`.
abbrev pub Within : (ℕ → Type 0) → ℕ → Delimiter → Type 0
Within P stack_bottom d = IsLive d × (stack_bottom ≤ d.position) × P d.position

-- The stack is some sorted delimiters on the base, and sorted ones to come.
abbrev pub IsGood : (ℕ → Type 0) → ℕ → List Delimiter → Stack → Type 0
IsGood P stack_bottom base s =
    (up : List Delimiter) × (mid : ℕ) × (s.before ≡ up ++ base)
    × All (Within P stack_bottom) up
    × All (Within P stack_bottom) s.from
    × Falls mid up
    × Rises mid s.from

abbrev pub Outside : ℕ → ℕ → ℕ → Type 0
Outside a b p = (p ≤ a) ⊎ (b ≤ p)

-- The delimiters of a change match, and it uses one or two characters that both have.
abbrev pub IsLegal : Change → Type 0
IsLegal (emph o c n) =
    (is_match c o ≡ true)
    × (c.can_close ≡ true)
    × (is_emph_char c.delim_char ≡ true)
    × (o.position ≤ c.position)
    × ((n ≡ 1) ⊎ (n ≡ 2))
    × (n ≤ o.chars)
    × (n ≤ c.chars)
IsLegal (quote none c) = c.can_close ≡ true
IsLegal (quote (some o) c) =
    (is_match c o ≡ true) × (c.can_close ≡ true) × (o.position ≤ c.position)

-- Both ends of a change are at positions with `P`.
abbrev pub EndsAt : (ℕ → Type 0) → Change → Type 0
EndsAt P (emph o c n) = P o.position × P c.position
EndsAt P (quote none c) = P c.position
EndsAt P (quote (some o) c) = P o.position × P c.position

-- After an emphasis no delimiter is left between its ends.
abbrev pub LeavesOutside : ℕ → List Delimiter → List Change → Stack → Type 0
LeavesOutside stack_bottom base [] s = Unit
LeavesOutside stack_bottom base (quote o c ∷ cs) s = LeavesOutside stack_bottom base cs s
LeavesOutside stack_bottom base (emph o c n ∷ cs) s =
    (cs ≡ []) × IsGood (Outside o.position c.position) stack_bottom base s

abbrev pub RoundGood :
    (ℕ → Type 0) → ℕ → List Delimiter → List Delimiter → List Change × Stack → Type 0
RoundGood P stack_bottom base from r =
    IsGood P stack_bottom base r.1
    × (work r.1.from < work from)
    × All IsLegal r.0
    × All (EndsAt P) r.0
    × LeavesOutside stack_bottom base r.0 r.1

pub All-map2 :
    {A : Type 0} {P Q R : A → Type 0}
    → ((x : A) → P x → Q x → R x)
    → (xs : List A) → All P xs
    → All Q xs
    → All R xs
All-map2 f [] p q = _
All-map2 f (x ∷ xs) (p, ps) (q, qs) = (f x p q, All-map2 f xs ps qs)

pub use_delims_bounds :
    (o c : Delimiter)
    → 0 < o.chars
    → 0 < c.chars
    → ((use_delims o c ≡ 1) ⊎ (use_delims o c ≡ 2))
      × (use_delims o c ≤ o.chars)
      × (use_delims o c ≤ c.chars)
use_delims_bounds o c h k = (ground arith, ground arith, ground arith)

module _ (P : ℕ → Type 0) (stack_bottom n : ℕ) (d : Delimiter) (ds : List Delimiter)
    (w : Within P stack_bottom d) where
  pub keep-Within :
      All (Within P stack_bottom) ds → All (Within P stack_bottom) (keep (use_chars n d) ds)
  keep-Within h = elim (Bool-cases (d.chars - n == 0)) [
    | inl e ↦ rw e h
    | inr e ↦ rw e (((w.0.0, ground (arith, e)), w.1, w.2), h)
  ]

  pub keep-Falls :
      (hi : ℕ) → d.position ≤ hi → Falls d.position ds → Falls hi (keep (use_chars n d) ds)
  keep-Falls hi le h = elim (Bool-cases (d.chars - n == 0)) [
    | inl e ↦ rw e (Falls-weaken d.position hi ds le h)
    | inr e ↦ rw e (le, h)
  ]

  pub keep-Rises :
      (lo : ℕ) → lo ≤ d.position → Rises d.position ds → Rises lo (keep (use_chars n d) ds)
  keep-Rises lo le h = elim (Bool-cases (d.chars - n == 0)) [
    | inl e ↦ rw e (Rises-weaken d.position lo ds le h)
    | inr e ↦ rw e (le, h)
  ]

  pub keep-work : 0 < n → work (keep (use_chars n d) ds) < suc (d.chars + work ds)
  keep-work h = elim (Bool-cases (d.chars - n == 0)) [
    | inl e ↦ rw e (omega arith)
    | inr e ↦ rw e (less (ground (arith, e)) (w.0.1))
  ]
    where
      less : 0 < d.chars - n → 0 < d.chars → suc (d.chars - n + work ds) < suc (d.chars + work ds)
      less a b = omega (arith, a, b, h)
