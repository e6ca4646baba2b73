-- ===== src/Node/Links/Ancestors.antt =====
-- The ancestor check: it ends on a finite chain, and what passes it makes no cycle.
use swift_cmark.Base.{
  Bool, Bool-cases, Option, Option-cases, ap, arith, false, inl, inr, none, not, refl, some, subst,
  suc, sym, true, zero, ℕ, ◌&&◌, ◌<◌, ◌==◌, ◌↔◌, ◌∙◌, ◌≡◌,
}
use swift_cmark.Node.Types.{Containment, can_contain_type}
use swift_cmark.Node.Links.{Store, ancestor_loop, can_contain}

-- `a` is `b`, or reached from `b` by parent pointers, which end `n` nodes above `b`.
pub data AtOrAbove (s : Store) (a : ℕ) : ℕ → Type 0 where
  here : AtOrAbove s a a
  above : {b p : ℕ} → (s b).parent ≡ some p → AtOrAbove s a p → AtOrAbove s a b

pub data Depth (s : Store) : ℕ → ℕ → Type 0 where
  root : {b : ℕ} → (s b).parent ≡ none → Depth s b 0
  below : {b p n : ℕ} → (s b).parent ≡ some p → Depth s p n → Depth s b (suc n)

-- On a chain of `n` ancestors, more than `n` of fuel gives an answer.
pub ancestor_loop_ends :
    {s : Store} {b n : ℕ} (fuel child : ℕ)
    → Depth s b n
    → n < fuel
    → (r : Bool) × (ancestor_loop fuel s b child ≡ some r)
unfolding ancestor_loop
ancestor_loop_ends zero child d lt = absurd (omega arith)
ancestor_loop_ends {s} {b} (suc fuel) child (root e) lt = elim (Bool-cases (b == child)) [
  | inl eq ↦ (true, rw (eq) refl)
  | inr ne ↦ (false, rw (ne, e) refl)
]
ancestor_loop_ends {s} {b} (suc fuel) child (below {p} e d) lt =
    let (r, eq) = ancestor_loop_ends fuel child d (omega arith) in
    elim (Bool-cases (b == child)) [
      | inl same ↦ (true, rw (same) refl)
      | inr ne ↦ (r, rw (ne, e) eq)
    ]

-- An answer of `false` excludes every ancestor and the node itself.
pub ancestor_loop_sound :
    {s : Store} {b : ℕ} (fuel child : ℕ)
    → ancestor_loop fuel s b child ≡ some false
    → AtOrAbove s child b
    → ⊥
unfolding ancestor_loop
ancestor_loop_sound zero child h a = ground arith
ancestor_loop_sound (suc fuel) child h here = ground arith
ancestor_loop_sound {s} {b} (suc fuel) child h (above {p} e a) =
    let go = ancestor_loop_sound {s = s} {b = p} fuel child in ground (arith, e, go)

-- An answer of `true` means that it is one of them.
pub ancestor_loop_found :
    {s : Store} {b : ℕ} (fuel child : ℕ)
    → ancestor_loop fuel s b child ≡ some true
    → AtOrAbove s child b
unfolding ancestor_loop
ancestor_loop_found zero child h = ground arith
ancestor_loop_found {s} {b} (suc fuel) child h = elim (Bool-cases (b == child)) [
  | inl same ↦ subst (λ c. AtOrAbove s c b) (same_number b child same) here
  | inr ne ↦ elim (Option-cases (s b).parent) [
    | inl e ↦ ground (arith, e, ne)
    | inr (p, e) ↦ above e (ancestor_loop_found fuel child (climb p e ne))
  ]
]
  where
    same_number : (x y : ℕ) → (x == y) ≡ true → x ≡ y
    same_number x y h = ground arith

    climb :
        (p : ℕ)
        → (s b).parent ≡ some p
        → (b == child) ≡ false
        → ancestor_loop fuel s p child ≡ some true
    climb p e ne = ground (arith, e, ne)

-- The answer, where the loop gives `r`.
can_contain_answer :
    (ext : Containment) (fuel : ℕ) (s : Store) (node child : ℕ) (r : Bool)
    → ancestor_loop fuel s node child ≡ some r
    → can_contain ext true fuel s node child
      ≡ some
          ((s node).mem == (s child).mem && not r && can_contain_type ext (s node) (s child).type)
unfolding can_contain
can_contain_answer ext fuel s node child r eq = ground (arith, eq)

guards_iff :
    (m k : ℕ) (r t : Bool) → ((m == k && not r && t) ≡ true) ↔ ((m ≡ k) × (r ≡ false) × (t ≡ true))
guards_iff m k r t = ground arith

above_iff :
    {s : Store} {b : ℕ} (fuel child : ℕ) (r : Bool)
    → ancestor_loop fuel s b child ≡ some r
    → (r ≡ false) ↔ (AtOrAbove s child b → ⊥)
above_iff fuel child true eq =
    (λ h. ground arith, λ f. absurd (f (ancestor_loop_found fuel child eq)))
above_iff fuel child false eq = (λ h. ancestor_loop_sound fuel child eq, λ f. refl)

split_guards :
    {A : Type 0} {o : Option Bool} {m k : ℕ} {b r t : Bool}
    → o ≡ some true
    → o ≡ some b
    → (b ≡ true) ↔ ((m ≡ k) × (r ≡ false) × (t ≡ true))
    → (r ≡ false) ↔ A
    → (m ≡ k) × A × (t ≡ true)
split_guards agreed answer guards allowed =
    let (e, f, g) = guards.0 (some_injective (sym answer ∙ agreed)) in (e, allowed.0 f, g)
  where
    some_injective : {x y : Bool} → some x ≡ some y → x ≡ y
    some_injective h = ground arith

-- With the safety checks on, and more fuel than `node` has ancestors, `can_contain` answers; the
-- answer is yes exactly if both nodes have one allocator, `child` is neither `node` nor an
-- ancestor of it, and the types allow it.
pub can_contain_iff :
    (ext : Containment) (fuel : ℕ) (s : Store) (node child n : ℕ)
    → Depth s node n
    → n < fuel
    → ((r : Bool) × (can_contain ext true fuel s node child ≡ some r))
      × ((can_contain ext true fuel s node child ≡ some true) ↔ (
          ((s node).mem ≡ (s child).mem)
          × (AtOrAbove s child node → ⊥)
          × (can_contain_type ext (s node) (s child).type ≡ true)))
unfolding can_contain
can_contain_iff ext fuel s node child n d lt =
    let (r, eq) = ancestor_loop_ends fuel child d lt in
    let answer = can_contain_answer ext fuel s node child r eq in
    let guards =
      guards_iff (s node).mem (s child).mem r (can_contain_type ext (s node) (s child).type) in
    let allowed = above_iff fuel child r eq in
    (
      (_, answer),
      (
        λ agreed. split_guards agreed answer guards allowed,
        λ (m, f, t). answer ∙ ap some (guards.1 (m, allowed.1 f, t)),
      ),
    )
