-- ===== src/Node/Links/WellLinked.antt =====
-- The invariant of the links, and that unlinking a node keeps it.
use swift_cmark.Base.{
  ==_iff, Bool-cases, arith, if◌then◌else◌, inl, inr, none, some, subst, suc, sym, true, ℕ, ◌<◌,
  ◌==◌, ◌↔◌, ◌∙◌, ◌≡◌, ◌≢◌, ◌⊎◌,
}
use swift_cmark.Node.{Node}
use swift_cmark.Node.Links.{Store, unlink}
use swift_cmark.Node.Links.Ancestors.{Depth, root, below}
use swift_cmark.Node.Links.Pointwise.{Unlinked, Loose, unlink_other, unlink_self}

-- The links between `a` and `b` agree: as neighbours, and as a parent and its first, last or other child.
abbrev pub Agrees : Node → Node → ℕ → ℕ → Type 0
Agrees m n a b =
    (m.next ≡ some b → (n.prev ≡ some a) × (n.parent ≡ m.parent))
    × (n.prev ≡ some a → m.next ≡ some b)
    × (m.first_child ≡ some b → (n.parent ≡ some a) × (n.prev ≡ none))
    × (m.last_child ≡ some b → (n.parent ≡ some a) × (n.next ≡ none))
    × (n.parent ≡ some a → n.prev ≡ none → m.first_child ≡ some b)
    × (n.parent ≡ some a → n.next ≡ none → m.last_child ≡ some b)

-- No node is its own neighbour or parent.
abbrev pub NoLoop : Node → ℕ → Type 0
NoLoop m a = (m.next ≢ some a) × (m.prev ≢ some a) × (m.parent ≢ some a)

-- Neighbours stand in the order of `rank`.
abbrev pub Ranked : Node → ℕ → ℕ → (ℕ → ℕ) → Type 0
Ranked m a b rank = m.next ≡ some b → rank a < rank b

-- A node has both a first and a last child, or neither.
abbrev pub BothEnds : Node → Type 0
BothEnds m = (m.first_child ≡ none) ↔ (m.last_child ≡ none)

-- All links agree, and neither siblings nor ancestors run in a cycle.
unfoldable pub WellLinked : Store → Type 0
WellLinked s =
    (rank : ℕ → ℕ) × ((a b : ℕ) → Agrees (s a) (s b) a b × Ranked (s a) a b rank)
    × ((a : ℕ) → BothEnds (s a))
    × ((a : ℕ) → (n : ℕ) × Depth s a n)

pub parent_other : {s : Store} {a n : ℕ} → Depth s a n → (s a).parent ≢ some a
parent_other (root e) h = cc
parent_other {s} {a} (below {p} e d) h =
    let same : a ≡ p = some_eq (sym h ∙ e) in
    parent_other d (subst (λ x. (s x).parent ≡ some x) same h)
  where
    some_eq : {x y : ℕ} → some x ≡ some y → x ≡ y
    some_eq k = cc

pub Ranked-NoLoop :
    (m : Node) (a : ℕ) (rank : ℕ → ℕ)
    → m.parent ≢ some a
    → Agrees m m a a × Ranked m a a rank
    → NoLoop m a
Ranked-NoLoop m a rank h (g, r) = (ground arith, ground arith, h)

others-Agrees :
    (d x y x' y' : Node) (n a b : ℕ)
    → a ≢ n
    → b ≢ n
    → NoLoop d n
    → NoLoop x a
    → NoLoop y b
    → Agrees x y a b
    → Agrees d x n a
    → Agrees x d a n
    → Agrees d y n b
    → Agrees y d b n
    → Unlinked d n x a x'
    → Unlinked d n y b y'
    → Agrees x' y' a b
others-Agrees d x y x' y' n a b p q l lx ly g g1 g2 g3 g4 u v =
    (ground arith, ground arith, ground arith, ground arith, ground arith, ground arith)

Loose-Agrees :
    (d e y y' : Node) (n b : ℕ)
    → b ≢ n
    → NoLoop d n
    → NoLoop y b
    → Agrees d y n b
    → Agrees y d b n
    → Loose d e
    → Unlinked d n y b y'
    → Agrees e y' n b × Agrees y' e b n
Loose-Agrees d e y y' n b p l ly g h o u = (
  (ground arith, ground arith, ground arith, ground arith, ground arith, ground arith),
  (ground arith, ground arith, ground arith, ground arith, ground arith, ground arith),
)

Loose-alone : (d e : Node) (n : ℕ) → NoLoop d n → Agrees d d n n → Loose d e → Agrees e e n n
Loose-alone d e n l g o = ground arith

pub same_or_not : (a b : ℕ) → (a ≡ b) ⊎ (a ≢ b)
same_or_not a b = ground arith

others-Ranked :
    (d x x' : Node) (n a b : ℕ) (rank : ℕ → ℕ)
    → Agrees x d a n
    → Ranked x a b rank
    → Ranked x a n rank
    → Ranked d n b rank
    → Unlinked d n x a x'
    → Ranked x' a b rank
others-Ranked d x x' n a b rank g r1 r2 r3 u = ground arith

others-BothEnds :
    (d x x' : Node) (n a : ℕ) → Agrees x d a n → BothEnds x → Unlinked d n x a x' → BothEnds x'
others-BothEnds d x x' n a g e u = ground arith

Loose-Ranked : (d e : Node) (n b : ℕ) (rank : ℕ → ℕ) → Loose d e → Ranked e n b rank
Loose-Ranked d e n b rank o = ground arith

Loose-BothEnds : (d e : Node) → BothEnds d → Loose d e → BothEnds e
Loose-BothEnds d e h o = ground arith

pub ==_refl : (a : ℕ) → (a == a) ≡ true
==_refl a = ground arith

unlink-Depth :
    (s : Store) (node : ℕ) {b n : ℕ}
    → ((c : ℕ) → (unlink s node c).parent ≡ (if c == node then none else (s c).parent))
    → Depth s b n
    → (m : ℕ) × Depth (unlink s node) b m
unlink-Depth s node {b} parents (root e) = (0, root (ground (arith, parents b, e)))
unlink-Depth s node {b} parents (below e d) = elim (Bool-cases (b == node)) [
  | inl same ↦ (0, root (ground (arith, parents b, same)))
  | inr other ↦
      let (m, d') = unlink-Depth s node parents d in
      (suc m, below (ground (arith, parents b, other, e)) d')
]

pub WellLinked-NoLoop : (s : Store) → WellLinked s → (a : ℕ) → NoLoop (s a) a
unfolding WellLinked
WellLinked-NoLoop s (rank, links, ends, deep) a =
    Ranked-NoLoop (s a) a rank (parent_other (deep a).1) (links a a)

pub unlink_parents :
    (s : Store) (node : ℕ)
    → NoLoop (s node) node
    → (c : ℕ) → (unlink s node c).parent ≡ (if c == node then none else (s c).parent)
unlink_parents s node l c = elim (Bool-cases (c == node)) [
  | inl same ↦ rw ((==_iff c node).0 same) (rw (==_refl node) (unlink_self s node l.2 l.1 l.0).2)
  | inr ne ↦ rw ne (unlink_other s node c (ground arith) l.1 l.0).2
]

-- Two stores, the second with `node` unlinked.
module _ (s t : Store) (node : ℕ) (rank : ℕ → ℕ)
    (links : (a b : ℕ) → Agrees (s a) (s b) a b × Ranked (s a) a b rank)
    (loops : (a : ℕ) → NoLoop (s a) a) (self : Loose (s node) (t node))
    (other : (b : ℕ) → b ≢ node → Unlinked (s node) node (s b) b (t b)) where
  abbrev Pair : ℕ → ℕ → Type 0
  Pair a b = Agrees (t a) (t b) a b × Ranked (t a) a b rank

  with_self : (b : ℕ) → b ≢ node → Pair node b × Pair b node
  with_self b ne =
      let (p, q) =
        Loose-Agrees (s node) (t node) (s b) (t b) node b ne (loops node) (loops b) (links node b).0
          (links b node).0 self (other b ne) in
      (
        (p, Loose-Ranked (s node) (t node) node b rank self),
        (
          q,
          others-Ranked (s node) (s b) (t b) node b node rank (links b node).0 (links b node).1
              (links b node).1 (links node node).1 (other b ne),
        ),
      )

  from_self : (b : ℕ) → Pair node b
  from_self b = elim (same_or_not b node) [
    | inl e ↦ subst (Pair node) (sym e) (
      Loose-alone (s node) (t node) node (loops node) (links node node).0 self,
      Loose-Ranked (s node) (t node) node node rank self,
    )
    | inr ne ↦ (with_self b ne).0
  ]

  others : (a b : ℕ) → a ≢ node → b ≢ node → Pair a b
  others a b ne ne' = (
    others-Agrees (s node) (s a) (s b) (t a) (t b) node a b ne ne' (loops node) (loops a) (loops b)
        (links a b).0 (links node a).0 (links a node).0 (links node b).0 (links b node).0
        (other a ne) (other b ne'),
    others-Ranked (s node) (s a) (t a) node a b rank (links a node).0 (links a b).1 (links a node).1
        (links node b).1 (other a ne),
  )

  unlinked-Pair : (a b : ℕ) → Pair a b
  unlinked-Pair a b = elim (same_or_not a node) [
    | inl e ↦ subst (λ x. Pair x b) (sym e) (from_self b)
    | inr ne ↦ elim (same_or_not b node) [
      | inl e ↦ subst (Pair a) (sym e) (with_self a ne).1
      | inr ne' ↦ others a b ne ne'
    ]
  ]

  unlinked-BothEnds : ((a : ℕ) → BothEnds (s a)) → (a : ℕ) → BothEnds (t a)
  unlinked-BothEnds ends a = elim (same_or_not a node) [
    | inl e ↦
        subst (λ x. BothEnds (t x)) (sym e) (Loose-BothEnds (s node) (t node) (ends node) self)
    | inr ne ↦ others-BothEnds (s node) (s a) (t a) node a (links a node).0 (ends a) (other a ne)
  ]

-- Unlinking any node of a well-linked store leaves a well-linked store, in which the node has no
-- neighbours and no parent and the same first and last child.
pub unlink-WellLinked :
    (s : Store) (node : ℕ)
    → WellLinked s
    → WellLinked (unlink s node) × Loose (s node) (unlink s node node)
unfolding WellLinked
unlink-WellLinked s node (rank, links, ends, deep) =
    let l = loops node in
    let self = unlink_self s node l.2 l.1 l.0 in
    let other = λ (b : ℕ) (ne : b ≢ node). unlink_other s node b ne l.1 l.0 in
    let parents = unlink_parents s node l in
    let t = unlink s node in
    (
      (
        rank,
        unlinked-Pair s t node rank links loops self other,
        unlinked-BothEnds s t node rank links loops self other ends,
        λ a. unlink-Depth s node parents (deep a).1,
      ),
      self,
    )
  where
    loops : (a : ℕ) → NoLoop (s a) a
    loops a = Ranked-NoLoop (s a) a rank (parent_other (deep a).1) (links a a)
