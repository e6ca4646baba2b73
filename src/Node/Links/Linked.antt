-- ===== src/Node/Links/Linked.antt =====
-- Two stores, the second with the loose node `child` linked as the last child of `node`.
use swift_cmark.Base.{ap, inl, inr, subst, sym, ℕ, ◌≡◌, ◌≢◌}
use swift_cmark.Node.Links.{Store}
use swift_cmark.Node.Links.LastChild.{Beside, Placed}
use swift_cmark.Node.Links.WellLinked.{Agrees, BothEnds, Ranked, same_or_not}
use swift_cmark.Node.Links.Placing.{
  IsLoose, Beside-Agrees, Beside-Placed-Agrees, Placed-alone, last_not_loose, new_rank,
  Beside-Ranked, Beside-BothEnds, Placed-BothEnds, Placed-Ranked, not_next,
}

last_at : (u : Store) {a n : ℕ} → a ≡ n → (u a).last_child ≡ (u n).last_child
last_at u e = ap (λ x. (u x).last_child) e

first_at : (u : Store) {a n : ℕ} → a ≡ n → (u a).first_child ≡ (u n).first_child
first_at u e = ap (λ x. (u x).first_child) e

module _ (u v : Store) (node child : ℕ) where
  pub linked-BothEnds :
      ((a : ℕ) → BothEnds (u a))
      → ((b : ℕ) → b ≢ child → Beside (u node) node child (u b) b (v b))
      → Placed (u node) node (u child) (v child)
      → (a : ℕ) → BothEnds (v a)
  linked-BothEnds ends beside placed a = elim (same_or_not a child) [
    | inl e ↦
        subst (λ x. BothEnds (v x)) (sym e)
          (Placed-BothEnds (u child) (u node) (v child) node (ends child) placed)
    | inr na ↦
        Beside-BothEnds (u node) (u a) (v a) node child a (λ q. last_at u q) (ends a) (beside a na)
  ]

  module _ (rank : ℕ → ℕ) (ne : node ≢ child) (ends : BothEnds (u node))
      (links : (a b : ℕ) → Agrees (u a) (u b) a b × Ranked (u a) a b rank)
      (loose : IsLoose (u child))
      (beside : (b : ℕ) → b ≢ child → Beside (u node) node child (u b) b (v b))
      (placed : Placed (u node) node (u child) (v child)) where
    with_child :
        (a : ℕ) → a ≢ child → Agrees (v a) (v child) a child × Agrees (v child) (v a) child a
    with_child a na =
        Beside-Placed-Agrees (u child) (u node) (u a) (v a) (v child) node child a na ne
          (λ q. last_at u q) loose (links a child).0 (links child a).0 (links node a).0
          (beside a na) placed

    from_child : (b : ℕ) → Agrees (v child) (v b) child b
    from_child b = elim (same_or_not b child) [
      | inl e ↦
          subst (λ x. Agrees (v child) (v x) child x) (sym e)
            (Placed-alone (u child) (u node) (v child) node child ne loose
              (last_not_loose (u node) (u child) node child loose (links node child).0)
              (links child child).0 placed)
      | inr nb ↦ (with_child b nb).1
    ]

    pub linked-Agrees : (a b : ℕ) → Agrees (v a) (v b) a b
    linked-Agrees a b = elim (same_or_not a child) [
      | inl e ↦ subst (λ x. Agrees (v x) (v b) x b) (sym e) (from_child b)
      | inr na ↦ elim (same_or_not b child) [
        | inl e ↦ subst (λ x. Agrees (v a) (v x) a x) (sym e) (with_child a na).0
        | inr nb ↦
            Beside-Agrees (u child) (u node) (u a) (u b) (v a) (v b) node child a b na nb
              (λ q. last_at u q) (λ q. first_at u q) ends loose (links a b).0 (links node a).0
              (links node b).0 (beside a na) (beside b nb)
      ]
    ]

    pub linked-Ranked : (a b : ℕ) → Ranked (v a) a b (new_rank (u node).last_child child rank)
    linked-Ranked a b = elim (same_or_not a child) [
      | inl e ↦
          subst (λ x. Ranked (v x) x b (new_rank (u node).last_child child rank)) (sym e)
            (Placed-Ranked (u child) (u node) (v child) node child b
              (new_rank (u node).last_child child rank) placed)
      | inr na ↦
          Beside-Ranked (u node) (u a) (v a) node child a b rank na (links a b).1
            (not_next (u child) (u a) a child loose (links a child).0) (beside a na)
    ]
