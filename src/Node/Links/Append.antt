-- ===== src/Node/Links/Append.antt =====
-- Adding a child keeps the invariant.
use swift_cmark.Base.{
  Bool, arith, false, if◌then◌else◌, inl, inr, none, refl, some, subst, suc, sym, true, ℕ, ◌<◌,
  ◌==◌, ◌↔◌, ◌∙◌, ◌≡◌, ◌≢◌,
}
use swift_cmark.Node.Types.{Containment, can_contain_type}
use swift_cmark.Node.Links.Ancestors.{AtOrAbove, here, above, Depth, root, below, can_contain_iff}
use swift_cmark.Node.Links.{append_child, can_contain, link_last, unlink, Store}
use swift_cmark.Node.Links.LastChild.{Beside, link_last-Beside, link_last-Placed}
use swift_cmark.Node.Links.WellLinked.{
  unlink-WellLinked, WellLinked, WellLinked-NoLoop, unlink_parents, same_or_not,
}
use swift_cmark.Node.Links.Linked.{linked-Agrees, linked-Ranked, linked-BothEnds}
use swift_cmark.Node.Links.Placing.{IsLoose, last_not_loose, new_rank}

not_child : {u : Store} {b : ℕ} (child : ℕ) → (AtOrAbove u child b → ⊥) → b ≢ child
not_child {u} child f e = f (subst (AtOrAbove u child) (sym e) here)

-- The depths, where only the parent of `child` is new.
climb-Depth :
    {u v : Store} {b n : ℕ} (child : ℕ)
    → ((c : ℕ) → c ≢ child → (v c).parent ≡ (u c).parent)
    → Depth u b n
    → (AtOrAbove u child b → ⊥)
    → Depth v b n
climb-Depth {b} child same (root e) f = root (same b (not_child child f) ∙ e)
climb-Depth {b} child same (below e d) f =
    below (same b (not_child child f) ∙ e) (climb-Depth child same d (λ a. f (above e a)))

all-Depth :
    {u v : Store} {b n m : ℕ} (child node : ℕ)
    → ((c : ℕ) → c ≢ child → (v c).parent ≡ (u c).parent)
    → (v child).parent ≡ some node
    → Depth v node m
    → Depth u b n
    → (k : ℕ) × Depth v b k
all-Depth {v} {b} {m} child node same at_child dn (root e) = elim (same_or_not b child) [
  | inl eq ↦ (suc m, subst (λ x. Depth v x (suc m)) (sym eq) (below at_child dn))
  | inr ne ↦ (0, root (same b ne ∙ e))
]
all-Depth {v} {b} {m} child node same at_child dn (below e d) = elim (same_or_not b child) [
  | inl eq ↦ (suc m, subst (λ x. Depth v x (suc m)) (sym eq) (below at_child dn))
  | inr ne ↦
      let (k, d') = all-Depth child node same at_child dn d in (suc k, below (same b ne ∙ e) d')
]

above_unlinked :
    (s : Store) (child : ℕ) {b : ℕ}
    → ((c : ℕ) → (unlink s child c).parent ≡ (if c == child then none else (s c).parent))
    → AtOrAbove (unlink s child) child b
    → AtOrAbove s child b
above_unlinked s child parents here = here
above_unlinked s child parents (above {b} {p} e a) =
    above (ground (arith, parents b, e)) (above_unlinked s child parents a)

pub link_last-WellLinked :
    (ext : Containment) (safety : Bool) (fuel : ℕ) (s : Store) (node child : ℕ)
    → WellLinked s
    → (AtOrAbove s child node → ⊥)
    → WellLinked (link_last ext safety fuel s node child)
      × ((link_last ext safety fuel s node child child).parent ≡ some node)
      × ((link_last ext safety fuel s node child child).next ≡ none)
      × ((link_last ext safety fuel s node child node).last_child ≡ some child)
unfolding WellLinked
link_last-WellLinked ext safety fuel s node child w f =
    let ((rank, links, ends, deep), (l1, l2, l3, l4, l5)) = unlink-WellLinked s child w in
    let ne : node ≢ child = not_child child f in
    let loose : IsLoose (unlink s child child) = (l1, l2, l3) in
    let not_last = last_not_loose (u node) (u child) node child loose (links node child).0 in
    let placed = link_last-Placed ext safety fuel s node child ne not_last in
    let beside =
      λ (b : ℕ) (nb : b ≢ child). link_last-Beside ext safety fuel s node child b ne nb in
    let parents = λ (c : ℕ) (nc : c ≢ child). (beside c nc).2 in
    let base = climb-Depth child parents (deep node).1 not_above in
    (
      (
        new_rank (u node).last_child child rank,
        λ a b. (
          linked-Agrees u v node child rank ne (ends node) links loose beside placed a b,
          linked-Ranked u v node child rank ne (ends node) links loose beside placed a b,
        ),
        linked-BothEnds u v node child ends beside placed,
        λ a. all-Depth child node parents placed.2 base (deep a).1,
      ),
      placed.2,
      placed.0,
      in_node (beside node ne),
    )
  where
    u : Store
    u = unlink s child

    v : Store
    v = link_last ext safety fuel s node child

    not_above : AtOrAbove (unlink s child) child node → ⊥
    not_above a =
        f (above_unlinked s child (unlink_parents s child (WellLinked-NoLoop s w child)) a)

    in_node :
        Beside
          (unlink s child node)
          node
          child
          (unlink s child node)
          node
          (link_last ext safety fuel s node child node)
        → (link_last ext safety fuel s node child node).last_child ≡ some child
    in_node b = ground (arith, b)

-- With the safety checks on and more fuel than `node` has ancestors, adding a child to a well-
-- linked store always gives an answer and a well-linked store: the same one if the child is
-- refused, and otherwise one in which the child is the last child of the node.
pub append_child-WellLinked :
    (ext : Containment) (fuel : ℕ) (s : Store) (node child n : ℕ)
    → WellLinked s
    → Depth s node n
    → n < fuel
    → (r : Bool) × (t : Store) × (append_child ext true fuel s node child ≡ some (r, t))
      × WellLinked t
      × (r ≡ false → t ≡ s)
      × (r ≡ true
          → ((t child).parent ≡ some node)
            × ((t child).next ≡ none)
            × ((t node).last_child ≡ some child))
unfolding append_child
append_child-WellLinked ext fuel s node child n w d lt = let (r, e) = answer.0 in finish r e
  where
    answer :
        ((r : Bool) × (can_contain ext true fuel s node child ≡ some r))
        × ((can_contain ext true fuel s node child ≡ some true) ↔ (
            ((s node).mem ≡ (s child).mem)
            × (AtOrAbove s child node → ⊥)
            × (can_contain_type ext (s node) (s child).type ≡ true)))
    answer = can_contain_iff ext fuel s node child n d lt

    finish :
        (r : Bool)
        → can_contain ext true fuel s node child ≡ some r
        → (b : Bool) × (t : Store) × (append_child ext true fuel s node child ≡ some (b, t))
          × WellLinked t
          × (b ≡ false → t ≡ s)
          × (b ≡ true
              → ((t child).parent ≡ some node)
                × ((t child).next ≡ none)
                × ((t node).last_child ≡ some child))
    finish false e = (false, s, rw e refl, w, λ h. refl, λ h. ground (arith, h))
    finish true e =
        let (well, facts_parent, facts_next, facts_last) =
          link_last-WellLinked ext true fuel s node child w (answer.1.0 e).1 in
        (
          true,
          link_last ext true fuel s node child,
          rw e refl,
          well,
          λ h. ground (arith, h),
          λ h. (facts_parent, facts_next, facts_last),
        )
