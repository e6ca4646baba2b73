-- ===== src/Node/Links.antt =====
-- The links between nodes: `S_can_contain`, and the functions that unlink, insert, replace and add nodes.
pub mod Ancestors
pub mod Pointwise
pub mod WellLinked
pub mod LastChild
pub mod Placing
pub mod Linked
pub mod Append
use swift_cmark.Base.{
  Bool, Option, false, if◌then◌else◌, none, not, some, suc, true, zero, ℕ, ◌==◌, ◌>>=◌,
}
use swift_cmark.Node.{Node}
use swift_cmark.Node.Types.{Containment, can_contain_type}

abbrev pub Store : Type 0
Store = ℕ → Node

abbrev pub modify : ℕ → (Node → Node) → Store → Store
modify a f s = λ b. if b == a then f (s b) else s b

-- The assignments under `if (p)`.
abbrev pub modify_at : Option ℕ → (Node → Node) → Store → Store
modify_at none f s = s
modify_at (some a) f s = modify a f s

abbrev pub is_at : Option ℕ → ℕ → Bool
is_at none a = false
is_at (some b) a = b == a

-- The `do` loop from `cur` upwards: whether it meets `child`. `none` is an ancestor chain longer than
-- the fuel.
unfoldable pub ancestor_loop : ℕ → Store → ℕ → ℕ → Option Bool
ancestor_loop zero s cur child = none
ancestor_loop (suc fuel) s cur child =
    let rest : Option Bool = elim (s cur).parent [
      | none ↦ some false
      | some p ↦ ancestor_loop fuel s p child
    ] in
    if cur == child then some true else rest

-- `S_node_unlink`: the neighbours and the parent forget the node.
unfoldable pub unlink_neighbours : Store → ℕ → Store
unlink_neighbours s node =
    let s1 = modify_at (s node).prev (λ m. record m { next = (s node).next }) s in
    let s2 = modify_at (s1 node).next (λ m. record m { prev = (s1 node).prev }) s1 in
    let s3 =
      modify_at (s2 node).parent
        (λ m. if is_at m.first_child node then record m { first_child = (s2 node).next } else m)
        s2 in
    modify_at (s2 node).parent
      (λ m. if is_at m.last_child node then record m { last_child = (s3 node).prev } else m) s3

-- `cmark_node_unlink` on a node.
unfoldable pub unlink : Store → ℕ → Store
unlink s node =
    modify node (λ m. record m { next = none; prev = none; parent = none })
      (unlink_neighbours s node)

-- `ext` is what the extensions contain, `safety` is `S_safety_checks_enabled()`.
module _ (ext : Containment) (safety : Bool) (fuel : ℕ) where
  -- `S_can_contain` on two nodes.
  unfoldable pub can_contain : Store → ℕ → ℕ → Option Bool
  can_contain s node child = if not ((s node).mem == (s child).mem) then some false else do
    above ← if safety then ancestor_loop fuel s node child else some false
    if above then some false else some (can_contain_type ext (s node) (s child).type)

  -- The part of `cmark_node_insert_before` behind its guards.
  unfoldable pub link_before : Store → ℕ → ℕ → Store
  link_before s0 node sibling =
      let s = unlink_neighbours s0 sibling in
      let old_prev = (s node).prev in
      let s1 = modify_at old_prev (λ m. record m { next = some sibling }) s in
      let s2 = modify sibling (λ m. record m { prev = old_prev; next = some node }) s1 in
      let s3 = modify node (λ m. record m { prev = some sibling }) s2 in
      let parent = (s3 node).parent in
      let s4 = modify sibling (λ m. record m { parent = parent }) s3 in
      elim old_prev [
        | some p ↦ s4
        | none ↦ modify_at parent (λ m. record m { first_child = some sibling }) s4
      ]

  unfoldable pub link_after : Store → ℕ → ℕ → Store
  link_after s0 node sibling =
      let s = unlink_neighbours s0 sibling in
      let old_next = (s node).next in
      let s1 = modify_at old_next (λ m. record m { prev = some sibling }) s in
      let s2 = modify sibling (λ m. record m { next = old_next; prev = some node }) s1 in
      let s3 = modify node (λ m. record m { next = some sibling }) s2 in
      let parent = (s3 node).parent in
      let s4 = modify sibling (λ m. record m { parent = parent }) s3 in
      elim old_next [
        | some p ↦ s4
        | none ↦ modify_at parent (λ m. record m { last_child = some sibling }) s4
      ]

  unfoldable pub link_first : Store → ℕ → ℕ → Store
  link_first s0 node child =
      let s = unlink_neighbours s0 child in
      let old_first_child = (s node).first_child in
      let s1 =
        modify child (λ m. record m { next = old_first_child; prev = none; parent = some node })
          s in
      let s2 = modify node (λ m. record m { first_child = some child }) s1 in
      elim old_first_child [
        | some f ↦ modify f (λ m. record m { prev = some child }) s2
        | none ↦ modify node (λ m. record m { last_child = some child }) s2
      ]

  unfoldable pub link_last : Store → ℕ → ℕ → Store
  link_last s0 node child =
      let s = unlink_neighbours s0 child in
      let old_last_child = (s node).last_child in
      let s1 =
        modify child (λ m. record m { next = none; prev = old_last_child; parent = some node }) s in
      let s2 = modify node (λ m. record m { last_child = some child }) s1 in
      elim old_last_child [
        | some l ↦ modify l (λ m. record m { next = some child }) s2
        | none ↦ modify node (λ m. record m { first_child = some child }) s2
      ]

  -- What the two insertions do with a guard, `node`'s parent having been asked.
  abbrev insert_with : (Store → ℕ → ℕ → Store) → Store → ℕ → ℕ → Option (Bool × Store)
  insert_with link s node sibling = elim (s node).parent [
    | none ↦ some (false, s)
    | some p ↦ can_contain s p sibling >>= λ ok.
        some (if ok then (true, link s node sibling) else (false, s))
  ]

  -- `cmark_node_insert_before`, `cmark_node_insert_after`
  unfoldable pub insert_before : Store → ℕ → ℕ → Option (Bool × Store)
  insert_before s node sibling = insert_with link_before s node sibling

  unfoldable pub insert_after : Store → ℕ → ℕ → Option (Bool × Store)
  insert_after s node sibling = insert_with link_after s node sibling

  -- `cmark_node_replace`
  unfoldable pub replace : Store → ℕ → ℕ → Option (Bool × Store)
  replace s oldnode newnode = insert_before s oldnode newnode >>= λ r.
      some (if r.0 then (true, unlink r.1 oldnode) else (false, r.1))

  -- `cmark_node_prepend_child`, `cmark_node_append_child`
  unfoldable pub prepend_child : Store → ℕ → ℕ → Option (Bool × Store)
  prepend_child s node child = can_contain s node child >>= λ ok.
      some (if ok then (true, link_first s node child) else (false, s))

  unfoldable pub append_child : Store → ℕ → ℕ → Option (Bool × Store)
  append_child s node child = can_contain s node child >>= λ ok.
      some (if ok then (true, link_last s node child) else (false, s))
