-- ===== src/Node/Links/Pointwise.antt =====
-- The links of each node once one is unlinked.
use swift_cmark.Base.{arith, if◌then◌else◌, none, some, ℕ, ◌&&◌, ◌≡◌, ◌≢◌}
use swift_cmark.Node.{Node}
use swift_cmark.Node.Links.{Store, is_at, unlink_neighbours, unlink}

-- `d` itself, at `n`, once it is unlinked.
abbrev pub Loose : Node → Node → Type 0
Loose d e =
    (e.next ≡ none)
    × (e.prev ≡ none)
    × (e.parent ≡ none)
    × (e.first_child ≡ d.first_child)
    × (e.last_child ≡ d.last_child)

-- Node `x` at `c` as it is once `d`, at `n`, is unlinked.
abbrev pub Unlinked : Node → ℕ → Node → ℕ → Node → Type 0
Unlinked d n x c y =
    (y.next ≡ (if is_at d.prev c then d.next else x.next))
    × (y.prev ≡ (if is_at d.next c then d.prev else x.prev))
    × (y.parent ≡ x.parent)
    × (y.first_child
        ≡ (if is_at d.parent c && is_at x.first_child n then d.next else x.first_child))
    × (y.last_child ≡ (if is_at d.parent c && is_at x.last_child n then d.prev else x.last_child))

unlink_away : (s : Store) (node b : ℕ) → b ≢ node → unlink s node b ≡ unlink_neighbours s node b
unfolding unlink
unlink_away s node b ne = ground arith

unlink_next :
    (s : Store) (node b : ℕ)
    → (s node).prev ≢ some node
    → (s node).next ≢ some node
    → (unlink_neighbours s node b).next
      ≡ (if is_at (s node).prev b then (s node).next else (s b).next)
unfolding unlink_neighbours
unlink_next s node b p q = ground arith

unlink_prev :
    (s : Store) (node b : ℕ)
    → (s node).prev ≢ some node
    → (s node).next ≢ some node
    → (unlink_neighbours s node b).prev
      ≡ (if is_at (s node).next b then (s node).prev else (s b).prev)
unfolding unlink_neighbours
unlink_prev s node b p q = ground arith

unlink_parent :
    (s : Store) (node b : ℕ)
    → (s node).prev ≢ some node
    → (s node).next ≢ some node
    → (unlink_neighbours s node b).parent ≡ (s b).parent
unfolding unlink_neighbours
unlink_parent s node b p q = ground arith

unlink_first_child :
    (s : Store) (node b : ℕ)
    → (s node).prev ≢ some node
    → (s node).next ≢ some node
    → (unlink_neighbours s node b).first_child ≡ (
        if is_at (s node).parent b && is_at (s b).first_child node
        then (s node).next
        else (s b).first_child)
unfolding unlink_neighbours
unlink_first_child s node b p q = ground arith

unlink_last_child :
    (s : Store) (node b : ℕ)
    → (s node).prev ≢ some node
    → (s node).next ≢ some node
    → (unlink_neighbours s node b).last_child ≡ (
        if is_at (s node).parent b && is_at (s b).last_child node
        then (s node).prev
        else (s b).last_child)
unfolding unlink_neighbours
unlink_last_child s node b p q = ground arith

pub unlink_other :
    (s : Store) (node b : ℕ)
    → b ≢ node
    → (s node).prev ≢ some node
    → (s node).next ≢ some node
    → Unlinked (s node) node (s b) b (unlink s node b)
unlink_other s node b ne p q = rw (unlink_away s node b ne) (
  unlink_next s node b p q,
  unlink_prev s node b p q,
  unlink_parent s node b p q,
  unlink_first_child s node b p q,
  unlink_last_child s node b p q,
)

pub unlink_self :
    (s : Store) (node : ℕ)
    → (s node).parent ≢ some node
    → (s node).prev ≢ some node
    → (s node).next ≢ some node
    → ((unlink s node node).next ≡ none)
      × ((unlink s node node).prev ≡ none)
      × ((unlink s node node).parent ≡ none)
      × ((unlink s node node).first_child ≡ (s node).first_child)
      × ((unlink s node node).last_child ≡ (s node).last_child)
unfolding unlink unlink_neighbours
unlink_self s node p q r = ground arith
