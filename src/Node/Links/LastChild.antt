-- ===== src/Node/Links/LastChild.antt =====
-- The links of each node once a loose node is linked as the last child of another.
use swift_cmark.Base.{
  Bool, Option, arith, false, if◌then◌else◌, none, not, some, true, ℕ, ◌&&◌, ◌==◌, ◌≡◌, ◌≢◌,
}
use swift_cmark.Node.{Node}
use swift_cmark.Node.Types.{Containment}
use swift_cmark.Node.Links.{Store, is_at, unlink, link_last}

abbrev pub is_some : Option ℕ → Bool
is_some none = false
is_some (some a) = true

-- Node `x` at `b` as it is once `child` is the last child of `d`, at `n`.
abbrev pub Beside : Node → ℕ → ℕ → Node → ℕ → Node → Type 0
Beside d n child x b y =
    (y.next ≡ (if is_at d.last_child b then some child else x.next))
    × (y.prev ≡ x.prev)
    × (y.parent ≡ x.parent)
    × (y.first_child ≡ (if b == n && not (is_some d.last_child) then some child else x.first_child))
    × (y.last_child ≡ (if b == n then some child else x.last_child))

-- `c` itself.
abbrev pub Placed : Node → ℕ → Node → Node → Type 0
Placed d n c e =
    (e.next ≡ none)
    × (e.prev ≡ d.last_child)
    × (e.parent ≡ some n)
    × (e.first_child ≡ c.first_child)
    × (e.last_child ≡ c.last_child)

module _ (ext : Containment) (safety : Bool) (fuel : ℕ) (s : Store) (node child : ℕ) where
  pub link_last-Beside :
      (b : ℕ)
      → node ≢ child
      → b ≢ child
      → Beside
          (unlink s child node)
          node
          child
          (unlink s child b)
          b
          (link_last ext safety fuel s node child b)
  unfolding link_last unlink
  link_last-Beside b ne nb = ground arith

  pub link_last-Placed :
      node ≢ child
      → (unlink s child node).last_child ≢ some child
      → Placed
          (unlink s child node)
          node
          (unlink s child child)
          (link_last ext safety fuel s node child child)
  unfolding link_last unlink
  link_last-Placed ne nl = ground arith
