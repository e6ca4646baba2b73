-- ===== src/Node/Types.antt =====
-- The node types, and which node may stand below which.
use swift_cmark.Base.{
  Bool, Option, false, if◌then◌else◌, none, not, some, true, ℕ, ◌%◌, ◌&&◌, ◌/◌, ◌==◌, ◌>>=◌, ◌||◌,
}
use swift_cmark.Node.{Node}
use swift_cmark.Node.Kind

-- `CMARK_NODE_TYPE_BLOCK_P`: of the bits 0xc000, only the upper is set.
unfoldable pub is_block_type : ℕ → Bool
is_block_type t = t / 16384 % 4 == 2

-- `CMARK_NODE_TYPE_INLINE_P`
unfoldable pub is_inline_type : ℕ → Bool
is_inline_type t = t / 16384 % 4 == 3

-- An extension's `can_contain_func`, where it has one: a parameter.
abbrev pub Containment : Type 0
Containment = ℕ → Option (Node → ℕ → Bool)

-- The `switch` over the node's own type.
unfoldable pub builtin_contains : ℕ → ℕ → Bool
unfolding is_block_type is_inline_type
builtin_contains t child =
    if t == Kind.document
      || t == Kind.block_quote
      || t == Kind.footnote_definition
      || t == Kind.item
    then is_block_type child && not (child == Kind.item)
    else if t == Kind.list
    then child == Kind.item
    else if t == Kind.custom_block
    then true
    else if t == Kind.paragraph
        || t == Kind.heading
        || t == Kind.emph
        || t == Kind.strong
        || t == Kind.link
        || t == Kind.image
        || t == Kind.attribute
        || t == Kind.custom_inline
    then is_inline_type child
    else false

-- `cmark_node_can_contain_type`
unfoldable pub can_contain_type : Containment → Node → ℕ → Bool
can_contain_type ext n child =
    if child == Kind.document
    then false
    else elim (n.extension >>= ext) [ none ↦ builtin_contains n.type child | some f ↦ f n child ]
