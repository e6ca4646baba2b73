-- ===== src/Node/Nesting.antt =====
-- Which built-in types nest.
use swift_cmark.Base.{arith, false, none, refl, true, ℕ, ◌>>=◌, ◌≡◌, ◌≢◌, ◌⊎◌}
use swift_cmark.Node.{Node}
use swift_cmark.Node.Kind
use swift_cmark.Node.Types.{
  Containment, is_block_type, is_inline_type, builtin_contains, can_contain_type,
}

builtin_one_kind :
    (t a b : ℕ)
    → builtin_contains t a ≡ true
    → builtin_contains t b ≡ true
    → t ≢ Kind.custom_block
    → (is_block_type a ≡ true) × (is_block_type b ≡ true)
      ⊎ (is_inline_type a ≡ true) × (is_inline_type b ≡ true)
unfolding builtin_contains is_block_type is_inline_type
builtin_one_kind t a b h k ne = ground arith

builtin_items :
    (t : ℕ) → builtin_contains t Kind.item ≡ true → (t ≡ Kind.list) ⊎ (t ≡ Kind.custom_block)
unfolding builtin_contains is_block_type is_inline_type
builtin_items t h = ground arith

-- Where no extension has a say, no node can contain a document, only a list and a custom block can
-- contain an item, and a node other than a custom block contains blocks only or inlines only.
pub can_contain_type_nesting :
    (ext : Containment) (n : Node)
    → (n.extension >>= ext) ≡ none
    → (can_contain_type ext n Kind.document ≡ false)
      × ((can_contain_type ext n Kind.item ≡ true)
          → (n.type ≡ Kind.list) ⊎ (n.type ≡ Kind.custom_block))
      × ((a b : ℕ)
          → can_contain_type ext n a ≡ true
          → can_contain_type ext n b ≡ true
          → n.type ≢ Kind.custom_block
          → (is_block_type a ≡ true) × (is_block_type b ≡ true)
            ⊎ (is_inline_type a ≡ true) × (is_inline_type b ≡ true))
unfolding can_contain_type
can_contain_type_nesting ext n none_asked = (
  refl,
  λ h. builtin_items n.type (built Kind.item h),
  λ a b h k. builtin_one_kind n.type a b (built a h) (built b k),
)
  where
    built : (t : ℕ) → can_contain_type ext n t ≡ true → builtin_contains n.type t ≡ true
    built t h = ground (arith, none_asked)
