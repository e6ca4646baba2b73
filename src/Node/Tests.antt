-- ===== src/Node/Tests.antt =====
-- The node theorems at a small tree: a document 0 with the paragraphs 1, 2 and 3.
use swift_cmark.Base.{
  Bool, List, Option, Option-cases, [], arith, false, if◌then◌else◌, inl, inr, length, none, pos,
  refl, some, true, ℕ, ◌++◌, ◌+◌, ◌==◌, ◌↔◌, ◌∷◌, ◌≡◌,
}
use swift_cmark.Node.Links.Pointwise.{Loose}
use swift_cmark.Block.Marker.{ListType, DelimType}
use swift_cmark.Node.{Node}
use swift_cmark.Node.Kind
use swift_cmark.Node.Types.{builtin_contains, Containment, can_contain_type, is_block_type}
use swift_cmark.Node.Fields.{set_heading_level, get_heading_level}
use swift_cmark.Node.Fields.ReadBack.{LevelFits, set_heading_level_lem}
use swift_cmark.Node.Iterator.{is_leaf, Event, iter_new, iter_next}
use swift_cmark.Node.Links.{
  ancestor_loop, link_last, link_before, unlink_neighbours, append_child, insert_before, Store,
  unlink, can_contain,
}
use swift_cmark.Node.Links.Ancestors.{AtOrAbove, Depth, can_contain_iff}
use swift_cmark.Node.Links.WellLinked.{WellLinked, unlink-WellLinked}
use swift_cmark.Node.Iterator.Walk.{Tree, Forest, Represents, events, walk, ends, walk-events}
use swift_cmark.Node.Links.Append.{append_child-WellLinked}

abbrev blank_node : ℕ → Node
blank_node t = record {
  next = none;
  prev = none;
  parent = none;
  first_child = none;
  last_child = none;
  mem = 0;
  type = t;
  extension = none;
  level = 1;
  list = record {
    list_type = ListType.bullet_list;
    marker_offset = 0;
    start = 0;
    delimiter = DelimType.no_delim;
    bullet_char = 0;
    tight = false;
  };
  code = record {
    info = [];
    literal = [];
    fence_length = 0;
    fence_offset = 0;
    fence_char = 0;
    fenced = pos 0;
  };
  literal = [];
  url = [];
  title = [];
  attributes = [];
  on_enter = [];
  on_exit = [];
}

abbrev document_tree : Store
document_tree a =
    if a == 0
    then record (blank_node Kind.document) { first_child = some 1; last_child = some 3 }
    else if a == 1
    then record (blank_node Kind.paragraph) { parent = some 0; next = some 2 }
    else if a == 2
    then record (blank_node Kind.paragraph) { parent = some 0; prev = some 1; next = some 3 }
    else if a == 3
    then record (blank_node Kind.paragraph) { parent = some 0; prev = some 2 }
    else blank_node Kind.text

document_tree-WellLinked : WellLinked document_tree
unfolding WellLinked
document_tree-WellLinked =
    ((λ a. a), λ a b. (ground arith, ground arith), λ a. ground arith, λ a. deep a)
  where
    below_document : (a : ℕ) → (document_tree a).parent ≡ some 0 → (n : ℕ) × Depth document_tree a n
    below_document a e = (1, Depth.below e (Depth.root refl))

    deep : (a : ℕ) → (n : ℕ) × Depth document_tree a n
    deep a = elim (Option-cases (document_tree a).parent) [
      | inl e ↦ (0, Depth.root e)
      | inr (p, e) ↦ below_document a (ground (arith, e))
    ]

unlink_example :
    WellLinked (unlink document_tree 2) × Loose (document_tree 2) (unlink document_tree 2 2)
unlink_example = unlink-WellLinked document_tree 2 document_tree-WellLinked

-- The same nodes as a tree.
abbrev document : Tree
document = Tree.node 0 (
    Forest.cons (Tree.node 1 Forest.nil)
      (Forest.cons (Tree.node 2 Forest.nil) (Forest.cons (Tree.node 3 Forest.nil) Forest.nil)))

document-Represents : Represents document_tree 0 document
unfolding Represents is_leaf
document-Represents = (
  refl,
  λ h. ground (arith, h),
  (
    ground arith,
    refl,
    refl,
    (refl, λ h. refl, _),
    (
      ground arith,
      refl,
      refl,
      (refl, λ h. refl, _),
      (ground arith, refl, refl, (refl, λ h. refl, _), _),
    ),
  ),
)

walk-events_example :
    walk (length (events document_tree document) + 2) document_tree (iter_new 0)
    ≡ events document_tree document ++ ends 2
walk-events_example = walk-events document_tree document 2 document-Represents

abbrev no_extension : Containment
no_extension e = none

can_contain_example :
    ((r : Bool) × (can_contain no_extension true 2 document_tree 1 0 ≡ some r))
    × ((can_contain no_extension true 2 document_tree 1 0 ≡ some true) ↔ (
        ((document_tree 1).mem ≡ (document_tree 0).mem)
        × (AtOrAbove document_tree 0 1 → ⊥)
        × (can_contain_type no_extension (document_tree 1) (document_tree 0).type ≡ true)))
can_contain_example =
    can_contain_iff no_extension 2 document_tree 1 0 1 (Depth.below refl (Depth.root refl))
      (omega arith)

append_child_example :
    (r : Bool) × (t : Store) × (append_child no_extension true 2 document_tree 0 2 ≡ some (r, t))
    × WellLinked t
    × (r ≡ false → t ≡ document_tree)
    × (r ≡ true → ((t 2).parent ≡ some 0) × ((t 2).next ≡ none) × ((t 0).last_child ≡ some 2))
append_child_example =
    append_child-WellLinked no_extension 2 document_tree 0 2 0 document_tree-WellLinked
      (Depth.root refl) (omega arith)

level_example :
    let r = set_heading_level (some (blank_node Kind.heading)) (pos 3) in
    ((r.0 ≡ true) ↔ LevelFits (some (blank_node Kind.heading)) (pos 3))
    × ((r.0 ≡ true) → pos (get_heading_level r.1) ≡ pos 3)
    × ((r.0 ≡ false) → r.1 ≡ some (blank_node Kind.heading))
level_example = set_heading_level_lem (some (blank_node Kind.heading)) (pos 3)

walked :
    walk 5 document_tree (iter_new 0)
    ≡ (Event.event_enter, some 0)
      ∷ (Event.event_enter, some 1)
      ∷ (Event.event_exit, some 1)
      ∷ (Event.event_enter, some 2)
      ∷ (Event.event_exit, some 2)
      ∷ []
unfolding walk iter_new iter_next
walked = refl

-- The second paragraph moved to the end, and before the first.
abbrev children : Option (Bool × Store) → List (Option ℕ)
children none = []
children (some (ok, s)) =
    (s 0).first_child
    ∷ (s 0).last_child
    ∷ (s 1).prev
    ∷ (s 1).next
    ∷ (s 2).prev
    ∷ (s 2).next
    ∷ (s 3).prev
    ∷ (s 3).next
    ∷ []

moved_last :
    children (append_child no_extension true 5 document_tree 0 2)
    ≡ some 1 ∷ some 2 ∷ none ∷ some 3 ∷ some 3 ∷ none ∷ some 1 ∷ some 2 ∷ []
unfolding append_child can_contain ancestor_loop can_contain_type builtin_contains link_last
    unlink_neighbours is_block_type
moved_last = refl

moved_first :
    children (insert_before no_extension true 5 document_tree 1 2)
    ≡ some 2 ∷ some 3 ∷ some 2 ∷ some 3 ∷ none ∷ some 1 ∷ some 1 ∷ none ∷ []
unfolding insert_before can_contain ancestor_loop can_contain_type builtin_contains link_before
    unlink_neighbours is_block_type
moved_first = refl
