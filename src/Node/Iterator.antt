-- ===== src/Node/Iterator.antt =====
-- src/iterator.c: the walk over a tree, which enters every node and exits every one that is no leaf.
pub mod Walk
use swift_cmark.Base.{
  Bool, Option, false, if◌then◌else◌, none, not, some, true, ℕ, ◌&&◌, ◌==◌, ◌||◌,
}
use swift_cmark.Node.Kind
use swift_cmark.Node.Links.{Store}

-- `cmark_event_type`
pub data Event : Type 0 where
  event_none event_done event_enter event_exit : Event

-- `cmark_iter_state`
pub record IterState : Type 0 where
  pub ev_type : Event
  pub node : Option ℕ

-- `cmark_iter`
pub record Iter : Type 0 where
  pub root : ℕ
  pub cur : IterState
  pub next : IterState

-- `S_is_leaf`
unfoldable pub is_leaf : ℕ → Bool
is_leaf t =
    t == Kind.html_block
    || t == Kind.thematic_break
    || t == Kind.code_block
    || t == Kind.text
    || t == Kind.softbreak
    || t == Kind.linebreak
    || t == Kind.code
    || t == Kind.html_inline

-- `cmark_iter_new` on a node.
unfoldable pub iter_new : ℕ → Iter
iter_new root = record {
  root = root;
  cur = record { ev_type = event_none; node = none };
  next = record { ev_type = event_enter; node = some root };
}

-- The next state behind an event at `a`; the assertion that fails at a node without a parent is the last
-- case.
unfoldable pub roll_forward : Store → ℕ → Bool → ℕ → IterState
unfolding is_leaf
roll_forward s root entered a =
    if entered && not (is_leaf (s a).type)
    then elim (s a).first_child [
      | none ↦ record { ev_type = event_exit; node = some a }
      | some c ↦ record { ev_type = event_enter; node = some c }
    ]
    else if a == root
    then record { ev_type = event_done; node = none }
    else elim (s a).next [
      | some b ↦ record { ev_type = event_enter; node = some b }
      | none ↦ elim (s a).parent [
        | some p ↦ record { ev_type = event_exit; node = some p }
        | none ↦ record { ev_type = event_done; node = none }
      ]
    ]

abbrev pub is_enter : Event → Bool
is_enter event_enter = true
is_enter _ = false

-- A pointer that is NULL before the end is not followed: the walk would have left the tree.
abbrev pub step : Store → ℕ → IterState → IterState
step s root st = elim st.ev_type [
  | event_done ↦ st
  | e ↦ elim st.node [
    | none ↦ record { ev_type = event_done; node = none }
    | some a ↦ roll_forward s root (is_enter e) a
  ]
]

-- `cmark_iter_next`: the event, and the iterator afterwards.
unfoldable pub iter_next : Store → Iter → Event × Iter
unfolding roll_forward
iter_next s it = (it.next.ev_type, record it { cur = it.next; next = step s it.root it.next })

-- `cmark_iter_reset`
unfoldable pub iter_reset : Store → Iter → ℕ → Event → Iter
unfolding iter_next
iter_reset s it current event =
    (iter_next s (record it { next = record { ev_type = event; node = some current } })).1
