-- ===== src/Node.antt =====
-- src/node.c: nodes, their types and fields, and the links that make them a tree. A node's address is
-- a number, and the members of the union `as` stand side by side: each is read only under a type that
-- selects it, and `cmark_node_set_type`, which changes the member selected, is left out.
pub mod Kind
pub mod Types
pub mod Fields
pub mod Links
pub mod Nesting
pub mod Iterator
mod Tests
use swift_cmark.Base.{Bytes, Option, ℕ, ℤ}
use swift_cmark.Block.Marker.{ListData}

-- `cmark_code`, the chunks as the bytes they show.
pub record Code : Type 0 where
  pub info : Bytes
  pub literal : Bytes
  pub fence_length : ℕ
  pub fence_offset : ℕ
  pub fence_char : ℕ
  pub fenced : ℤ

-- `cmark_node`: a pointer is `none` where it is NULL. `level`, `url`, `title`, `attributes`, `on_enter`
-- and `on_exit` are members of `as`.
pub record Node : Type 0 where
  pub next : Option ℕ
  pub prev : Option ℕ
  pub parent : Option ℕ
  pub first_child : Option ℕ
  pub last_child : Option ℕ
  pub mem : ℕ
  pub type : ℕ
  pub extension : Option ℕ
  pub level : ℕ
  pub list : ListData
  pub code : Code
  pub literal : Bytes
  pub url : Bytes
  pub title : Bytes
  pub attributes : Bytes
  pub on_enter : Bytes
  pub on_exit : Bytes
