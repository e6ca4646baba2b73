-- ===== src/Node/Fields/ReadBack.antt =====
-- A setter accepts exactly the nodes and values it should, what it accepts is read back, and what it
-- refuses changes nothing.
use swift_cmark.Base.{
  Bytes, Option, arith, false, negsuc, none, pos, some, true, ℤ, ◌↔◌, ◌≡◌, ◌≢◌, ◌≤◌, ◌⊎◌,
}
use swift_cmark.Node.Fields.Text.{set_cstr, get_url, get_literal, set_literal, set_url}
use swift_cmark.Node.{Node}
use swift_cmark.Node.Kind
use swift_cmark.Node.Fields.{
  marker_of_char, char_of_marker, get_heading_level, set_heading_level, get_list_marker,
  set_list_marker, get_list_type, ListMarker,
}
use swift_cmark.Block.Marker.{ListType}

-- A heading, and a level from 1 to 6.
abbrev pub LevelFits : Option Node → ℤ → Type 0
LevelFits (some n) (pos k) = (n.type ≡ Kind.heading) × (1 ≤ k) × (k ≤ 6)
LevelFits none (pos k) = ⊥
LevelFits o (negsuc k) = ⊥

-- Setting a heading level succeeds exactly for a heading and a level from 1 to 6; the level is
-- then read back, and otherwise the node is unchanged.
pub set_heading_level_lem :
    (o : Option Node) (level : ℤ)
    → let r = set_heading_level o level in
      ((r.0 ≡ true) ↔ LevelFits o level)
      × ((r.0 ≡ true) → pos (get_heading_level r.1) ≡ level)
      × ((r.0 ≡ false) → r.1 ≡ o)
unfolding set_heading_level get_heading_level
set_heading_level_lem none (pos k) = ground arith
set_heading_level_lem o (negsuc k) = ground arith
set_heading_level_lem (some n) (pos k) = ground arith

-- Setting a list marker succeeds exactly for a bullet list and a marker that is one of the three;
-- the marker is then read back, and otherwise the node is unchanged.
pub set_list_marker_lem :
    (o : Option Node) (m : ListMarker)
    → let r = set_list_marker o m in
      ((r.0 ≡ true) ↔ ((get_list_type o ≡ ListType.bullet_list) × (m ≢ ListMarker.no_list_marker)))
      × ((r.0 ≡ true) → get_list_marker r.1 ≡ m)
      × ((r.0 ≡ false) → r.1 ≡ o)
unfolding set_list_marker get_list_marker get_list_type char_of_marker marker_of_char
set_list_marker_lem none m = ground arith
set_list_marker_lem (some n) m = ground arith

-- What holds a URL.
abbrev pub HoldsUrl : Option Node → Type 0
HoldsUrl none = ⊥
HoldsUrl (some n) = (n.type ≡ Kind.link) ⊎ (n.type ≡ Kind.image)

-- Setting a URL succeeds exactly for a link or an image; the string up to its first NUL, or an
-- empty one for NULL, is then read back, and otherwise the node is unchanged.
pub set_url_lem :
    (o : Option Node) (s : Option Bytes)
    → let r = set_url o s in
      ((r.0 ≡ true) ↔ HoldsUrl o)
      × ((r.0 ≡ true) → get_url r.1 ≡ some (set_cstr s))
      × ((r.0 ≡ false) → r.1 ≡ o)
unfolding set_url get_url
set_url_lem none s = ground arith
set_url_lem (some n) s = ground arith

abbrev pub IsDefinition : Option Node → Type 0
IsDefinition none = ⊥
IsDefinition (some n) = n.type ≡ Kind.footnote_definition

-- Setting literal text succeeds exactly where literal text can be read, except on a footnote
-- definition; the string up to its first NUL is then read back, and otherwise the node is
-- unchanged.
pub set_literal_lem :
    (o : Option Node) (s : Option Bytes)
    → let r = set_literal o s in
      ((r.0 ≡ true) ↔ ((get_literal o ≢ none) × (IsDefinition o → ⊥)))
      × ((r.0 ≡ true) → get_literal r.1 ≡ some (set_cstr s))
      × ((r.0 ≡ false) → r.1 ≡ o)
unfolding set_literal get_literal
set_literal_lem none s = ground arith
set_literal_lem (some n) s = ground arith
