-- ===== src/Node/Fields.antt =====
-- The fields of headings, lists and items behind `cmark_node_get_…` and `cmark_node_set_…`. A setter
-- gives its result (0 is `false`) and the node afterwards.
pub mod Text
pub mod ReadBack
use swift_cmark.Base.{
  Bool, Option, false, if◌then◌else◌, ltb, negsuc, none, pos, some, true, ℕ, ℤ, ◌==◌, ◌||◌,
}
use swift_cmark.Block.Marker.{ListType, DelimType}
use swift_cmark.Node.{Node}
use swift_cmark.Node.Kind

abbrev pub Result : Type 0
Result = Bool × Option Node

-- `cmark_node_get_heading_level`
unfoldable pub get_heading_level : Option Node → ℕ
get_heading_level none = 0
get_heading_level (some n) = if n.type == Kind.heading then n.level else 0

-- `cmark_node_set_heading_level`
unfoldable pub set_heading_level : Option Node → ℤ → Result
set_heading_level n (negsuc k) = (false, n)
set_heading_level none (pos level) = (false, none)
set_heading_level (some n) (pos level) =
    if ltb level 1 || ltb 6 level
    then (false, some n)
    else if n.type == Kind.heading
    then (true, some (record n { level = level }))
    else (false, some n)

-- `cmark_node_get_list_type`
unfoldable pub get_list_type : Option Node → ListType
get_list_type none = ListType.no_list
get_list_type (some n) = if n.type == Kind.list then n.list.list_type else ListType.no_list

-- `cmark_node_set_list_type`
unfoldable pub set_list_type : Option Node → ListType → Result
set_list_type n ListType.no_list = (false, n)
set_list_type none t = (false, none)
set_list_type (some n) t =
    if n.type == Kind.list
    then (true, some (record n { list = record n.list { list_type = t } }))
    else (false, some n)

-- `cmark_list_marker_type`
pub data ListMarker : Type 0 where
  no_list_marker hyphen_marker plus_marker asterisk_marker : ListMarker

unfoldable pub marker_of_char : ℕ → ListMarker
marker_of_char c =
    if c == b'-'
    then ListMarker.hyphen_marker
    else if c == b'+'
    then ListMarker.plus_marker
    else if c == b'*'
    then ListMarker.asterisk_marker
    else ListMarker.no_list_marker

-- `cmark_node_get_list_marker`
unfoldable pub get_list_marker : Option Node → ListMarker
unfolding get_list_type marker_of_char
get_list_marker none = ListMarker.no_list_marker
get_list_marker (some n) = elim (get_list_type (some n)) [
  | ListType.bullet_list ↦ marker_of_char n.list.bullet_char
  | _ ↦ ListMarker.no_list_marker
]

-- The character of a marker that may be set.
unfoldable pub char_of_marker : ListMarker → Option ℕ
char_of_marker ListMarker.hyphen_marker = some b'-'
char_of_marker ListMarker.plus_marker = some b'+'
char_of_marker ListMarker.asterisk_marker = some b'*'
char_of_marker ListMarker.no_list_marker = none

-- The assignment in a bullet list's case.
abbrev set_char : Node → Option ℕ → Result
set_char n none = (false, some n)
set_char n (some c) = (true, some (record n { list = record n.list { bullet_char = c } }))

-- `cmark_node_set_list_marker`
unfoldable pub set_list_marker : Option Node → ListMarker → Result
unfolding get_list_type char_of_marker
set_list_marker none m = (false, none)
set_list_marker (some n) m = elim (get_list_type (some n)) [
  | ListType.bullet_list ↦ set_char n (char_of_marker m)
  | _ ↦ (false, some n)
]

-- `cmark_node_get_list_delim`
unfoldable pub get_list_delim : Option Node → DelimType
get_list_delim none = DelimType.no_delim
get_list_delim (some n) = if n.type == Kind.list then n.list.delimiter else DelimType.no_delim

-- `cmark_node_set_list_delim`
unfoldable pub set_list_delim : Option Node → DelimType → Result
set_list_delim n DelimType.no_delim = (false, n)
set_list_delim none d = (false, none)
set_list_delim (some n) d =
    if n.type == Kind.list
    then (true, some (record n { list = record n.list { delimiter = d } }))
    else (false, some n)

-- `cmark_node_get_list_start`
unfoldable pub get_list_start : Option Node → ℕ
get_list_start none = 0
get_list_start (some n) = if n.type == Kind.list then n.list.start else 0

-- `cmark_node_set_list_start`
unfoldable pub set_list_start : Option Node → ℤ → Result
set_list_start n (negsuc k) = (false, n)
set_list_start none (pos i) = (false, none)
set_list_start (some n) (pos i) =
    if n.type == Kind.list
    then (true, some (record n { list = record n.list { start = i } }))
    else (false, some n)

-- `cmark_node_get_item_index`
unfoldable pub get_item_index : Option Node → ℕ
get_item_index none = 0
get_item_index (some n) = if n.type == Kind.item then n.list.start else 0

-- `cmark_node_set_item_index`
unfoldable pub set_item_index : Option Node → ℤ → Result
set_item_index n (negsuc k) = (false, n)
set_item_index none (pos i) = (false, none)
set_item_index (some n) (pos i) =
    if n.type == Kind.item
    then (true, some (record n { list = record n.list { start = i } }))
    else (false, some n)

-- `cmark_node_get_list_tight`
unfoldable pub get_list_tight : Option Node → Bool
get_list_tight none = false
get_list_tight (some n) = if n.type == Kind.list then n.list.tight else false

-- `cmark_node_set_list_tight`
unfoldable pub set_list_tight : Option Node → ℕ → Result
set_list_tight none tight = (false, none)
set_list_tight (some n) tight =
    if n.type == Kind.list
    then (true, some (record n { list = record n.list { tight = tight == 1 } }))
    else (false, some n)
