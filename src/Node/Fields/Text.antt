-- ===== src/Node/Fields/Text.antt =====
-- The fields of a node that hold text, and the fence of a code block. A setter gives its result (0 is
-- `false`) and the node afterwards; a `char *` is the bytes before its NUL, or `none` where it is NULL.
use swift_cmark.Base.{
  Bool, Bytes, Option, [], false, if◌then◌else◌, length, ltb, neg, none, pos, some, true, ℕ, ℤ, ◌%◌,
  ◌-◌, ◌==◌, ◌^◌, ◌||◌,
}
use swift_cmark.Buffer.Search.{c_string}
use swift_cmark.Node.{Node}
use swift_cmark.Node.Kind
use swift_cmark.Node.Fields.{Result}

-- `cmark_chunk_set_cstr`
abbrev pub set_cstr : Option Bytes → Bytes
set_cstr none = []
set_cstr (some s) = c_string s

-- The types whose text is `as.literal` and may be set.
abbrev pub is_literal : ℕ → Bool
is_literal t =
    t == Kind.html_block
    || t == Kind.text
    || t == Kind.html_inline
    || t == Kind.code
    || t == Kind.footnote_reference

-- `cmark_node_get_literal`
unfoldable pub get_literal : Option Node → Option Bytes
get_literal none = none
get_literal (some n) =
    if is_literal n.type || n.type == Kind.footnote_definition
    then some n.literal
    else if n.type == Kind.code_block
    then some n.code.literal
    else none

-- `cmark_node_set_literal`
unfoldable pub set_literal : Option Node → Option Bytes → Result
set_literal none s = (false, none)
set_literal (some n) s =
    if is_literal n.type
    then (true, some (record n { literal = set_cstr s }))
    else if n.type == Kind.code_block
    then (true, some (record n { code = record n.code { literal = set_cstr s } }))
    else (false, some n)

-- `cmark_node_get_url`
unfoldable pub get_url : Option Node → Option Bytes
get_url none = none
get_url (some n) = if n.type == Kind.link || n.type == Kind.image then some n.url else none

-- `cmark_node_set_url`
unfoldable pub set_url : Option Node → Option Bytes → Result
set_url none s = (false, none)
set_url (some n) s =
    if n.type == Kind.link || n.type == Kind.image
    then (true, some (record n { url = set_cstr s }))
    else (false, some n)

-- `cmark_node_get_title`
unfoldable pub get_title : Option Node → Option Bytes
get_title none = none
get_title (some n) = if n.type == Kind.link || n.type == Kind.image then some n.title else none

-- `cmark_node_set_title`
unfoldable pub set_title : Option Node → Option Bytes → Result
set_title none s = (false, none)
set_title (some n) s =
    if n.type == Kind.link || n.type == Kind.image
    then (true, some (record n { title = set_cstr s }))
    else (false, some n)

-- `cmark_node_get_attributes`
unfoldable pub get_attributes : Option Node → Option Bytes
get_attributes none = none
get_attributes (some n) = if n.type == Kind.attribute then some n.attributes else none

-- `cmark_node_set_attributes`
unfoldable pub set_attributes : Option Node → Option Bytes → Result
set_attributes none s = (false, none)
set_attributes (some n) s =
    if n.type == Kind.attribute
    then (true, some (record n { attributes = set_cstr s }))
    else (false, some n)

-- `cmark_node_get_on_enter`
unfoldable pub get_on_enter : Option Node → Option Bytes
get_on_enter none = none
get_on_enter (some n) =
    if n.type == Kind.custom_inline || n.type == Kind.custom_block then some n.on_enter else none

-- `cmark_node_set_on_enter`
unfoldable pub set_on_enter : Option Node → Option Bytes → Result
set_on_enter none s = (false, none)
set_on_enter (some n) s =
    if n.type == Kind.custom_inline || n.type == Kind.custom_block
    then (true, some (record n { on_enter = set_cstr s }))
    else (false, some n)

-- `cmark_node_get_on_exit`
unfoldable pub get_on_exit : Option Node → Option Bytes
get_on_exit none = none
get_on_exit (some n) =
    if n.type == Kind.custom_inline || n.type == Kind.custom_block then some n.on_exit else none

-- `cmark_node_set_on_exit`
unfoldable pub set_on_exit : Option Node → Option Bytes → Result
set_on_exit none s = (false, none)
set_on_exit (some n) s =
    if n.type == Kind.custom_inline || n.type == Kind.custom_block
    then (true, some (record n { on_exit = set_cstr s }))
    else (false, some n)

-- `cmark_node_get_fence_info`
unfoldable pub get_fence_info : Option Node → Option Bytes
get_fence_info none = none
get_fence_info (some n) = if n.type == Kind.code_block then some n.code.info else none

-- `cmark_node_set_fence_info`
unfoldable pub set_fence_info : Option Node → Option Bytes → Result
set_fence_info none s = (false, none)
set_fence_info (some n) s =
    if n.type == Kind.code_block
    then (true, some (record n { code = record n.code { info = set_cstr s } }))
    else (false, some n)

-- `(int8_t)fenced`, for an `int` that is not negative.
abbrev int8 : ℕ → ℤ
int8 n = if ltb (n % 2 ^ 8) 128 then pos (n % 2 ^ 8) else neg (2 ^ 8 - n % 2 ^ 8)

-- `cmark_node_get_fenced`: the result, and length, offset and character where they are written.
unfoldable pub get_fenced : Option Node → ℤ × Option (ℕ × ℕ × ℕ)
get_fenced none = (pos 0, none)
get_fenced (some n) =
    if n.type == Kind.code_block
    then (n.code.fenced, some (n.code.fence_length, n.code.fence_offset, n.code.fence_char))
    else (pos 0, none)

-- `cmark_node_set_fenced`, with its casts to 8 bits.
unfoldable pub set_fenced : Option Node → ℕ → ℕ → ℕ → ℕ → Result
set_fenced none fenced length offset character = (false, none)
set_fenced (some n) fenced length offset character =
    if n.type == Kind.code_block
    then (
      true,
      some (record n {
        code = record n.code {
          fenced = int8 fenced;
          fence_length = length % 2 ^ 8;
          fence_offset = offset % 2 ^ 8;
          fence_char = character % 2 ^ 8;
        };
      }),
    )
    else (false, some n)
