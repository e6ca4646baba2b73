-- ===== src/Houdini/Html.antt =====
-- src/houdini_html_e.c: text made safe for HTML.
pub mod Safe
use swift_cmark.Base.{Bool, Bytes, [], if◌then◌else◌, length, not, true, ℕ, ◌&&◌, ◌==◌, ◌||◌, ◌∷◌}
use swift_cmark.Houdini.{replace_loop}

-- `HTML_ESCAPE_TABLE`
unfoldable pub escape_class : ℕ → ℕ
escape_class c =
    if c == b'"'
    then 1
    else if c == b'&'
    then 2
    else if c == 39
    then 3
    else if c == b'/'
    then 4
    else if c == b'<'
    then 5
    else if c == b'>'
    then 6
    else 0

-- `HTML_ESCAPES`
unfoldable pub escape_text : ℕ → Bytes
escape_text esc =
    if esc == 1
    then b'&' ∷ b'q' ∷ b'u' ∷ b'o' ∷ b't' ∷ b';' ∷ []
    else if esc == 2
    then b'&' ∷ b'a' ∷ b'm' ∷ b'p' ∷ b';' ∷ []
    else if esc == 3
    then b'&' ∷ b'#' ∷ b'3' ∷ b'9' ∷ b';' ∷ []
    else if esc == 4
    then b'&' ∷ b'#' ∷ b'4' ∷ b'7' ∷ b';' ∷ []
    else if esc == 5
    then b'&' ∷ b'l' ∷ b't' ∷ b';' ∷ []
    else if esc == 6
    then b'&' ∷ b'g' ∷ b't' ∷ b';' ∷ []
    else []

-- What is written for a byte with an entry in the table.
unfoldable pub escape_byte : Bool → ℕ → Bytes
unfolding escape_class escape_text
escape_byte secure c =
    if (c == b'/' || c == 39) && not secure then c ∷ [] else escape_text (escape_class c)

unfoldable pub is_plain : ℕ → Bool
unfolding escape_class
is_plain c = escape_class c == 0

-- `houdini_escape_html0` on an empty buffer.
unfoldable pub escape_html0 : Bool → Bytes → Bytes
unfolding replace_loop is_plain escape_byte
escape_html0 secure src = replace_loop (length src) is_plain (escape_byte secure) src []

-- `houdini_escape_html`
abbrev pub escape_html : Bytes → Bytes
escape_html = escape_html0 true
