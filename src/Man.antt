-- ===== src/Man.antt =====
-- src/man.c: the characters of manual pages.
mod Tests
use swift_cmark.Base.{Bool, Bytes, Option, [], if◌then◌else◌, none, some, ℕ, ◌==◌, ◌||◌, ◌∷◌}
use swift_cmark.Render.{render_ascii, render_code_point, Renderer, Escaping, literal}

-- `\[..]` with the name of a character.
abbrev glyph : ℕ → ℕ → Bytes
glyph a b = b'\\' ∷ b'[' ∷ a ∷ b ∷ b']' ∷ []

-- What `S_outc` writes for a character that is not literal; `none` is the character itself.
unfoldable pub escaped : Bool → ℕ → Option Bytes
escaped begin_line c =
    if c == 46 || c == 39
    then if begin_line then some (b'\\' ∷ b'&' ∷ c ∷ []) else none
    else if c == 45
    then some (b'\\' ∷ b'-' ∷ [])
    else if c == 92
    then some (b'\\' ∷ b'e' ∷ [])
    else if c == 8216
    then some (glyph b'o' b'q')
    else if c == 8217
    then some (glyph b'c' b'q')
    else if c == 8220
    then some (glyph b'l' b'q')
    else if c == 8221
    then some (glyph b'r' b'q')
    else if c == 8212
    then some (glyph b'e' b'm')
    else if c == 8211
    then some (glyph b'e' b'n')
    else none

-- `S_outc`
unfoldable pub outc : Renderer → Escaping → ℕ → ℕ → Renderer
outc r literal c nextc = render_code_point r c
outc r escape c nextc = elim (escaped r.begin_line c) [
  | none ↦ render_code_point r c
  | some s ↦ render_ascii r s
]
