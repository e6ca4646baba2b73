-- ===== src/Latex.antt =====
-- src/latex.c: the characters of LaTeX.
mod Tests
use swift_cmark.Base.{
  Bool, Bytes, Option, [], false, if◌then◌else◌, none, some, true, ℕ, ◌==◌, ◌||◌, ◌∷◌,
}
use swift_cmark.Render.{render_ascii, render_code_point, Renderer, Escaping, literal, normal, url}

abbrev is_url : Escaping → Bool
is_url url = true
is_url _ = false

-- A text that stands for the character in normal text only.
abbrev only_normal : Escaping → Bytes → Option Bytes
only_normal normal s = some s
only_normal _ s = none

-- What `outc` writes for a character that is not literal; `none` is the character itself.
unfoldable pub escaped : Escaping → ℕ → ℕ → Option Bytes
escaped escape c nextc =
    if c == 123 || c == 125 || c == 35 || c == 37 || c == 38
    then some (b'\\' ∷ c ∷ [])
    else if c == 36 || c == 95
    then only_normal escape (b'\\' ∷ c ∷ [])
    else if c == 45
    then some (if nextc == 45 then b'-' ∷ b'{' ∷ b'}' ∷ [] else b'-' ∷ [])
    else if c == 126
    then only_normal escape (
        b'\\' ∷ b't' ∷ b'e' ∷ b'x' ∷ b't' ∷ b'a' ∷ b's' ∷ b'c' ∷ b'i' ∷ b'i' ∷ b't' ∷ b'i' ∷ b'l'
        ∷ b'd' ∷ b'e' ∷ b'{' ∷ b'}' ∷ [])
    else if c == 94
    then some (b'\\' ∷ b'^' ∷ b'{' ∷ b'}' ∷ [])
    else if c == 92
    then some (
        if is_url escape
        then b'/' ∷ []
        else b'\\' ∷ b't' ∷ b'e' ∷ b'x' ∷ b't' ∷ b'b' ∷ b'a' ∷ b'c' ∷ b'k' ∷ b's' ∷ b'l' ∷ b'a'
          ∷ b's' ∷ b'h' ∷ b'{' ∷ b'}' ∷ [])
    else if c == 124
    then some (b'\\' ∷ b't' ∷ b'e' ∷ b'x' ∷ b't' ∷ b'b' ∷ b'a' ∷ b'r' ∷ b'{' ∷ b'}' ∷ [])
    else if c == 60
    then some (b'\\' ∷ b't' ∷ b'e' ∷ b'x' ∷ b't' ∷ b'l' ∷ b'e' ∷ b's' ∷ b's' ∷ b'{' ∷ b'}' ∷ [])
    else if c == 62
    then some (
        b'\\' ∷ b't' ∷ b'e' ∷ b'x' ∷ b't' ∷ b'g' ∷ b'r' ∷ b'e' ∷ b'a' ∷ b't' ∷ b'e' ∷ b'r' ∷ b'{'
        ∷ b'}' ∷ [])
    else if c == 91 || c == 93
    then some (b'{' ∷ c ∷ b'}' ∷ [])
    else if c == 34
    then some (
        b'\\' ∷ b't' ∷ b'e' ∷ b'x' ∷ b't' ∷ b'q' ∷ b'u' ∷ b'o' ∷ b't' ∷ b'e' ∷ b'd' ∷ b'b' ∷ b'l'
        ∷ b'{' ∷ b'}' ∷ [])
    else if c == 39
    then some (
        b'\\' ∷ b't' ∷ b'e' ∷ b'x' ∷ b't' ∷ b'q' ∷ b'u' ∷ b'o' ∷ b't' ∷ b'e' ∷ b's' ∷ b'i' ∷ b'n'
        ∷ b'g' ∷ b'l' ∷ b'e' ∷ b'{' ∷ b'}' ∷ [])
    else if c == 160
    then some (b'~' ∷ [])
    else if c == 8230
    then some (b'\\' ∷ b'l' ∷ b'd' ∷ b'o' ∷ b't' ∷ b's' ∷ b'{' ∷ b'}' ∷ [])
    else if c == 8216
    then only_normal escape (b'`' ∷ [])
    else if c == 8217
    then only_normal escape (39 ∷ [])
    else if c == 8220
    then only_normal escape (b'`' ∷ b'`' ∷ [])
    else if c == 8221
    then only_normal escape (39 ∷ 39 ∷ [])
    else if c == 8212
    then only_normal escape (b'-' ∷ b'-' ∷ b'-' ∷ [])
    else if c == 8211
    then only_normal escape (b'-' ∷ b'-' ∷ [])
    else none

-- `outc`. `render_code_point` of a character below 128 writes its byte.
unfoldable pub outc : Renderer → Escaping → ℕ → ℕ → Renderer
outc r literal c nextc = render_code_point r c
outc r escape c nextc = elim (escaped escape c nextc) [
  | none ↦ render_code_point r c
  | some s ↦ render_ascii r s
]
