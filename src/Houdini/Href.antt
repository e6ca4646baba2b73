-- ===== src/Houdini/Href.antt =====
-- src/houdini_href_e.c: text made safe for a URL in an attribute.
pub mod Written
pub mod RoundTrip
use swift_cmark.Base.{
  Bool, Bytes, [], arith, if◌then◌else◌, length, ltb, within, ℕ, ◌%◌, ◌*◌, ◌+◌, ◌-◌, ◌/◌, ◌<◌, ◌==◌,
  ◌||◌, ◌∷◌, ◌≡◌, ◌≢◌,
}
use swift_cmark.Houdini.{replace_loop, replace_each, replace_loop-replace_each}

-- `HREF_SAFE`
unfoldable pub href_safe : ℕ → Bool
href_safe c =
    c == 33
    || within 35 37 c
    || within 40 59 c
    || c == 61
    || within 63 90 c
    || c == 95
    || within 97 122 c
    || c == 126

-- `hex_chars`
unfoldable pub hex_char : ℕ → ℕ
hex_char d = if ltb d 10 then b'0' + d else b'A' + (d - 10)

-- The switch on a byte that is not safe.
unfoldable pub escape_unsafe : ℕ → Bytes
unfolding hex_char
escape_unsafe c =
    if c == b'&'
    then b'&' ∷ b'a' ∷ b'm' ∷ b'p' ∷ b';' ∷ []
    else if c == 39
    then b'&' ∷ b'#' ∷ b'x' ∷ b'2' ∷ b'7' ∷ b';' ∷ []
    else b'%' ∷ hex_char (c / 16 % 16) ∷ hex_char (c % 16) ∷ []

-- `houdini_escape_href` on an empty buffer.
unfoldable pub escape_href : Bytes → Bytes
unfolding replace_loop
escape_href src = replace_loop (length src) href_safe escape_unsafe src []

pub escape_href-replace_each :
    (src : Bytes) → escape_href src ≡ replace_each href_safe escape_unsafe src
unfolding escape_href
escape_href-replace_each src =
    replace_loop-replace_each href_safe escape_unsafe (length src) src [] (omega arith)

-- The number that a hexadecimal digit stands for.
unfoldable pub hex_value : ℕ → ℕ
hex_value d =
    if within b'0' b'9' d
    then d - b'0'
    else if within b'A' b'F' d
    then d - b'A' + 10
    else d - b'a' + 10

-- A byte other than an ampersand and a single quote is escaped as a percent sign and two digits
-- whose hexadecimal value is the byte.
pub escape_unsafe-hex_value :
    (c : ℕ)
    → c < 256
    → c ≢ b'&'
    → c ≢ 39
    → (h : ℕ) × (l : ℕ) × (escape_unsafe c ≡ b'%' ∷ h ∷ l ∷ [])
      × (hex_value h * 16 + hex_value l ≡ c)
unfolding escape_unsafe hex_value
escape_unsafe-hex_value c lt amp quote =
    (hex_char (c / 16 % 16), hex_char (c % 16), ground arith, ground arith)
