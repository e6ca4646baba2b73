-- ===== src/Houdini/Html/Safe.antt =====
-- What the output of the HTML escaper can hold.
use swift_cmark.Base.{
  All, All-append, Bool, Bytes, [], arith, false, if◌then◌else◌, length, ℕ, ◌&&◌, ◌==◌, ◌||◌, ◌∷◌,
  ◌≡◌, ◌≢◌,
}
use swift_cmark.Houdini.{replace_each, replace_loop-replace_each}
use swift_cmark.Houdini.Html.{escape_html0, escape_byte, is_plain}

-- The spans of the source change nothing: each byte is replaced by itself.
pub escape_html0-replace_each :
    (secure : Bool) (src : Bytes)
    → escape_html0 secure src ≡ replace_each is_plain (escape_byte secure) src
unfolding escape_html0
escape_html0-replace_each secure src =
    replace_loop-replace_each is_plain (escape_byte secure) (length src) src [] (omega arith)

-- No byte of the text is markup; in secure mode, neither a single quote nor a slash.
abbrev pub IsInert : Bool → Bytes → Type 0
IsInert secure =
    All (λ c. (c ≢ b'<') × (c ≢ b'>') × (c ≢ b'"') × ((secure && (c == 39 || c == b'/')) ≡ false))

escape_byte-IsInert :
    (secure : Bool) (c : ℕ) → IsInert secure (if is_plain c then c ∷ [] else escape_byte secure c)
unfolding escape_byte is_plain
escape_byte-IsInert secure c = ground arith

replace_each-IsInert :
    (secure : Bool) (src : Bytes) → IsInert secure (replace_each is_plain (escape_byte secure) src)
unfolding replace_each
replace_each-IsInert secure [] = tt
replace_each-IsInert secure (c ∷ s) =
    All-append _ (if is_plain c then c ∷ [] else escape_byte secure c) _
      (escape_byte-IsInert secure c) (replace_each-IsInert secure s)

-- An escaped text holds no `<`, `>` or double quote, and in secure mode no single quote and no
-- slash.
pub escape_html0-IsInert : (secure : Bool) (src : Bytes) → IsInert secure (escape_html0 secure src)
escape_html0-IsInert secure src = rw escape_html0-replace_each (replace_each-IsInert secure src)
