-- ===== src/Houdini/Href/Written.antt =====
-- What an escaped URL consists of.
use swift_cmark.Base.{
  ==_iff, Bool, Bool-cases, Bytes, [], arith, false, if◌then◌else◌, inl, inr, ltb, refl, sym, true,
  within, ℕ, ◌%◌, ◌++◌, ◌+◌, ◌-◌, ◌/◌, ◌<◌, ◌==◌, ◌||◌, ◌∙◌, ◌∷◌, ◌≡◌, ◌≢◌,
}
use swift_cmark.Houdini.{replace_each}
use swift_cmark.Houdini.Href.{href_safe, escape_unsafe, escape_href, escape_href-replace_each}

-- The bytes that the comment on the table names, less the ampersand and the single quote.
unfoldable pub url_byte : ℕ → Bool
url_byte c =
    within b'0' b'9' c
    || within b'A' b'Z' c
    || within b'a' b'z' c
    || c == b'-'
    || c == b'_'
    || c == b'.'
    || c == b'+'
    || c == b'!'
    || c == b'*'
    || c == b'('
    || c == b')'
    || c == b','
    || c == b'%'
    || c == b'#'
    || c == b'@'
    || c == b'?'
    || c == b'='
    || c == b';'
    || c == b':'
    || c == b'/'
    || c == b'$'
    || c == b'~'

-- These bytes, and an ampersand only where `&amp;` or `&#x27;` begins.
pub data IsHref : Bytes → Type 0 where
  end : IsHref []
  byte : (c : ℕ) (s : Bytes) → url_byte c ≡ true → IsHref s → IsHref (c ∷ s)
  amp : (s : Bytes) → IsHref s → IsHref (b'&' ∷ b'a' ∷ b'm' ∷ b'p' ∷ b';' ∷ s)
  quote : (s : Bytes) → IsHref s → IsHref (b'&' ∷ b'#' ∷ b'x' ∷ b'2' ∷ b'7' ∷ b';' ∷ s)

-- The table is the comment's list.
pub href_safe-url_byte : (c : ℕ) → href_safe c ≡ url_byte c
unfolding href_safe url_byte
href_safe-url_byte c = ground arith

abbrev pub digit : ℕ → ℕ
digit d = if ltb d 10 then b'0' + d else b'A' + (d - 10)

pub escape_default :
    (c : ℕ) → c ≢ b'&' → c ≢ 39 → escape_unsafe c ≡ b'%' ∷ digit (c / 16 % 16) ∷ digit (c % 16) ∷ []
unfolding escape_unsafe
escape_default c h k =
    let e : (c == b'&') ≡ false = ground (arith, h) in
    let f : (c == 39) ≡ false = ground (arith, k) in rw (e, f) refl

digit-url_byte : (d : ℕ) → d < 16 → url_byte (digit d) ≡ true
unfolding url_byte
digit-url_byte d h = ground arith

default-IsHref : (c : ℕ) (s : Bytes) → c ≢ b'&' → c ≢ 39 → IsHref s → IsHref (escape_unsafe c ++ s)
default-IsHref c s n m h = rw (escape_default c n m) (
    byte b'%' _ (unfold url_byte in refl) (
      byte (digit (c / 16 % 16)) _ (digit-url_byte (c / 16 % 16) (omega arith))
        (byte (digit (c % 16)) s (digit-url_byte (c % 16) (omega arith)) h)))

byte-IsHref :
    (c : ℕ) (s : Bytes) → IsHref s → IsHref ((if href_safe c then c ∷ [] else escape_unsafe c) ++ s)
unfolding href_safe escape_unsafe
byte-IsHref c s h = elim (Bool-cases (href_safe c)) [
  | inl e ↦ rw e (byte c s (sym (href_safe-url_byte c) ∙ e) h)
  | inr e ↦ elim (Bool-cases (c == b'&')) [
    | inl f ↦ rw ((==_iff c b'&').0 f) (amp s h)
    | inr f ↦ elim (Bool-cases (c == 39)) [
      | inl g ↦ rw ((==_iff c 39).0 g) (quote s h)
      | inr g ↦ rw e (default-IsHref c s (ground (arith, f)) (ground (arith, g)) h)
    ]
  ]
]

replace_each-IsHref : (src : Bytes) → IsHref (replace_each href_safe escape_unsafe src)
unfolding replace_each
replace_each-IsHref [] = end
replace_each-IsHref (c ∷ s) =
    byte-IsHref c (replace_each href_safe escape_unsafe s) (replace_each-IsHref s)

pub escape_href-IsHref : (src : Bytes) → IsHref (escape_href src)
escape_href-IsHref src = rw escape_href-replace_each (replace_each-IsHref src)
