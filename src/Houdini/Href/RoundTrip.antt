-- ===== src/Houdini/Href/RoundTrip.antt =====
-- An escaped URL stands for the same address.
use swift_cmark.Base.{
  ==_iff, Bool, Bool-cases, Bytes, IsBytes, [], ap, arith, at, false, if_false, if◌then◌else◌, inl,
  inr, refl, some, subst, suc, sym, true, within, zero, ℕ, ◌%◌, ◌&&◌, ◌*◌, ◌++◌, ◌+◌, ◌/◌, ◌<◌,
  ◌==◌, ◌||◌, ◌∙◌, ◌∷◌, ◌≡◌, ◌≢◌,
}
use swift_cmark.Utf8.{encode_char}
use swift_cmark.Houdini.{replace_each}
use swift_cmark.Houdini.Href.{
  href_safe, escape_unsafe, escape_href, escape_href-replace_each, hex_value,
}
use swift_cmark.Houdini.Href.Written.{IsHref, escape_href-IsHref, escape_default, digit}
use swift_cmark.Houdini.Unescape.{unescape_ent, unescape_html_f}
use swift_cmark.Houdini.Unescape.Whole.{
  Decodes, end, plain, entity, unescape_html_f-Decodes, Decodes-functional,
}
use swift_cmark.Houdini.Unescape.RoundTrip.{Knows, ent_amp}

abbrev is_hex : ℕ → Bool
is_hex c = within b'0' b'9' c || within b'A' b'F' c || within b'a' b'f' c

-- The bytes that a URL stands for, once `skip` more have been read: a percent sign with two hexadecimal
-- digits behind it is the byte with that number, any other byte is itself.
unfoldable pub decode_percent : ℕ → Bytes → Bytes
decode_percent skip [] = []
decode_percent (suc n) (c ∷ s) = decode_percent n s
decode_percent zero (c ∷ s) =
    let escaped = (hex_value (at s 0) * 16 + hex_value (at s 1)) ∷ decode_percent 2 s in
    let itself = c ∷ decode_percent 0 s in
    if c == b'%' && is_hex (at s 0) && is_hex (at s 1) then escaped else itself

abbrev is_kept : ℕ → Bool
is_kept c = href_safe c || c == b'&' || c == 39

-- An escaped URL with its entities read.
abbrev percent_byte : ℕ → Bytes
percent_byte c = if is_kept c then c ∷ [] else b'%' ∷ digit (c / 16 % 16) ∷ digit (c % 16) ∷ []

percents : Bytes → Bytes
percents [] = []
percents (c ∷ s) = percent_byte c ++ percents s

digit_hex : (d : ℕ) → d < 16 → (is_hex (digit d) ≡ true) × (hex_value (digit d) ≡ d)
unfolding hex_value
digit_hex d h = (ground arith, ground arith)

hex_safe : (c : ℕ) → is_hex c ≡ true → href_safe c ≡ true
unfolding href_safe
hex_safe c h = ground arith

-- The first byte is a digit before if it is behind.
first_hex : (s : Bytes) → is_hex (at (percents s) 0) ≡ is_hex (at s 0)
unfolding percents
first_hex [] = refl
first_hex (c ∷ s) = elim (Bool-cases (is_kept c)) [
  | inl e ↦ rw e refl
  | inr e ↦ let f : is_hex c ≡ false = ground (arith, hex_safe c, e) in rw e (sym f)
]

abbrev AllHex : ℕ → Bytes → Type 0
AllHex zero s = Unit
AllHex (suc n) [] = Unit
AllHex (suc n) (c ∷ s) = (is_hex c ≡ true) × AllHex n s

abbrev starts_hex : Bytes → Bool
starts_hex s = is_hex (at s 0) && is_hex (at s 1)

hex_kept : (c : ℕ) → is_hex c ≡ true → is_kept c ≡ true
hex_kept c h = ground (arith, hex_safe c h)

hex_head : (c : ℕ) (s : Bytes) → is_hex c ≡ true → percents (c ∷ s) ≡ c ∷ percents s
unfolding percents
hex_head c s h = rw (hex_kept c h) refl

-- Two digits stay in place.
two_digits :
    (s : Bytes)
    → starts_hex s ≡ true
    → (at (percents s) 0 ≡ at s 0) × (at (percents s) 1 ≡ at s 1) × AllHex 2 s
two_digits [] h = absurd (ground (arith, h))
two_digits (c ∷ []) h = absurd (ground (arith, h))
two_digits (c ∷ d ∷ s) h =
    let x : is_hex c ≡ true = ground (arith, h) in
    let y : is_hex d ≡ true = ground (arith, h) in
    let e : percents (c ∷ d ∷ s) ≡ c ∷ d ∷ percents s =
      hex_head c (d ∷ s) x ∙ ap (◌∷◌ c) (hex_head d s y) in
    (ap (λ t. at t 0) e, ap (λ t. at t 1) e, (x, (y, tt)))

not_two_digits : (s : Bytes) → starts_hex s ≡ false → starts_hex (percents s) ≡ false
not_two_digits [] h = unfold percents in h
not_two_digits (c ∷ s) h = elim (Bool-cases (is_hex c)) [
  | inl e ↦
      let d : is_hex (at s 0) ≡ false = ground (arith, h, e) in
      let f : is_hex (at (percents s) 0) ≡ false = first_hex s ∙ d in
      subst (λ t. starts_hex t ≡ false) (sym (hex_head c s e)) (ground (arith, f))
  | inr e ↦
      let f : is_hex (at (percents (c ∷ s)) 0) ≡ false = first_hex (c ∷ s) ∙ e in ground (arith, f)
]

-- What a round makes of a byte, the two behind it, and the texts of the two ways to go on.
abbrev round : ℕ → ℕ → ℕ → Bytes → Bytes → Bytes
round c x y escaped itself =
    if c == b'%' && is_hex x && is_hex y
    then (hex_value x * 16 + hex_value y) ∷ escaped
    else c ∷ itself

not_percent : (c : ℕ) → is_kept c ≡ false → (c == b'%') ≡ false
unfolding href_safe
not_percent c h = ground arith

-- An escaped byte is read as that byte.
decode-escaped :
    (c : ℕ) (s : Bytes)
    → c < 256
    → decode_percent 0 (b'%' ∷ digit (c / 16 % 16) ∷ digit (c % 16) ∷ s) ≡ c ∷ decode_percent 0 s
unfolding decode_percent
decode-escaped c s h =
    let (hex, value) = digit_hex (c / 16 % 16) (omega arith) in
    let (hex', value') = digit_hex (c % 16) (omega arith) in
    rw (hex, hex') (ap (λ x. x ∷ decode_percent 0 s) (omega (arith, value, value', h)))

decode-percents :
    (s : Bytes) (skip : ℕ)
    → IsBytes s
    → AllHex skip s
    → decode_percent skip (percents s) ≡ decode_percent skip s
unfolding decode_percent percents
decode-percents [] skip b h = refl
decode-percents (c ∷ s) (suc n) b (h, hs) = rw (hex_kept c h) (decode-percents s n b.1 hs)
decode-percents (c ∷ s) zero b h =
    let u = percents s in
    let rest : decode_percent 0 u ≡ decode_percent 0 s = decode-percents s 0 b.1 tt in
    elim (Bool-cases (is_kept c)) [
      | inl kept ↦ elim (Bool-cases (starts_hex s)) [
        | inl two ↦
            let (x, y, all) = two_digits s two in
            let behind : decode_percent 2 u ≡ decode_percent 2 s = decode-percents s 2 b.1 all in
            rw kept (
              ap (λ a. round c a (at u 1) (decode_percent 2 u) (decode_percent 0 u)) x
              ∙ ap (λ a. round c (at s 0) a (decode_percent 2 u) (decode_percent 0 u)) y
              ∙ ap (λ t. round c (at s 0) (at s 1) t (decode_percent 0 u)) behind
              ∙ ap (round c (at s 0) (at s 1) (decode_percent 2 s)) rest)
        | inr none_two ↦
            let not_in_u : starts_hex u ≡ false = not_two_digits s none_two in
            rw kept (
              if_false _ _ (c == b'%' && is_hex (at u 0) && is_hex (at u 1))
                (ground (arith, not_in_u))
              ∙ ap (◌∷◌ c) rest
              ∙ sym (
                  if_false _ _ (c == b'%' && is_hex (at s 0) && is_hex (at s 1))
                    (ground (arith, none_two))))
      ]
      | inr escaped ↦ rw escaped (
          decode-escaped c u b.0
          ∙ ap (◌∷◌ c) rest
          ∙ sym (
              if_false _ _ (c == b'%' && is_hex (at s 0) && is_hex (at s 1))
                (ground (arith, not_percent c escaped))))
    ]

module _ (name bytes : ℕ → Bytes) (count : ℕ) (known : Knows name bytes count) where
  ent_x27 :
      (s : Bytes)
      → unescape_ent name bytes count (b'#' ∷ b'x' ∷ b'2' ∷ b'7' ∷ b';' ∷ s) ≡ some (39 ∷ [], 5)
  unfolding unescape_ent encode_char
  ent_x27 s = ground arith

  Decodes-default :
      (c : ℕ) {s out : Bytes}
      → href_safe c ≡ false
      → c ≢ b'&'
      → c ≢ 39
      → Decodes name bytes count s out
      → Decodes name bytes count
          ((if href_safe c then c ∷ [] else escape_unsafe c) ++ s)
          (percent_byte c ++ out)
  Decodes-default c e n m d =
      let gone : is_kept c ≡ false = ground (arith, e, n, m) in
      rw (gone, e, escape_default c n m)
        (plain b'%' (omega arith)
          (plain (digit (c / 16 % 16)) (ground arith) (plain (digit (c % 16)) (ground arith) d)))

  Decodes-byte :
      (c : ℕ) {s out : Bytes}
      → Decodes name bytes count s out
      → Decodes name bytes count
          ((if href_safe c then c ∷ [] else escape_unsafe c) ++ s)
          (percent_byte c ++ out)
  unfolding href_safe escape_unsafe
  Decodes-byte c {s} {out} d = elim (Bool-cases (c == b'&')) [
    | inl e ↦ rw ((==_iff c b'&').0 e) (entity (b'&' ∷ []) 4 (ent_amp name bytes count known s) d)
    | inr n ↦ elim (Bool-cases (c == 39)) [
      | inl e ↦ rw ((==_iff c 39).0 e) (entity (39 ∷ []) 5 (ent_x27 s) d)
      | inr m ↦ elim (Bool-cases (href_safe c)) [
        | inl e ↦ rw e (plain c (ground (arith, n)) d)
        | inr e ↦ Decodes-default c e (ground (arith, n)) (ground (arith, m)) d
      ]
    ]
  ]

  replace_each-Decodes :
      (src : Bytes)
      → Decodes name bytes count (replace_each href_safe escape_unsafe src) (percents src)
  unfolding replace_each percents
  replace_each-Decodes [] = end
  replace_each-Decodes (c ∷ src) = Decodes-byte c (replace_each-Decodes src)

  unescape_html_f-percents :
      (src : Bytes) → unescape_html_f name bytes count (escape_href src) ≡ percents src
  unescape_html_f-percents src = rw escape_href-replace_each (
      Decodes-functional name bytes count
        (unescape_html_f-Decodes name bytes count (replace_each href_safe escape_unsafe src))
        (replace_each-Decodes src))

  -- With a table that gives quot, amp, lt and gt their characters, an escaped URL of bytes
  -- consists of ASCII letters and digits, of the marks that the source lists less the ampersand
  -- and the single quote, and of `&amp;` and `&#x27;`; and unescaped by the entity reader and then
  -- read with its percent escapes it is the same bytes as the URL read with its percent escapes.
  pub decode_percent-escape_href :
      (src : Bytes)
      → IsBytes src
      → IsHref (escape_href src)
        × (decode_percent 0 (unescape_html_f name bytes count (escape_href src))
            ≡ decode_percent 0 src)
  decode_percent-escape_href src h =
      (escape_href-IsHref src, rw (unescape_html_f-percents src) (decode-percents src 0 h tt))
