-- ===== src/Houdini/Unescape/RoundTrip.antt =====
-- Text that the HTML escaper wrote, read back by the entity reader.
use swift_cmark.Base.{
  ==_iff, Bool, Bool-cases, Bytes, [], arith, false, if◌then◌else◌, inl, inr, length, min, some,
  suc, true, ℕ, ◌++◌, ◌-◌, ◌==◌, ◌∷◌, ◌≡◌,
}
use swift_cmark.Utf8.{encode_char}
use swift_cmark.Houdini.{replace_each}
use swift_cmark.Houdini.Html.{escape_html0, escape_byte, is_plain}
use swift_cmark.Houdini.Html.Safe.{escape_html0-replace_each}
use swift_cmark.Houdini.Unescape.{unescape_ent, unescape_html_f, lookup_entity}
use swift_cmark.Houdini.Unescape.Whole.{
  Decodes, end, plain, entity, unescape_html_f-Decodes, Decodes-functional,
}

-- What the table says of the four entities that the escaper writes.
pub record Knows (name bytes : ℕ → Bytes) (count : ℕ) : Type 0 where
  pub quot : lookup_entity name bytes count (b'q' ∷ b'u' ∷ b'o' ∷ b't' ∷ []) ≡ some (b'"' ∷ [])
  pub amp : lookup_entity name bytes count (b'a' ∷ b'm' ∷ b'p' ∷ []) ≡ some (b'&' ∷ [])
  pub lt : lookup_entity name bytes count (b'l' ∷ b't' ∷ []) ≡ some (b'<' ∷ [])
  pub gt : lookup_entity name bytes count (b'g' ∷ b't' ∷ []) ≡ some (b'>' ∷ [])

module _ (name bytes : ℕ → Bytes) (count : ℕ) (known : Knows name bytes count) where
  -- Each escape is read as the byte that it was written for.
  ent_lt :
      (s : Bytes) → unescape_ent name bytes count (b'l' ∷ b't' ∷ b';' ∷ s) ≡ some (b'<' ∷ [], 3)
  unfolding unescape_ent
  ent_lt s =
      let n : min (suc (suc (suc (length s)))) 32 - 2 ≡ suc (min (length s) 29) = omega arith in
      rw n (ground arith)

  ent_gt :
      (s : Bytes) → unescape_ent name bytes count (b'g' ∷ b't' ∷ b';' ∷ s) ≡ some (b'>' ∷ [], 3)
  unfolding unescape_ent
  ent_gt s =
      let n : min (suc (suc (suc (length s)))) 32 - 2 ≡ suc (min (length s) 29) = omega arith in
      rw n (ground arith)

  pub ent_amp :
      (s : Bytes)
      → unescape_ent name bytes count (b'a' ∷ b'm' ∷ b'p' ∷ b';' ∷ s) ≡ some (b'&' ∷ [], 4)
  unfolding unescape_ent
  ent_amp s =
      let n : min (suc (suc (suc (suc (length s))))) 32 - 2 ≡ suc (suc (min (length s) 28)) =
        omega arith in
      rw n (ground arith)

  ent_quot :
      (s : Bytes)
      → unescape_ent name bytes count (b'q' ∷ b'u' ∷ b'o' ∷ b't' ∷ b';' ∷ s) ≡ some (b'"' ∷ [], 5)
  unfolding unescape_ent
  ent_quot s =
      let n : min (suc (suc (suc (suc (suc (length s)))))) 32 - 2
          ≡ suc (suc (suc (min (length s) 27))) =
        omega arith in
      rw n (ground arith)

  ent_39 :
      (s : Bytes)
      → unescape_ent name bytes count (b'#' ∷ b'3' ∷ b'9' ∷ b';' ∷ s) ≡ some (39 ∷ [], 4)
  unfolding unescape_ent encode_char
  ent_39 s = ground arith

  ent_47 :
      (s : Bytes)
      → unescape_ent name bytes count (b'#' ∷ b'4' ∷ b'7' ∷ b';' ∷ s) ≡ some (b'/' ∷ [], 4)
  unfolding unescape_ent encode_char
  ent_47 s = ground arith

  Decodes-escape_byte :
      (secure : Bool) (c : ℕ) {s out : Bytes}
      → Decodes name bytes count s out
      → Decodes name bytes count
          ((if is_plain c then c ∷ [] else escape_byte secure c) ++ s)
          (c ∷ out)
  unfolding is_plain escape_byte
  Decodes-escape_byte secure c {s} {out} d = elim (Bool-cases (c == b'"')) [
    | inl e ↦ rw ((==_iff c b'"').0 e) (entity (b'"' ∷ []) 5 (ent_quot s) d)
    | inr n1 ↦ elim (Bool-cases (c == b'&')) [
      | inl e ↦ rw ((==_iff c b'&').0 e) (entity (b'&' ∷ []) 4 (ent_amp s) d)
      | inr n2 ↦ elim (Bool-cases (c == 39)) [
        | inl e ↦ rw ((==_iff c 39).0 e) (quote secure)
        | inr n3 ↦ elim (Bool-cases (c == b'/')) [
          | inl e ↦ rw ((==_iff c b'/').0 e) (slash secure)
          | inr n4 ↦ elim (Bool-cases (c == b'<')) [
            | inl e ↦ rw ((==_iff c b'<').0 e) (entity (b'<' ∷ []) 3 (ent_lt s) d)
            | inr n5 ↦ elim (Bool-cases (c == b'>')) [
              | inl e ↦ rw ((==_iff c b'>').0 e) (entity (b'>' ∷ []) 3 (ent_gt s) d)
              | inr n6 ↦ rw (n1, n2, n3, n4, n5, n6) (plain c (ground arith) d)
            ]
          ]
        ]
      ]
    ]
  ]
    where
      quote :
          (b : Bool)
          → Decodes name bytes count
              ((if is_plain 39 then 39 ∷ [] else escape_byte b 39) ++ s)
              (39 ∷ out)
      quote true = entity (39 ∷ []) 4 (ent_39 s) d
      quote false = plain 39 (ground arith) d

      slash :
          (b : Bool)
          → Decodes name bytes count
              ((if is_plain b'/' then b'/' ∷ [] else escape_byte b b'/') ++ s)
              (b'/' ∷ out)
      slash true = entity (b'/' ∷ []) 4 (ent_47 s) d
      slash false = plain b'/' (ground arith) d

  replace_each-Decodes :
      (secure : Bool) (src : Bytes)
      → Decodes name bytes count (replace_each is_plain (escape_byte secure) src) src
  unfolding replace_each
  replace_each-Decodes secure [] = end
  replace_each-Decodes secure (c ∷ src) =
      Decodes-escape_byte secure c (replace_each-Decodes secure src)

  -- With a table that gives quot, amp, lt and gt their characters, unescaping an escaped text
  -- gives the text back, in secure mode and otherwise.
  pub unescape_html_f-escape_html0 :
      (secure : Bool) (src : Bytes)
      → unescape_html_f name bytes count (escape_html0 secure src) ≡ src
  unescape_html_f-escape_html0 secure src = rw escape_html0-replace_each (
      Decodes-functional name bytes count
        (unescape_html_f-Decodes name bytes count (replace_each is_plain (escape_byte secure) src))
        (replace_each-Decodes secure src))
