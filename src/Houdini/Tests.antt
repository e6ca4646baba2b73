-- ===== src/Houdini/Tests.antt =====
-- The escaping theorems at concrete texts, with a table of the four entities that the escaper writes.
use swift_cmark.Base.{Bytes, [], arith, if◌then◌else◌, refl, some, true, ℕ, ◌<◌, ◌==◌, ◌∷◌, ◌≡◌}
use Prim.Native.Nat.{lt}
use swift_cmark.Strings.{strcmp}
use swift_cmark.Houdini.Html.{escape_html0}
use swift_cmark.Houdini.Html.Safe.{IsInert, escape_html0-IsInert}
use swift_cmark.Houdini.Href.{href_safe, escape_unsafe, hex_value, escape_href}
use swift_cmark.Houdini.Href.Written.{IsHref}
use swift_cmark.Houdini.Href.RoundTrip.{decode_percent, decode_percent-escape_href}
use swift_cmark.Houdini.Unescape.{unescape_html_f, lookup_entity}
use swift_cmark.Houdini.Unescape.Whole.{Decodes, unescape_html_f-Decodes}
use swift_cmark.Houdini.Unescape.Lookup.{lookup_entity_complete}
use swift_cmark.Houdini.Unescape.RoundTrip.{Knows, unescape_html_f-escape_html0}

abbrev names : ℕ → Bytes
names k =
    if k == 0
    then b'a' ∷ b'm' ∷ b'p' ∷ []
    else if k == 1
    then b'g' ∷ b't' ∷ []
    else if k == 2
    then b'l' ∷ b't' ∷ []
    else b'q' ∷ b'u' ∷ b'o' ∷ b't' ∷ []

abbrev values : ℕ → Bytes
values k =
    if k == 0
    then b'&' ∷ []
    else if k == 1
    then b'>' ∷ []
    else if k == 2
    then b'<' ∷ []
    else b'"' ∷ []

names_sorted : (j k : ℕ) → j < k → k < 4 → strcmp (names j) (names k) ≡ lt
unfolding strcmp
names_sorted j k h l = ground arith

names_known : Knows names values 4
names_known = record {
  quot = lookup_entity_complete names values 4 names_sorted 3 (omega arith);
  amp = lookup_entity_complete names values 4 names_sorted 0 (omega arith);
  lt = lookup_entity_complete names values 4 names_sorted 2 (omega arith);
  gt = lookup_entity_complete names values 4 names_sorted 1 (omega arith);
}

-- `<"&'/é`
abbrev markup : Bytes
markup = b'<' ∷ b'"' ∷ b'&' ∷ 39 ∷ b'/' ∷ 0xc3 ∷ 0xa9 ∷ []

-- `a&lt;&#65;&x`
abbrev with_entities : Bytes
with_entities =
    b'a' ∷ b'&' ∷ b'l' ∷ b't' ∷ b';' ∷ b'&' ∷ b'#' ∷ b'6' ∷ b'5' ∷ b';' ∷ b'&' ∷ b'x' ∷ []

round_trip_example : unescape_html_f names values 4 (escape_html0 true markup) ≡ markup
round_trip_example = unescape_html_f-escape_html0 names values 4 names_known true markup

escape_html0-IsInert_example : IsInert true (escape_html0 true markup)
escape_html0-IsInert_example = escape_html0-IsInert true markup

unescape_html_f-Decodes_example :
    Decodes names values 4 with_entities (unescape_html_f names values 4 with_entities)
unescape_html_f-Decodes_example = unescape_html_f-Decodes names values 4 with_entities

complete_example : lookup_entity names values 4 (names 2) ≡ some (values 2)
complete_example = lookup_entity_complete names values 4 names_sorted 2 (omega arith)

decode_percent-escape_href_example :
    IsHref (escape_href markup)
    × (decode_percent 0 (unescape_html_f names values 4 (escape_href markup))
        ≡ decode_percent 0 markup)
decode_percent-escape_href_example = decode_percent-escape_href names values 4 names_known markup (
  omega arith,
  (omega arith, (omega arith, (omega arith, (omega arith, (omega arith, (omega arith, tt)))))),
)

-- A quotation mark and an ampersand in a URL, and what an escape in it stands for.
escaped_href :
    escape_href (b'"' ∷ b'&' ∷ b'%' ∷ b'4' ∷ b'1' ∷ [])
    ≡ b'%' ∷ b'2' ∷ b'2' ∷ b'&' ∷ b'a' ∷ b'm' ∷ b'p' ∷ b';' ∷ b'%' ∷ b'4' ∷ b'1' ∷ []
unfolding escape_href href_safe escape_unsafe
escaped_href = refl

decoded : decode_percent 0 (b'a' ∷ b'%' ∷ b'4' ∷ b'1' ∷ b'%' ∷ []) ≡ b'a' ∷ b'A' ∷ b'%' ∷ []
unfolding decode_percent hex_value
decoded = refl
