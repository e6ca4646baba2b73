-- ===== src/Map/Reference.antt =====
-- src/references.c and src/footnotes.c: what creates the entries of the two maps, with the functions of
-- src/inlines.c that clean a destination and a title.
use swift_cmark.Base.{
  Bool, Bytes, Option, [], at, false, if◌then◌else◌, length, take, true, ℕ, ◌&&◌, ◌+◌, ◌-◌, ◌==◌,
  ◌||◌, ◌∷◌,
}
use swift_cmark.Map.{CmarkMap, create_entry, holding}
use swift_cmark.Buffer.{unescape, contents}
use swift_cmark.Chunk.{chunk_trim}
use swift_cmark.Houdini.Unescape.{unescape_html_f}

-- `cmark_reference` beside its entry, the chunks as the bytes they show.
pub record Reference : Type 0 where
  pub is_attributes_reference : Bool
  pub url : Bytes
  pub title : Bytes
  pub attributes : Bytes

-- The quotes that `cmark_clean_title` takes off.
abbrev is_quoted : ℕ → ℕ → Bool
is_quoted first last =
    first == 39 && last == 39 || first == b'(' && last == b')' || first == b'"' && last == b'"'

-- `name`, `bytes` and `size` are the table of entities.
module _ (name bytes : ℕ → Bytes) (size : ℕ) where
  -- What `houdini_unescape_html_f` and `cmark_strbuf_unescape` leave of a text.
  abbrev unescape_both : Bytes → Bytes
  unescape_both s = contents (unescape (holding (unescape_html_f name bytes size s)))

  unfoldable pub clean_url : Bytes → Bytes
  clean_url url = elim (chunk_trim url) [ [] ↦ [] | c ∷ s ↦ unescape_both (c ∷ s) ]

  unfoldable pub clean_title : Bytes → Bytes
  clean_title [] = []
  clean_title (first ∷ s) =
      let len = length (first ∷ s) in
      if is_quoted first (at (first ∷ s) (len - 1))
      then unescape_both (take (len - 2) s)
      else unescape_both (first ∷ s)

  unfoldable pub clean_attributes : Bytes → Bytes
  clean_attributes attributes = clean_url attributes

  -- `cmark_reference_create`
  unfoldable pub reference_create :
      (ℕ → Bytes) → CmarkMap Reference → Bytes → Bytes → Bytes → Option (CmarkMap Reference)
  reference_create fold m label url title =
      let u = clean_url url in
      let t = clean_title title in
      create_entry fold m label (length u + length t)
        (record { is_attributes_reference = false; url = u; title = t; attributes = [] })

  -- `cmark_reference_create_attributes`
  unfoldable pub reference_create_attributes :
      (ℕ → Bytes) → CmarkMap Reference → Bytes → Bytes → Option (CmarkMap Reference)
  reference_create_attributes fold m label attributes = create_entry fold m label 0 (record {
    is_attributes_reference = true;
    url = [];
    title = [];
    attributes = clean_attributes attributes;
  })

-- `cmark_footnote_create`, on a node with the literal `label`.
unfoldable pub footnote_create : (ℕ → Bytes) → CmarkMap ℕ → ℕ → Bytes → Option (CmarkMap ℕ)
footnote_create fold m node label = create_entry fold m label 0 node
