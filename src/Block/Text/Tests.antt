-- ===== src/Block/Text/Tests.antt =====
-- The closing sequence of a heading `a b ##`.
use swift_cmark.Base.{Bytes, [], refl, ◌∷◌, ◌≡◌, ◌⊎◌}
use swift_cmark.Chunk.{chunk_rtrim}
use swift_cmark.Block.Line.{is_space_or_tab, is_line_end_char}
use swift_cmark.Houdini.{span_length}
use swift_cmark.Block.Text.{blank_loop, chop_trailing_hashtags, remove_trailing_blank_lines}
use swift_cmark.Block.Text.Trailing.{IsBlank, EndsLine, remove_trailing_blank_lines-EndsLine}
use swift_cmark.Block.Text.Closing.{IsClosed, chop_trailing_hashtags-IsClosed}

abbrev heading : Bytes
heading = b'a' ∷ b' ' ∷ b'#' ∷ b'#' ∷ b' ' ∷ []

chop_example :
    ((u : Bytes) × IsClosed (chunk_rtrim heading) u
      × (chop_trailing_hashtags heading ≡ chunk_rtrim u))
    ⊎ (((u : Bytes) → IsClosed (chunk_rtrim heading) u → ⊥)
        × (chop_trailing_hashtags heading ≡ chunk_rtrim heading))
chop_example = chop_trailing_hashtags-IsClosed heading

-- A line with a blank behind it, and two blank lines.
abbrev code : Bytes
code = b'x' ∷ b' ' ∷ b'\n' ∷ b' ' ∷ b'\n' ∷ b'\n' ∷ []

remove_example :
    (IsBlank code × (remove_trailing_blank_lines code ≡ []))
    ⊎ EndsLine code (remove_trailing_blank_lines code)
remove_example = remove_trailing_blank_lines-EndsLine code

removed : remove_trailing_blank_lines code ≡ b'x' ∷ b' ' ∷ []
unfolding remove_trailing_blank_lines blank_loop span_length is_space_or_tab is_line_end_char
removed = refl
