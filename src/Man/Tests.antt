-- ===== src/Man/Tests.antt =====
-- A break before a period.
use swift_cmark.Houdini.{span_length}
use swift_cmark.Buffer.Search.{c_string}
use swift_cmark.Base.{Bytes, Option, [], false, refl, some, true, ◌>>=◌, ◌∷◌, ◌≡◌}
use swift_cmark.Utf8.{iterate}
use swift_cmark.Render.{render_ascii, Renderer, normal, out}
use swift_cmark.Man.{escaped}
use swift_cmark.Man

abbrev empty : Renderer
empty = record {
  buffer = [];
  prefix = [];
  column = 0;
  width = 5;
  need_cr = 0;
  last_breakable = 0;
  begin_line = true;
  begin_content = true;
  no_linebreaks = false;
  in_tight_list_item = false;
}

abbrev bytes_of : Option Renderer → Option Bytes
bytes_of o = o >>= λ r. some r.buffer

-- At the beginning of a line a period is escaped.
period :
    bytes_of (out Man.outc (λ _. false) empty (b'.' ∷ []) true normal)
    ≡ some (b'\\' ∷ b'&' ∷ b'.' ∷ [])
unfolding out iterate escaped Man.outc render_ascii
period = refl

-- Behind a space it is not, and then the line is broken before it.
period_behind_break :
    bytes_of
      (out Man.outc (λ _. false) empty (b'a' ∷ b'b' ∷ b'c' ∷ b' ' ∷ b'.' ∷ b'd' ∷ []) true normal)
    ≡ some (b'a' ∷ b'b' ∷ b'c' ∷ b'\n' ∷ b'.' ∷ b'd' ∷ [])
unfolding out iterate escaped Man.outc span_length c_string
period_behind_break = refl
