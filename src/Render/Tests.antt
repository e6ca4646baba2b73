-- ===== src/Render/Tests.antt =====
-- Line breaking on small texts.
use swift_cmark.Utf8.{iterate}
use swift_cmark.Houdini.{span_length}
use swift_cmark.Buffer.Search.{c_string}
use swift_cmark.Base.{
  Bytes, Option, [], arith, false, refl, some, true, ℕ, ◌++◌, ◌+◌, ◌>>=◌, ◌∷◌, ◌≡◌,
}
use swift_cmark.Render.{
  break_line, put_escaped, wrap_space, put_char, put_prefix, cr_loop, out_loop, out, literal,
  normal, Escaping, Renderer,
}
use swift_cmark.Render.Total.{out_total}
use swift_cmark.Render.Plain.{Puts, out-Puts, ascii-IsText}

abbrev plain_outc : Renderer → Escaping → ℕ → ℕ → Renderer
plain_outc r escape c nextc = record r { buffer = r.buffer ++ c ∷ []; column = r.column + 1 }

-- In a block quote, at the beginning of a line.
abbrev quoting : Renderer
quoting = record {
  buffer = b'a' ∷ b'\n' ∷ [];
  prefix = b'>' ∷ b' ' ∷ [];
  column = 0;
  width = 6;
  need_cr = 0;
  last_breakable = 0;
  begin_line = true;
  begin_content = true;
  no_linebreaks = false;
  in_tight_list_item = false;
}

abbrev bytes_of : Option Renderer → Option Bytes
bytes_of o = o >>= λ r. some r.buffer

-- `b cd e` does not fit, and is broken behind `cd`.
broken :
    bytes_of (
      out plain_outc
        (λ _. false)
        quoting
        (b'b' ∷ b' ' ∷ b'c' ∷ b'd' ∷ b' ' ∷ b'e' ∷ [])
        true
        normal)
    ≡ some
        (b'a' ∷ b'\n' ∷ b'>' ∷ b' ' ∷ b'b' ∷ b' ' ∷ b'c' ∷ b'd' ∷ b'\n' ∷ b'>' ∷ b' ' ∷ b'e' ∷ [])
unfolding out out_loop cr_loop put_prefix put_char wrap_space put_escaped break_line iterate
    span_length c_string
broken = refl

-- A space at the beginning of a line is left out, but the prefix is put for it and once more behind it.
prefix_twice :
    bytes_of (out plain_outc (λ _. false) quoting (b' ' ∷ b'x' ∷ []) true normal)
    ≡ some (b'a' ∷ b'\n' ∷ b'>' ∷ b' ' ∷ b'>' ∷ b' ' ∷ b'x' ∷ [])
unfolding out out_loop cr_loop put_prefix put_char wrap_space put_escaped break_line iterate
prefix_twice = refl

out_total_example :
    (t : Renderer) × (out plain_outc (λ _. false) quoting (b' ' ∷ b'x' ∷ []) true normal ≡ some t)
out_total_example =
    out_total plain_outc (λ _. false) normal quoting (b' ' ∷ b'x' ∷ []) true (omega arith)

abbrev ready : Renderer
ready = record {
  buffer = b'a' ∷ [];
  prefix = [];
  column = 1;
  width = 0;
  need_cr = 0;
  last_breakable = 0;
  begin_line = false;
  begin_content = false;
  no_linebreaks = false;
  in_tight_list_item = false;
}

out-Puts_example :
    Puts ready
      (b'`' ∷ b'x' ∷ [])
      (out plain_outc (λ _. false) ready (b'`' ∷ b'x' ∷ []) false literal)
out-Puts_example =
    out-Puts plain_outc ready (b'`' ∷ b'x' ∷ []) (ascii-IsText (b'`' ∷ b'x' ∷ []) (omega arith))
      (refl, refl, refl)
