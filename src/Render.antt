-- ===== src/Render.antt =====
-- src/render.c: the renderer with line breaking that CommonMark, LaTeX, man and plain text share. The
-- buffer is the list of its contents (`Buffer.put_lem`). What renders a node is not modelled here.
pub mod Total
pub mod Plain
mod Tests
use swift_cmark.Base.{
  Bool, Bytes, Option, [], at, drop, false, if◌then◌else◌, length, ltb, none, not, some, suc, take,
  true, zero, ℕ, ◌%◌, ◌&&◌, ◌++◌, ◌+◌, ◌-◌, ◌==◌, ◌||◌, ◌∷◌,
}
use swift_cmark.Buffer.Search.{c_string}
use swift_cmark.Houdini.{span_length}
use swift_cmark.Ctype.{isdigit}
use swift_cmark.Utf8.{iterate, encode_char}

-- `cmark_escaping`
pub data Escaping : Type 0 where
  literal : Escaping
  normal : Escaping
  title : Escaping
  url : Escaping

-- `cmark_renderer`, less the functions in it. A width below 0 is 0.
pub record Renderer : Type 0 where
  pub buffer : Bytes
  pub prefix : Bytes
  pub column : ℕ
  pub width : ℕ
  pub need_cr : ℕ
  pub last_breakable : ℕ
  pub begin_line : Bool
  pub begin_content : Bool
  pub no_linebreaks : Bool
  pub in_tight_list_item : Bool

-- `S_cr` and `S_blankline`
unfoldable pub cr : Renderer → Renderer
cr r = if ltb r.need_cr 1 then record r { need_cr = 1 } else r

unfoldable pub blankline : Renderer → Renderer
blankline r = if ltb r.need_cr 2 then record r { need_cr = 2 } else r

-- `cmark_render_ascii`
unfoldable pub render_ascii : Renderer → Bytes → Renderer
render_ascii r s = record r { buffer = r.buffer ++ s; column = r.column + length s }

-- `cmark_render_code_point`
unfoldable pub render_code_point : Renderer → ℕ → Renderer
unfolding encode_char
render_code_point r c = record r { buffer = r.buffer ++ encode_char c; column = r.column + 1 }

-- The loop on `need_cr`; `k` stands one above that of the source, and at 0 below it.
unfoldable pub cr_loop : ℕ → ℕ → Renderer → Renderer
cr_loop zero k r = r
cr_loop (suc n) k r =
    let at_newline = k == 0 || at r.buffer (k - 1) == b'\n' in
    cr_loop n (if at_newline then k - 1 else k) (record r {
      buffer =
          if at_newline
          then r.buffer
          else r.buffer ++ b'\n' ∷ (if ltb 1 (suc n) then r.prefix else []);
      column = 0;
      last_breakable = 0;
      begin_line = true;
      begin_content = true;
      need_cr = n;
    })

-- The prefix at the beginning of a line.
unfoldable pub put_prefix : Renderer → Renderer
put_prefix r =
    if r.begin_line then record r { buffer = r.buffer ++ r.prefix; column = length r.prefix } else r

-- The spaces that follow the byte at hand.
abbrev pub more_spaces : Bytes → ℕ
more_spaces s = span_length (λ c. c == b' ') (drop 1 s)

-- A space that may become a line break, and how many more are skipped.
unfoldable pub wrap_space : Renderer → Bytes → Renderer × ℕ
unfolding isdigit
wrap_space r s = if r.begin_line then (r, 0) else (
  record r {
    buffer = r.buffer ++ b' ' ∷ [];
    column = r.column + 1;
    begin_line = false;
    begin_content = false;
    last_breakable =
        if isdigit (at s (more_spaces s + 1)) then r.last_breakable else length r.buffer;
  },
  more_spaces s,
)

unfoldable pub put_literal : Renderer → ℕ → Renderer
unfolding render_code_point isdigit
put_literal r c =
    if c == b'\n'
    then record r {
      buffer = r.buffer ++ b'\n' ∷ [];
      column = 0;
      begin_line = true;
      begin_content = true;
      last_breakable = 0;
    }
    else (let t = render_code_point r c in
        record t { begin_line = false; begin_content = t.begin_content && isdigit (c % 256) })

-- Breaks the line where it last could have been, once it has grown too long.
unfoldable pub break_line : Renderer → Renderer
break_line r =
    let remainder = c_string (drop (r.last_breakable + 1) r.buffer) in
    if ltb 0 r.width && ltb r.width r.column && not r.begin_line && ltb 0 r.last_breakable
    then record r {
      buffer = take r.last_breakable r.buffer ++ b'\n' ∷ r.prefix ++ remainder;
      column = length r.prefix + length remainder;
      last_breakable = 0;
      begin_line = false;
      begin_content = false;
    }
    else r

-- The `outc` of an output format, and whether the extension that the node is under escapes a character.
module _ (outc : Renderer → Escaping → ℕ → ℕ → Renderer) (escapes : ℕ → Bool) where
  unfoldable pub put_escaped : Renderer → Escaping → ℕ → ℕ → Renderer
  unfolding isdigit put_literal
  put_escaped r literal c nextc = put_literal r c
  put_escaped r escape c nextc =
      let t = outc r escape c nextc in
      record t { begin_line = false; begin_content = t.begin_content && isdigit (c % 256) }

  -- The character at the head of `s`, of `len` bytes, and how many bytes more are skipped.
  unfoldable pub put_char : Renderer → Bytes → ℕ → ℕ → Bool → Escaping → Renderer × ℕ
  unfolding wrap_space put_escaped
  put_char r s len c wrap escape =
      let t = if escapes c then record r { buffer = r.buffer ++ b'\\' ∷ [] } else r in
      if c == 32 && wrap then wrap_space t s else (put_escaped t escape c (at s len), 0)

  -- The loop over the source; `none` is a loop without end.
  unfoldable pub out_loop : ℕ → Renderer → Bytes → Bool → Escaping → Option Renderer
  unfolding put_prefix put_char break_line
  out_loop fuel r [] wrap escape = some r
  out_loop zero r (b ∷ s) wrap escape = none
  out_loop (suc fuel) r (b ∷ s) wrap escape =
      let r' = put_prefix r in
      elim (iterate (b ∷ s)) [
        | none ↦ some r'
        | some (len, c) ↦
            let (t, skipped) = put_char r' (b ∷ s) len c wrap escape in
            out_loop fuel (break_line t) (drop (skipped + len) (b ∷ s)) wrap escape
      ]

  -- `S_out` on the bytes before the NUL of `source`.
  unfoldable pub out : Renderer → Bytes → Bool → Escaping → Option Renderer
  unfolding cr_loop out_loop
  out r source wrap escape =
      let need = if r.in_tight_list_item && ltb 1 r.need_cr then 1 else r.need_cr in
      let r' = cr_loop need (length r.buffer) (record r { need_cr = need }) in
      out_loop (length source) r' source (wrap && not r.no_linebreaks) escape

-- What `cmark_render` does with the buffer at its end.
unfoldable pub final_newline : Bytes → Bytes
final_newline buffer =
    if length buffer == 0 || not (at buffer (length buffer - 1) == b'\n')
    then buffer ++ b'\n' ∷ []
    else buffer
