-- ===== src/Render/Plain.antt =====
-- Text that is rendered as it stands.
use swift_cmark.Base.{
  All, Bool, Bytes, List-cases, Option, [], ap, append-nil, append_assoc, arith, drop, false,
  if_false, if◌then◌else◌, inl, inr, length, length-append, ltb, not, refl, some, subst, suc, sym,
  zero, ℕ, ◌%◌, ◌&&◌, ◌++◌, ◌+◌, ◌<◌, ◌==◌, ◌>>=◌, ◌∙◌, ◌∷◌, ◌≡◌, ◌≢◌, ◌≤◌,
}
use swift_cmark.Utf8.{iterate, encode_char}
use swift_cmark.Ctype.{isdigit}
use swift_cmark.Render.{
  cr_loop, out, put_escaped, literal, put_char, out_loop, render_code_point, break_line, Renderer,
  put_literal, put_prefix, Escaping,
}
use swift_cmark.Utf8.RoundTrip.{IsEncodable, iterate-encode_char}

-- UTF-8 text of one line, without NUL and without U+FFFE and U+FFFF, which are encoded as one byte.
pub data IsText : Bytes → Type 0 where
  end : IsText []
  char :
      (uc : ℕ) (s : Bytes)
      → IsEncodable uc
      → uc ≢ 0
      → uc ≢ b'\n'
      → IsText s
      → IsText (encode_char uc ++ s)

-- Whether only digits have been rendered, where they had been before.
abbrev after_digit : Bool → ℕ → Bool
after_digit b c = b && isdigit (c % 256)

-- A character at the end of the buffer, in a line that has begun.
abbrev written : Renderer → ℕ → Renderer
written r c = record r {
  buffer = r.buffer ++ encode_char c;
  column = r.column + 1;
  begin_line = false;
  begin_content = r.begin_content && isdigit (c % 256);
}

put_prefix_no : (r : Renderer) → r.begin_line ≡ false → put_prefix r ≡ r
unfolding put_prefix
put_prefix_no r e =
    ap (λ b. if b then record r { buffer = r.buffer ++ r.prefix; column = length r.prefix } else r)
      e

break_line_no : (r : Renderer) → r.width ≡ 0 → break_line r ≡ r
unfolding break_line
break_line_no r e =
    if_false _ r
      (ltb 0 r.width && ltb r.width r.column && not r.begin_line && ltb 0 r.last_breakable)
      (ground (arith, e))

put_literal-written : (r : Renderer) (c : ℕ) → c ≢ b'\n' → put_literal r c ≡ written r c
unfolding put_literal render_code_point
put_literal-written r c n = let e : (c == b'\n') ≡ false = ground (arith, n) in rw e refl

-- No line break to come, in a line that has begun.
abbrev pub IsReady : Renderer → Type 0
IsReady r = (r.width ≡ 0) × (r.begin_line ≡ false) × (r.need_cr ≡ 0)

-- The outcome is a renderer that is ready, with the bytes added to its buffer.
abbrev pub Puts : Renderer → Bytes → Option Renderer → Type 0
Puts r s o = (t : Renderer) × (o ≡ some t) × IsReady t × (t.buffer ≡ r.buffer ++ s)

pub Puts-bind :
    (r : Renderer) (a b : Bytes) (o : Option Renderer) (f : Renderer → Option Renderer)
    → Puts r a o
    → ((t : Renderer) → IsReady t → Puts t b (f t))
    → Puts r (a ++ b) (o >>= f)
Puts-bind r a b o f (t, is_result, ready, is_put) go =
    let (u, is_next, u_ready, is_rest) = go t ready in
    (
      u,
      ap (λ x. x >>= f) is_result ∙ is_next,
      u_ready,
      is_rest ∙ ap (λ x. x ++ b) is_put ∙ append_assoc r.buffer a b,
    )

encode_char-ne : (uc : ℕ) → encode_char uc ≢ []
unfolding encode_char
encode_char-ne uc e = ground arith

drop-append : (xs ys : Bytes) → drop (length xs) (xs ++ ys) ≡ ys
drop-append [] ys = refl
drop-append (x ∷ xs) ys = drop-append xs ys

module _ (outc : Renderer → Escaping → ℕ → ℕ → Renderer) where
  put_char-written :
      (r : Renderer) (s : Bytes) (len c : ℕ)
      → c ≢ b'\n'
      → put_char outc (λ _. false) r s len c false literal ≡ (written r c, 0)
  unfolding put_char put_escaped
  put_char-written r s len c n =
      if_false _ _ (c == 32 && false) (ground arith) ∙ ap (λ t. (t, 0)) (put_literal-written r c n)

  out_loop_step :
      (fuel c len b : ℕ) (r : Renderer) (xs s : Bytes)
      → c ≢ b'\n'
      → IsReady r
      → iterate (b ∷ xs) ≡ some (len, c)
      → drop len (b ∷ xs) ≡ s
      → out_loop outc (λ _. false) (suc fuel) r (b ∷ xs) false literal
        ≡ out_loop outc (λ _. false) fuel (written r c) s false literal
  unfolding out_loop
  out_loop_step fuel c len b r xs s n (width, line, _) i d =
      rw (out_loop, i)
        (ap (λ x. go (put_char outc (λ _. false) x (b ∷ xs) len c false literal))
            (put_prefix_no r line)
          ∙ ap go (put_char-written r (b ∷ xs) len c n)
          ∙ ap (λ x. out_loop outc (λ _. false) fuel x (drop (0 + len) (b ∷ xs)) false literal)
              (break_line_no (written r c) width)
          ∙ ap (λ x. out_loop outc (λ _. false) fuel (written r c) x false literal)
              (ap (λ k. drop k (b ∷ xs)) {x = 0 + len} {y = len} (omega arith) ∙ d))
    where
      go : Renderer × ℕ → Option Renderer
      go p =
          out_loop outc (λ _. false) fuel (break_line p.0) (drop (p.1 + len) (b ∷ xs)) false literal

  char-Puts :
      (fuel uc b : ℕ) (r : Renderer) (xs s : Bytes)
      → encode_char uc ≡ b ∷ xs
      → IsEncodable uc
      → uc ≢ b'\n'
      → IsReady r
      → length ((b ∷ xs) ++ s) ≤ fuel
      → ((f : ℕ)
          → length s ≤ f
          → Puts (written r uc) s (out_loop outc (λ _. false) f (written r uc) s false literal))
      → Puts r ((b ∷ xs) ++ s) (out_loop outc (λ _. false) fuel r ((b ∷ xs) ++ s) false literal)
  char-Puts zero uc b r xs s e en n ready le ih = absurd (omega (arith, le))
  char-Puts (suc fuel) uc b r xs s e en n ready le ih =
      let (t, is_rest, t_ready, is_put) = ih fuel (omega (arith, le, length-append xs s)) in
      (
        t,
        out_loop_step fuel uc (length (b ∷ xs)) b r (xs ++ s) s n ready decoded
              (drop-append (b ∷ xs) s)
            ∙ is_rest,
        t_ready,
        is_put ∙ append_assoc r.buffer (encode_char uc) s ∙ ap (λ x. r.buffer ++ (x ++ s)) e,
      )
    where
      decoded : iterate ((b ∷ xs) ++ s) ≡ some (length (b ∷ xs), uc)
      decoded = subst (λ x. iterate (x ++ s) ≡ some (length x, uc)) e (iterate-encode_char uc s en)

  out_loop-Puts :
      (fuel : ℕ) (r : Renderer) (s : Bytes)
      → IsText s
      → IsReady r
      → length s ≤ fuel
      → Puts r s (out_loop outc (λ _. false) fuel r s false literal)
  unfolding out_loop
  out_loop-Puts fuel r [] end ready le = (r, refl, ready, sym (append-nil r.buffer))
  out_loop-Puts fuel r _ (char uc s en z n text) ready le = elim (List-cases (encode_char uc)) [
    | inl e ↦ absurd (encode_char-ne uc e)
    | inr (b, xs, e) ↦
        subst (λ x. Puts r (x ++ s) (out_loop outc (λ _. false) fuel r (x ++ s) false literal))
          (sym e)
          (char-Puts fuel uc b r xs s e en n ready (subst (λ x. length (x ++ s) ≤ fuel) e le)
            (λ f le'. out_loop-Puts f (written r uc) s text (ready.0, refl, ready.2) le'))
  ]

  -- Nothing is added to such a text, and nothing is left out.
  pub out-Puts :
      (r : Renderer) (s : Bytes)
      → IsText s
      → IsReady r
      → Puts r s (out outc (λ _. false) r s false literal)
  unfolding out cr_loop
  out-Puts r s text ready =
      subst
        (λ k. Puts r s (
          out_loop outc (λ _. false) (length s)
            (cr_loop k (length r.buffer) (record r { need_cr = k })) s false literal))
        (sym none_needed)
        (out_loop-Puts (length s) (record r { need_cr = 0 }) s text (ready.0, ready.1, refl)
          (omega arith))
    where
      none_needed : (if r.in_tight_list_item && ltb 1 r.need_cr then 1 else r.need_cr) ≡ 0
      none_needed = ground (arith, ready.2)

pub ascii-IsText : (s : Bytes) → All (λ c. (c < 128) × (c ≢ 0) × (c ≢ b'\n')) s → IsText s
unfolding encode_char
ascii-IsText [] h = end
ascii-IsText (c ∷ s) ((low, z, n), hs) =
    let one : encode_char c ≡ c ∷ [] = ground arith in
    subst (λ x. IsText (x ++ s)) one (char c s enc z n (ascii-IsText s hs))
  where
    enc : IsEncodable c
    enc = record {
      below = omega (arith, low);
      not_surrogate = inl (omega (arith, low));
      not_fffe = λ e. omega (arith, low, e);
      not_ffff = λ e. omega (arith, low, e);
    }
