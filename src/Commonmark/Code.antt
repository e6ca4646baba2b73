-- ===== src/Commonmark/Code.antt =====
-- A code span that is printed is read again.
pub mod Inside
pub mod Padded
pub mod Fence
pub mod Read
pub mod RoundTrip
use swift_cmark.Base.{
  Bool, Bytes, [], append-nil, arith, false, if◌then◌else◌, inl, inr, ltb, refl, subst, suc, sym,
  zero, ℕ, ◌&&◌, ◌++◌, ◌∷◌, ◌≡◌, ◌⊎◌,
}
use swift_cmark.Render.{Renderer}
use swift_cmark.Commonmark.{
  outc, shortest_unused_backtick_sequence, lit_loop, render_code, extra_spaces,
}
use swift_cmark.Render.{literal, out}
use swift_cmark.Commonmark.{outc}
use swift_cmark.Utf8.{encode_char}
use swift_cmark.Render.Plain.{Puts-bind, IsText, char, end, IsReady, Puts, out-Puts}

-- The text of a code span in CommonMark.
abbrev pub repeat : ℕ → ℕ → Bytes
repeat zero c = []
repeat (suc n) c = c ∷ repeat n c

abbrev pub padding : Bytes → Bytes
padding code = repeat (if extra_spaces code then 1 else 0) b' '

abbrev pub fence : Bytes → Bytes
fence code = repeat (shortest_unused_backtick_sequence code) b'`'

abbrev pub printed : Bytes → Bytes
printed code = fence code ++ (padding code ++ (code ++ (padding code ++ fence code)))

one_char : (c : ℕ) → (c ≡ b'`') ⊎ (c ≡ b' ') → IsText (c ∷ [])
unfolding encode_char
one_char c (inl e) =
    subst (λ x. IsText (x ∷ [])) (sym e)
      (char b'`' []
        (record {
          below = omega arith;
          not_surrogate = inl (omega arith);
          not_fffe = omega arith;
          not_ffff = omega arith;
        })
        (omega arith) (omega arith) end)
one_char c (inr e) =
    subst (λ x. IsText (x ∷ [])) (sym e)
      (char b' ' []
        (record {
          below = omega arith;
          not_surrogate = inl (omega arith);
          not_fffe = omega arith;
          not_ffff = omega arith;
        })
        (omega arith) (omega arith) end)

lit_loop-Puts :
    (n c : ℕ) (r : Renderer)
    → (c ≡ b'`') ⊎ (c ≡ b' ')
    → IsReady r
    → Puts r (repeat n c) (lit_loop (λ _. false) n (c ∷ []) r)
unfolding lit_loop
lit_loop-Puts zero c r h ready = (r, refl, ready, sym (append-nil r.buffer))
lit_loop-Puts (suc n) c r h ready =
    Puts-bind r (c ∷ []) (repeat n c) (out outc (λ _. false) r (c ∷ []) false literal)
      (lit_loop (λ _. false) n (c ∷ [])) (out-Puts outc r (c ∷ []) (one_char c h) ready)
      (λ t. lit_loop-Puts n c t h)

pub render_code-Puts :
    (breaks : Bool) (r : Renderer) (code : Bytes)
    → IsText code
    → IsReady r
    → Puts r (printed code) (render_code (λ _. false) breaks r code)
unfolding render_code
render_code-Puts breaks r code text ready =
    Puts-bind r (fence code) _ _ _
      (lit_loop-Puts (shortest_unused_backtick_sequence code) b'`' r (inl refl) ready)
      (λ r₁ ready₁. Puts-bind r₁ (padding code) _ _ _ (spaces r₁ ready₁) (λ r₂ ready₂.
        Puts-bind r₂ code _ _ _ (no_wrap r₂ ready₂) (λ r₃ ready₃.
          Puts-bind r₃ (padding code) _ _ _ (spaces r₃ ready₃) (λ r₄ ready₄.
            lit_loop-Puts (shortest_unused_backtick_sequence code) b'`' r₄ (inl refl) ready₄))))
  where
    spaces :
        (t : Renderer)
        → IsReady t
        → Puts t
            (padding code)
            (lit_loop (λ _. false) (if extra_spaces code then 1 else 0) (b' ' ∷ []) t)
    spaces t = lit_loop-Puts (if extra_spaces code then 1 else 0) b' ' t (inr refl)

    no_wrap :
        (t : Renderer)
        → IsReady t
        → Puts t code (out outc (λ _. false) t code (ltb 0 r.width && breaks) literal)
    no_wrap t t_ready =
        let e : ltb 0 r.width && breaks ≡ false = ground (arith, ready.0) in
        subst (λ b. Puts t code (out outc (λ _. false) t code b literal)) (sym e)
          (out-Puts outc t code text t_ready)
