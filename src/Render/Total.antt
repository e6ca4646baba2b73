-- ===== src/Render/Total.antt =====
-- The renderer's loop ends.
use swift_cmark.Base.{
  All-drop, Bool, Bytes, IsBytes, Option-cases, [], arith, drop, inl, inr, length, length-drop,
  refl, some, suc, zero, ℕ, ◌+◌, ◌<◌, ◌∷◌, ◌≡◌, ◌≤◌,
}
use swift_cmark.Utf8.RoundTrip.{iterate_scalar}
use swift_cmark.Utf8.{iterate}
use swift_cmark.Render.{break_line, put_char, put_prefix, out, out_loop, Renderer, Escaping}

module _ (outc : Renderer → Escaping → ℕ → ℕ → Renderer) (escapes : ℕ → Bool)
    (escape : Escaping) where
  shorter :
      (b : ℕ) (s : Bytes) (fuel : ℕ)
      → length s ≤ fuel
      → (n : ℕ) → 0 < n
      → length (drop n (b ∷ s)) ≤ fuel
  shorter b s fuel le n h = omega (arith, le, h, length-drop n (b ∷ s))

  out_loop_total :
      (fuel : ℕ) (r : Renderer) (s : Bytes) (wrap : Bool)
      → IsBytes s
      → length s ≤ fuel
      → (t : Renderer) × (out_loop outc escapes fuel r s wrap escape ≡ some t)
  unfolding out_loop
  out_loop_total fuel r [] wrap h le = (r, refl)
  out_loop_total zero r (b ∷ s) wrap h le = absurd (omega arith)
  out_loop_total (suc fuel) r (b ∷ s) wrap h le = elim (Option-cases (iterate (b ∷ s))) [
    | inl e ↦ rw (out_loop, e) (put_prefix r, refl)
    | inr (x, e) ↦
        let (t, skipped) = put_char outc escapes (put_prefix r) (b ∷ s) x.0 x.1 wrap escape in
        let positive : 0 < skipped + x.0 = omega (arith, iterate_scalar (b ∷ s) x.0 x.1 h e) in
        rw (out_loop, e)
          (out_loop_total fuel (break_line t) (drop (skipped + x.0) (b ∷ s)) wrap
            (All-drop (λ c. c < 256) (skipped + x.0) (b ∷ s) h)
            (shorter b s fuel (omega (arith, le)) (skipped + x.0) positive))
  ]

  -- Whatever the state of the renderer, the width, the prefix, the escaping and what the output
  -- format does with a character, rendering a source of bytes ends.
  pub out_total :
      (r : Renderer) (source : Bytes) (wrap : Bool)
      → IsBytes source
      → (t : Renderer) × (out outc escapes r source wrap escape ≡ some t)
  unfolding out
  out_total r source wrap h = out_loop_total (length source) _ source _ h (omega arith)
