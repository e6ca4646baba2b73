-- ===== src/Houdini/Unescape/Whole.antt =====
-- `houdini_unescape_html_f` as a whole, against a description entity by entity; escaped text read back.
use swift_cmark.Base.{
  Bool, Bool-cases, Bytes, Option-cases, [], ap, append-nil, append_assoc, arith, drop,
  if◌then◌else◌, inl, inr, leb, length, length-drop, ltb, none, not, refl, some, subst, suc, sym,
  take, zero, ℕ, ◌&&◌, ◌++◌, ◌<◌, ◌==◌, ◌∙◌, ◌∷◌, ◌≡◌, ◌≢◌, ◌≤◌,
}
use swift_cmark.Houdini.{span_length}
use swift_cmark.Houdini.Unescape.{unescape_ent, unescape_loop, unescape_html_f}

module _ (name bytes : ℕ → Bytes) (count : ℕ) where
  -- An ampersand begins an entity or stands for itself; any other byte stands for itself.
  pub data Decodes : Bytes → Bytes → Type 0 where
    end : Decodes [] []
    plain : {s out : Bytes} (c : ℕ) → c ≢ b'&' → Decodes s out → Decodes (c ∷ s) (c ∷ out)
    entity :
        {s out : Bytes} (e : Bytes) (k : ℕ)
        → unescape_ent name bytes count s ≡ some (e, k)
        → Decodes (drop k s) out
        → Decodes (b'&' ∷ s) (e ++ out)
    ampersand :
        {s out : Bytes}
        → unescape_ent name bytes count s ≡ none
        → Decodes s out
        → Decodes (b'&' ∷ s) (b'&' ∷ out)

  abbrev no_amp : ℕ → Bool
  no_amp c = not (c == b'&')

  Decodes-span :
      (s out : Bytes)
      → Decodes (drop (span_length no_amp s) s) out
      → Decodes s (take (span_length no_amp s) s ++ out)
  unfolding span_length
  Decodes-span [] out d = d
  Decodes-span (c ∷ s) out d = elim (Bool-cases (c == b'&')) [
    | inl amp ↦ rw amp (rw amp at d)
    | inr other ↦ rw other (plain c (ground arith) (Decodes-span s out (rw other at d)))
  ]

  span_stop :
      (s : Bytes) (c : ℕ) (rest : Bytes) → drop (span_length no_amp s) s ≡ c ∷ rest → c ≡ b'&'
  unfolding span_length
  span_stop [] c rest e = cc
  span_stop (d ∷ s) c rest e = ground (arith, span_stop s c rest)

  -- What the loop appends to `ob` is a decoding of `src`.
  abbrev Appends : Bytes → Bytes → Bytes → Type 0
  Appends src ob res = (out : Bytes) × (res ≡ ob ++ out) × Decodes src out

  Appends-span :
      (src ob res : Bytes)
      → Appends (drop (span_length no_amp src) src) (ob ++ take (span_length no_amp src) src) res
      → Appends src ob res
  Appends-span src ob res (out, e, d) =
      (take (span_length no_amp src) src ++ out, e ∙ append_assoc ob _ out, Decodes-span src out d)

  Appends-cons :
      {s t : Bytes} (x ob : Bytes) {res : Bytes}
      → ((out : Bytes) → Decodes t out → Decodes s (x ++ out))
      → Appends t (ob ++ x) res
      → Appends s ob res
  Appends-cons x ob f (out, e, d) = (x ++ out, e ∙ append_assoc ob x out, f out d)

  -- The part of a round behind the span, given what the rounds after it do.
  rest_decodes :
      (fuel : ℕ) (src ob : Bytes)
      → ((c : ℕ) (rest : Bytes) → src ≡ c ∷ rest → c ≡ b'&')
      → ((t o : Bytes)
          → length t < length src
          → Appends t o (unescape_loop name bytes count fuel t o))
      → Appends src ob (elim src [
        | [] ↦ ob
        | c ∷ rest ↦ elim (unescape_ent name bytes count rest) [
          | none ↦ unescape_loop name bytes count fuel rest (ob ++ b'&' ∷ [])
          | some (out, k) ↦ unescape_loop name bytes count fuel (drop k rest) (ob ++ out)
        ]
      ])
  rest_decodes fuel [] ob amp ih = ([], sym (append-nil ob), end)
  rest_decodes fuel (c ∷ rest) ob amp ih =
      elim (Option-cases (unescape_ent name bytes count rest)) [
        | inl e ↦
            rw (e, amp c rest refl)
              (Appends-cons (b'&' ∷ []) ob (λ out d. ampersand e d)
                (ih rest (ob ++ b'&' ∷ []) (omega arith)))
        | inr ((out, k), e) ↦
            rw (e, amp c rest refl)
              (Appends-cons out ob (λ o d. entity out k e d)
                (ih (drop k rest) (ob ++ out) (omega (arith, length-drop k rest))))
      ]

  unescape_loop-Appends :
      (fuel : ℕ) (src ob : Bytes)
      → length src ≤ fuel
      → Appends src ob (unescape_loop name bytes count fuel src ob)
  unfolding unescape_loop
  unescape_loop-Appends zero [] ob h = ([], sym (append-nil ob), end)
  unescape_loop-Appends zero (c ∷ src) ob h = absurd (omega arith)
  unescape_loop-Appends (suc fuel) src ob h =
      let n = span_length no_amp src in
      let copied : (if ltb 0 n then ob ++ take n src else ob) ≡ ob ++ take n src =
        elim (Bool-cases (ltb 0 n)) [
          | inl some_bytes ↦ rw some_bytes
          | inr no_bytes ↦ let e : n ≡ 0 = ground arith in rw e (sym (append-nil ob))
        ] in
      Appends-span src ob _ (
        subst
          (λ (o : Bytes). Appends (drop n src) o (unescape_loop name bytes count (suc fuel) src ob))
          copied
          (rest_decodes fuel (drop n src) (if ltb 0 n then ob ++ take n src else ob)
            (λ c rest e. span_stop src c rest e)
            (λ t o lt. unescape_loop-Appends fuel t o (omega (arith, length-drop n src)))))

  -- A text with no ampersand stands for itself.
  no_entities : (s : Bytes) → length s ≤ span_length no_amp s → Decodes s s
  unfolding span_length
  no_entities [] h = end
  no_entities (c ∷ s) h = elim (Bool-cases (c == b'&')) [
    | inl amp ↦ absurd (omega (arith, rw amp at h))
    | inr other ↦
        let l : suc (length s) ≤ suc (span_length no_amp s) = rw other at h in
        plain c (ground arith) (no_entities s (omega arith))
  ]

  -- Unescaping any text decodes it from left to right: an ampersand with an entity behind it
  -- becomes the entity's text, and every other byte stands for itself.
  pub unescape_html_f-Decodes : (src : Bytes) → Decodes src (unescape_html_f name bytes count src)
  unfolding unescape_html_f
  unescape_html_f-Decodes src =
      let n = span_length no_amp src in
      elim (Bool-cases (ltb 0 n && leb (length src) n)) [
        | inl no_amp_at_all ↦ rw (no_amp_at_all, unescape_html_f) (no_entities src (ground arith))
        | inr other ↦
            let (out, e, d) = unescape_loop-Appends (length src) src [] (omega arith) in
            rw (other, e, unescape_html_f) d
      ]

  -- There is one decoding.
  pub Decodes-functional : {s out out' : Bytes} → Decodes s out → Decodes s out' → out ≡ out'
  Decodes-functional end end = refl
  Decodes-functional (plain c ne d) (plain c' ne' d') = ap (◌∷◌ c) (Decodes-functional d d')
  Decodes-functional (plain c ne d) (entity e k h d') = absurd (ne refl)
  Decodes-functional (plain c ne d) (ampersand h d') = absurd (ne refl)
  Decodes-functional (entity e k h d) (plain c' ne' d') = absurd (ne' refl)
  Decodes-functional (entity {s} {out} e k h d) (entity {out = out'} e' k' h' d') =
      let both : some (e, k) ≡ some (e', k') = sym h ∙ h' in
      let same_text : e ≡ e' = cc in
      let same_length : k ≡ k' = cc in
      let rest = Decodes-functional (subst (λ (j : ℕ). Decodes (drop j s) out) same_length d) d' in
      ap (λ (t : Bytes). t ++ out) same_text ∙ ap (λ (t : Bytes). e' ++ t) rest
  Decodes-functional (entity e k h d) (ampersand h' d') = cc
  Decodes-functional (ampersand h d) (plain c' ne' d') = absurd (ne' refl)
  Decodes-functional (ampersand h d) (entity e' k' h' d') = cc
  Decodes-functional (ampersand h d) (ampersand h' d') = ap (◌∷◌ b'&') (Decodes-functional d d')
