-- ===== src/Houdini.antt =====
-- The escaping routines of src/houdini*.c. Each appends to a buffer, which stands here as the list of its
-- contents; a source pointer with its size is the list of the bytes left.
pub mod Html
pub mod Href
pub mod Unescape
mod Tests
use swift_cmark.Base.{
  Bool, Bool-cases, Bytes, [], ap, append-nil, append_assoc, arith, drop, if◌then◌else◌, inl, inr,
  length, length-drop, ltb, refl, suc, sym, take, zero, ℕ, ◌++◌, ◌<◌, ◌∙◌, ◌∷◌, ◌≡◌, ◌≤◌,
}

-- The inner loops: how many bytes at the front pass a test.
unfoldable pub span_length : (ℕ → Bool) → Bytes → ℕ
span_length test [] = 0
span_length test (c ∷ s) = let rest = span_length test s in if test c then suc rest else 0

-- What the outer loops of the escapers share: a span is copied, then the byte behind it is replaced.
unfoldable pub replace_loop : ℕ → (ℕ → Bool) → (ℕ → Bytes) → Bytes → Bytes → Bytes
unfolding span_length
replace_loop zero safe escape src ob = ob
replace_loop (suc fuel) safe escape src ob =
    let n = span_length safe src in
    let ob' = if ltb 0 n then ob ++ take n src else ob in
    elim (drop n src) [ [] ↦ ob' | c ∷ rest ↦ replace_loop fuel safe escape rest (ob' ++ escape c) ]

-- One byte after another, with no spans.
unfoldable pub replace_each : (ℕ → Bool) → (ℕ → Bytes) → Bytes → Bytes
replace_each safe escape [] = []
replace_each safe escape (c ∷ s) =
    (if safe c then c ∷ [] else escape c) ++ replace_each safe escape s

module _ (safe : ℕ → Bool) (escape : ℕ → Bytes) where
  replace_each-span :
      (src : Bytes)
      → replace_each safe escape src
        ≡ take (span_length safe src) src ++ elim (drop (span_length safe src) src) [
          | [] ↦ []
          | c ∷ rest ↦ escape c ++ replace_each safe escape rest
        ]
  unfolding replace_each span_length
  replace_each-span [] = refl
  replace_each-span (c ∷ s) = elim (Bool-cases (safe c)) [
    | inl kept ↦ rw kept (ap (◌∷◌ c) (replace_each-span s))
    | inr escaped ↦ rw escaped
  ]

  -- The two ways to go on behind a span, given that they agree on shorter texts.
  replace_rest :
      (fuel : ℕ) (rest ob : Bytes)
      → ((t o : Bytes)
          → length t < length rest
          → replace_loop fuel safe escape t o ≡ o ++ replace_each safe escape t)
      → (elim rest [ [] ↦ ob | c ∷ t ↦ replace_loop fuel safe escape t (ob ++ escape c) ])
        ≡ ob ++ elim rest [ [] ↦ [] | c ∷ t ↦ escape c ++ replace_each safe escape t ]
  replace_rest fuel [] ob ih = sym (append-nil ob)
  replace_rest fuel (c ∷ t) ob ih =
      ih t (ob ++ escape c) (omega arith) ∙ append_assoc ob (escape c) _

  -- Copying in spans is copying one byte after another.
  pub replace_loop-replace_each :
      (fuel : ℕ) (src ob : Bytes)
      → length src ≤ fuel
      → replace_loop fuel safe escape src ob ≡ ob ++ replace_each safe escape src
  unfolding replace_loop replace_each
  replace_loop-replace_each zero [] ob h = sym (append-nil ob)
  replace_loop-replace_each zero (c ∷ src) ob h = absurd (omega arith)
  replace_loop-replace_each (suc fuel) src ob h =
      let n = span_length safe src in
      let copied : (if ltb 0 n then ob ++ take n src else ob) ≡ ob ++ take n src =
        elim (Bool-cases (ltb 0 n)) [
          | inl some_bytes ↦ rw some_bytes
          | inr no_bytes ↦ let e : n ≡ 0 = ground arith in rw e (sym (append-nil ob))
        ] in
      replace_rest fuel (drop n src) (if ltb 0 n then ob ++ take n src else ob)
        (λ t o lt. replace_loop-replace_each fuel t o (omega (arith, length-drop n src)))
      ∙ ap
          (λ (o : Bytes).
            o ++ elim (drop n src) [ [] ↦ [] | c ∷ t ↦ escape c ++ replace_each safe escape t ])
          copied
      ∙ append_assoc ob (take n src) _
      ∙ ap (λ (t : Bytes). ob ++ t) (sym (replace_each-span src))
