-- ===== src/Utf8/Check/Loop.antt =====
-- The loops of `cmark_utf8proc_check` copy and replace as described.
use swift_cmark.Base.{
  Bool-cases, Bytes, [], ap, append-nil, append_assoc, arith, at, drop, drop-drop, drop_all,
  if◌then◌else◌, inl, inr, leb, leb→le, length, length-drop, ltb, negsuc, not, pos, refl, subst,
  suc, sym, take, take-nil, true, zero, ℕ, ℤ, ◌&&◌, ◌++◌, ◌+◌, ◌-◌, ◌<◌, ◌==◌, ◌∙◌, ◌∷◌, ◌≡◌, ◌≢◌,
  ◌≤◌,
}
use native.Mathlib.Nat.{add-zero}
use swift_cmark.Buffer.Block.{at-drop}
use swift_cmark.Utf8.{valid, replacement, check_span, check_loop, check}
use swift_cmark.Utf8.Valid.{valid_bounds, valid_skip}
use swift_cmark.Utf8.Check.{
  Passes, Refused, Sanitized, end, keep, replace, IsClean, Sanitized-IsClean, Sanitized_id,
}

-- What the inner loop found between `i` and where it stopped.
record Spanned (line : Bytes) (i : ℕ) (res : ℕ × ℕ) : Type 0 where
  forward : i ≤ res.0
  inside : res.0 ≤ length line
  refused : res.0 < length line → Refused (drop res.0 line) res.1
  copied :
      (out : Bytes)
      → Sanitized (drop res.0 line) out
      → Sanitized (drop i line) (take (res.0 - i) (drop i line) ++ out)

take-add : (n m : ℕ) (s t : Bytes) → take n s ++ (take m (drop n s) ++ t) ≡ take (n + m) s ++ t
take-add zero m s t = let e : m ≡ 0 + m = omega arith in ap (λ (k : ℕ). take k s ++ t) e
take-add (suc n) m [] t = rw (take-nil m, take-nil (suc n + m))
take-add (suc n) m (c ∷ s) t =
    let e : suc (n + m) ≡ suc n + m = omega arith in
    ap (◌∷◌ c) (take-add n m s t) ∙ ap (λ (k : ℕ). take k (c ∷ s) ++ t) e

-- The loop stops at once.
stop :
    (line : Bytes) (i k : ℕ)
    → i ≤ length line
    → (i < length line → Refused (drop i line) k)
    → Spanned line i (i, k)
stop line i k le r = record {
  forward = omega arith;
  inside = le;
  refused = r;
  copied = λ out s. let e : i - i ≡ 0 = omega arith in rw e s;
}

-- One character is passed, and the loop goes on.
step :
    (line : Bytes) (i n : ℕ) (res : ℕ × ℕ)
    → Passes (drop i line) n
    → Spanned line (i + n) res
    → Spanned line i res
step line i n res c sp = record {
  forward = omega (arith, sp.forward);
  inside = sp.inside;
  refused = sp.refused;
  copied = λ out s.
      let d = drop i line in
      let rest = rw (← drop-drop n i line) at (sp.copied out s) in
      let e : n + (res.0 - (i + n)) ≡ res.0 - i = omega (arith, sp.forward) in
      subst (Sanitized d) (take-add n (res.0 - (i + n)) d out ∙ ap (λ (k : ℕ). take k d ++ out) e)
        (keep n c rest);
}

ascii-Passes : (s : Bytes) → s ≢ [] → ltb (at s 0) 0x80 ≡ true → at s 0 ≢ 0 → Passes s 1
unfolding valid
ascii-Passes [] ne a z = absurd (ne refl)
ascii-Passes (c ∷ s) ne a z = record {
  is_valid = ground arith;
  not_nul = z;
  not_empty = omega arith;
  fits = omega arith;
}

not_nil_at : (line : Bytes) (i : ℕ) → i < length line → drop i line ≢ []
not_nil_at line i h e = absurd (omega (arith, ap length e, length-drop i line))

-- The branch on a byte from 0x80 on, for each verdict of the validator.
multi_spanned :
    (fuel : ℕ) (line : Bytes) (i : ℕ) (r : ℤ)
    → i < length line
    → 0x80 ≤ at line i
    → valid (drop i line) ≡ r
    → ((n : ℕ) → 0 < n → i + n ≤ length line → Spanned line (i + n) (check_span fuel line (i + n)))
    → Spanned line i (elim r [ pos n ↦ check_span fuel line (i + n) | negsuc n ↦ (i, suc n) ])
multi_spanned fuel line i (pos n) h a e next =
    let ne = not_nil_at line i h in
    let (p, fits) = valid_bounds (drop i line) n ne e in
    let c : Passes (drop i line) n = record {
      is_valid = e;
      not_nul = λ z. absurd (omega (arith, z, at-drop line i 0, ap (at line) (add-zero i)));
      not_empty = p;
      fits = fits;
    } in
    step line i n _ c (next n p (omega (arith, fits, length-drop i line)))
multi_spanned fuel line i (negsuc n) h a e next = stop line i (suc n) (omega arith) λ _. record {
  why = inl e;
  not_empty = omega arith;
  fits = valid_skip (drop i line) n e (not_nil_at line i h);
}

check_span-Spanned :
    (fuel : ℕ) (line : Bytes) (i : ℕ)
    → i ≤ length line
    → length line - i ≤ fuel
    → Spanned line i (check_span fuel line i)
unfolding check_span
check_span-Spanned zero line i le f = stop line i 0 le (λ h. absurd (omega arith))
check_span-Spanned (suc fuel) line i le f =
    let first : at (drop i line) 0 ≡ at line i = at-drop line i 0 ∙ ap (at line) (add-zero i) in
    elim (Bool-cases (leb (length line) i)) [
      | inl past ↦ rw past (stop line i 0 le (λ h. absurd (omega (arith, leb→le _ _ past))))
      | inr more ↦
          let h : i < length line = ground arith in
          elim (Bool-cases (ltb (at line i) 0x80 && not (at line i == 0))) [
            | inl ascii ↦
                let c =
                  ascii-Passes (drop i line) (not_nil_at line i h) (ground arith) (ground arith) in
                rw (more, ascii)
                  (step line i 1 _ c
                    (check_span-Spanned fuel line (i + 1) (omega arith) (omega arith)))
            | inr other ↦ elim (Bool-cases (leb 0x80 (at line i))) [
              | inl high ↦
                  rw (more, other, high)
                    (multi_spanned fuel line i (valid (drop i line)) h (leb→le _ _ high) refl
                      λ n p fits. check_span-Spanned fuel line (i + n) fits (omega arith))
              | inr low ↦
                  rw (more, other, low)
                    (stop line i 1 le λ _. record {
                      why = inr (ground arith, refl);
                      not_empty = omega arith;
                      fits = omega (arith, length-drop i line);
                    })
            ]
          ]
    ]

span_copied :
    (line : Bytes) (org i : ℕ) (ob : Bytes)
    → (if ltb org i then ob ++ take (i - org) (drop org line) else ob)
      ≡ ob ++ take (i - org) (drop org line)
span_copied line org i ob = elim (Bool-cases (ltb org i)) [
  | inl some_bytes ↦ rw some_bytes
  | inr no_bytes ↦ let e : i - org ≡ 0 = ground arith in rw (no_bytes, e) (sym (append-nil ob))
]

-- The text appended from offset `org` on is the description's.
check_loop-Sanitized :
    (fuel : ℕ) (line : Bytes) (org : ℕ) (ob : Bytes)
    → org ≤ length line
    → length line - org ≤ fuel
    → (out : Bytes) × (check_loop fuel line org ob ≡ ob ++ out) × Sanitized (drop org line) out
unfolding check_loop
check_loop-Sanitized zero line org ob le f =
    ([], sym (append-nil ob), rw (drop_all org line (omega arith)) end)
check_loop-Sanitized (suc fuel) line org ob le f =
    let res = check_span (length line) line org in
    let sp = check_span-Spanned (length line) line org le (omega arith) in
    let cp = take (res.0 - org) (drop org line) in
    elim (Bool-cases (leb (length line) org)) [
      | inl past ↦ ([], rw past (sym (append-nil ob)), rw (drop_all org line (ground arith)) end)
      | inr more ↦ elim (Bool-cases (leb (length line) res.0)) [
        | inl all ↦ (
          cp ++ [],
          rw (more, all) (span_copied line org res.0 ob ∙ rw append-nil),
          sp.copied [] (rw (drop_all res.0 line (ground arith)) end),
        )
        | inr part ↦
            let rf = sp.refused (ground arith) in
            let (out, e, s) =
              check_loop-Sanitized fuel line (res.0 + res.1)
                ((if ltb org res.0 then ob ++ cp else ob) ++ replacement)
                (omega (arith, rf.fits, length-drop res.0 line))
                (omega (arith, rf.not_empty, sp.forward)) in
            (
              cp ++ (replacement ++ out),
              rw (more, part)
                  (e
                    ∙ ap (λ (t : Bytes). (t ++ replacement) ++ out) (span_copied line org res.0 ob)
                    ∙ simp append_assoc),
              sp.copied (replacement ++ out) (replace res.1 rf (rw (drop-drop res.1 res.0 line) s)),
            )
      ]
    ]

-- Checking any line copies each valid character that is not NUL, and puts U+FFFD in place of each
-- NUL and each refused sequence of bytes.
pub check-Sanitized : (line : Bytes) → Sanitized line (check line)
unfolding check
check-Sanitized line =
    let (out, e, s) = check_loop-Sanitized (length line) line 0 [] (omega arith) (omega arith) in
    rw e s

-- What checking any line gives is a sequence of valid UTF-8 characters none of which is NUL.
pub check-IsClean : (line : Bytes) → IsClean (check line)
check-IsClean line = Sanitized-IsClean (check-Sanitized line)

-- Checking a line of valid UTF-8 with no NUL leaves it unchanged.
pub check_id : (line : Bytes) → IsClean line → check line ≡ line
check_id line c = Sanitized_id c (check-Sanitized line)
