-- ===== src/Buffer/InPlace/Normalize.antt =====
-- `cmark_strbuf_normalize_whitespace` against a description on texts.
use swift_cmark.Base.{
  Bool, Bool-cases, Bytes, [], ap, arith, at, drop, false, if◌then◌else◌, inl, inr, length, set,
  subst, suc, take, true, zero, ℕ, ◌+◌, ◌<◌, ◌∙◌, ◌∷◌, ◌≡◌, ◌≤◌,
}
use swift_cmark.Ctype.{isspace}
use swift_cmark.Buffer.Block.{drop-set, length-set, drop-eq-cons}
use swift_cmark.Buffer.{Strbuf, normalize_loop, normalize_whitespace, contents}
use swift_cmark.Buffer.InPlace.Compact.{Compacted, stop, write, skip, truncate-Compacted}
use swift_cmark.Buffer.Append.{Holds}

-- Each run of spaces becomes one space; none if a space stands before the text.
unfoldable pub collapse : Bool → Bytes → Bytes
collapse last [] = []
collapse last (c ∷ s) =
    let rest = collapse (isspace c) s in
    if isspace c then (if last then rest else b' ' ∷ rest) else c ∷ rest

-- One more byte is written, and the rest of the loop is known.
normalize_write :
    (n : ℕ) (p : Bytes) (r w v : ℕ) (l : Bool)
    → w ≤ r
    → r + suc n < length p
    → Compacted
        (set p w v)
        (r + 1)
        (w + 1)
        n
        (collapse l (take n (drop (r + 1) (set p w v))))
        (normalize_loop n (set p w v) (r + 1) (w + 1) l)
    → Compacted p r w
        (suc n)
        (v ∷ collapse l (take n (drop (suc r) p)))
        (normalize_loop n (set p w v) (r + 1) (w + 1) l)
normalize_write n p r w v l le lt c =
    let e : r + 1 ≡ suc r = omega arith in
    let same : drop (r + 1) (set p w v) ≡ drop (suc r) p =
      ap (λ (k : ℕ). drop k (set p w v)) e ∙ drop-set p w (suc r) v (omega arith) in
    rw (← same) (write 1 v (suc n) (omega arith) c (omega arith) le (omega arith))

normalize_loop-Compacted :
    (n : ℕ) (p : Bytes) (r w : ℕ) (last : Bool)
    → w ≤ r
    → r + n < length p
    → Compacted p r w n (collapse last (take n (drop r p))) (normalize_loop n p r w last)
unfolding normalize_loop collapse
normalize_loop-Compacted zero p r w last le lt = stop p r w le
normalize_loop-Compacted (suc n) p r w last le lt =
    let written = λ (v : ℕ) (l : Bool). normalize_write n p r w v l le lt (
      normalize_loop-Compacted n (set p w v) (r + 1) (w + 1) l (omega arith)
        (omega (arith, length-set p w v))) in
    rw (drop-eq-cons p r (omega arith)) (elim (Bool-cases (isspace (at p r))) [
      | inl space ↦ elim (Bool-cases last) [
        | inl again ↦
            rw (space, again)
              (let e : suc r ≡ r + 1 = omega arith in
                rw e
                  (skip (normalize_loop-Compacted n p (r + 1) w true (omega arith) (omega arith))))
        | inr first ↦ rw (space, first) (written b' ' true)
      ]
      | inr other ↦ rw other (written (at p r) false)
    ])

-- On a buffer that holds a text, the loop in place leaves the text with each run of white space
-- made one space.
pub normalize_whitespace-collapse :
    {b : Strbuf} {s : Bytes} → Holds b s → Holds (normalize_whitespace b) (collapse false s)
unfolding normalize_whitespace contents
normalize_whitespace-collapse {b} {s} holds = truncate-Compacted holds (
    subst
      (λ (t : Bytes).
        Compacted b.ptr 0 0 b.size (collapse false t) (normalize_loop b.size b.ptr 0 0 false))
      holds.contents_are
      (normalize_loop-Compacted b.size b.ptr 0 0 false (omega arith)
        (omega (arith, holds.valid.fits))))
