-- ===== src/Buffer/InPlace/Unescape.antt =====
-- `cmark_strbuf_unescape` against a description on texts.
use swift_cmark.Base.{
  Bool-cases, Bytes, [], ap, arith, at, drop, false, if◌then◌else◌, inl, inr, length, le→ltb_false,
  lt→ltb, set, subst, suc, sym, take, zero, ℕ, ◌&&◌, ◌+◌, ◌<◌, ◌==◌, ◌∙◌, ◌∷◌, ◌≡◌, ◌≤◌,
}
use swift_cmark.Buffer.Block.{at-set_ne, length-set, drop-eq-cons, drop-set}
use swift_cmark.Ctype.{ispunct}
use swift_cmark.Buffer.{Strbuf, unescape_loop, unescape, contents}
use swift_cmark.Buffer.InPlace.Compact.{Compacted, stop, write, truncate-Compacted}
use swift_cmark.Buffer.Append.{Holds}

-- A backslash in front of ASCII punctuation goes, and the punctuation stays.
unfoldable pub unescaped : Bytes → Bytes
unescaped [] = []
unescaped (c ∷ []) = c ∷ []
unescaped (c ∷ d ∷ s) =
    let both = d ∷ unescaped s in
    let one = c ∷ unescaped (d ∷ s) in if c == b'\\' && ispunct d then both else one

-- What the loop is to do from block `p`, with `n` bytes left at `r`.
abbrev Unescapes : ℕ → Bytes → ℕ → ℕ → ℕ → ℕ → Type 0
Unescapes fuel p size r w n =
    Compacted p r w n (unescaped (take n (drop r p))) (unescape_loop fuel p size r w)

unescape_write :
    (k n fuel size : ℕ) (p : Bytes) (r w v m : ℕ)
    → m ≡ k + n
    → 0 < k
    → w ≤ r
    → r + m < length p
    → Unescapes fuel (set p w v) size (r + k) (w + 1) n
    → Compacted p r w m
        (v ∷ unescaped (take n (drop (r + k) p)))
        (unescape_loop fuel (set p w v) size (r + k) (w + 1))
unescape_write k n fuel size p r w v m e pos_k le lt c =
    rw (← drop-set p w (r + k) v (omega arith)) (write k v m e c pos_k le (omega arith))

-- The byte that the loop looks at behind the last one is the NUL.
last_not_escaped :
    (p : Bytes) (r size : ℕ)
    → r + 1 ≡ size
    → at p size ≡ 0
    → (at p r == b'\\' && ispunct (at p (r + 1))) ≡ false
unfolding ispunct
last_not_escaped p r size e z =
    let nul : at p (r + 1) ≡ 0 = ap (at p) e ∙ z in rw nul (ground arith)

drop-eq-cons_at : (p : Bytes) (i j : ℕ) → j ≡ i + 1 → i < length p → drop i p ≡ at p i ∷ drop j p
drop-eq-cons_at p i j e h =
    let next : suc i ≡ j = omega arith in
    drop-eq-cons p i h ∙ ap (λ (k : ℕ). at p i ∷ drop k p) next

unescape_loop-Compacted :
    (fuel : ℕ) (p : Bytes) (size r w n : ℕ)
    → r + n ≡ size
    → n ≤ fuel
    → w ≤ r
    → size < length p
    → at p size ≡ 0
    → Unescapes fuel p size r w n
unfolding unescape_loop unescaped
unescape_loop-Compacted zero p size r w zero e f le lt z = stop p r w le
unescape_loop-Compacted zero p size r w (suc n) e f le lt z = absurd (omega arith)
unescape_loop-Compacted (suc fuel) p size r w zero e f le lt z =
    rw (le→ltb_false size r (omega arith)) (stop p r w le)
unescape_loop-Compacted (suc fuel) p size r w (suc zero) e f le lt z =
    rw
      (
        drop-eq-cons p r (omega arith),
        lt→ltb r size (omega arith),
        last_not_escaped p r size (omega arith) z,
      )
      (unescape_write 1 0 fuel size p r w (at p r) 1 (omega arith) (omega arith) le (omega arith) (
        unescape_loop-Compacted fuel (set p w (at p r)) size (r + 1) (w + 1) 0 (omega arith)
          (omega arith) (omega arith) (omega (arith, length-set p w (at p r)))
          (at-set_ne p w size (at p r) (omega arith) ∙ z)))
unescape_loop-Compacted (suc fuel) p size r w (suc (suc n)) e f le lt z =
    let one : drop (r + 1) p ≡ at p (r + 1) ∷ drop (r + 2) p =
      drop-eq-cons_at p (r + 1) (r + 2) (omega arith) (omega arith) in
    let two : drop r p ≡ at p r ∷ at p (r + 1) ∷ drop (r + 2) p =
      drop-eq-cons_at p r (r + 1) (omega arith) (omega arith) ∙ ap (◌∷◌ (at p r)) one in
    let rejoin : at p (r + 1) ∷ take n (drop (r + 2) p) ≡ take (suc n) (drop (r + 1) p) =
      sym (ap (take (suc n)) one) in
    let two_on : r + 1 + 1 ≡ r + 2 = omega arith in
    let step = λ (k m : ℕ) (v : ℕ) (split : suc (suc n) ≡ k + m) (pos_k : 0 < k).
      unescape_write k m fuel size p r w v (suc (suc n)) split pos_k le (omega arith) (
        unescape_loop-Compacted fuel (set p w v) size (r + k) (w + 1) m (omega arith) (omega arith)
          (omega arith) (omega (arith, length-set p w v))
          (at-set_ne p w size v (omega arith) ∙ z)) in
    rw (two, lt→ltb r size (omega arith))
      (elim (Bool-cases (at p r == b'\\' && ispunct (at p (r + 1)))) [
        | inl escaped ↦ rw (escaped, two_on) (step 2 n (at p (r + 1)) (omega arith) (omega arith))
        | inr plain ↦ rw plain (
            subst
              (λ (t : Bytes).
                Compacted p r w (suc (suc n)) (at p r ∷ unescaped t)
                  (unescape_loop fuel (set p w (at p r)) size (r + 1) (w + 1)))
              (sym rejoin) (step 1 (suc n) (at p r) (omega arith) (omega arith)))
      ])

-- On a buffer that holds a text, the loop in place leaves the text without the backslashes before
-- punctuation.
pub unescape-unescaped : {b : Strbuf} {s : Bytes} → Holds b s → Holds (unescape b) (unescaped s)
unfolding unescape contents
unescape-unescaped {b} {s} holds = truncate-Compacted holds (
    subst
      (λ (t : Bytes).
        Compacted b.ptr 0 0 b.size (unescaped t) (unescape_loop b.size b.ptr b.size 0 0))
      holds.contents_are
      (unescape_loop-Compacted b.size b.ptr b.size 0 0 b.size (omega arith) (omega arith)
        (omega arith) holds.valid.fits holds.terminated))
