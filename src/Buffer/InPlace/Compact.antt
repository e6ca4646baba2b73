-- ===== src/Buffer/InPlace/Compact.antt =====
-- Loops that read a block at `r` and write what they keep into the same block at `w`, behind `r`.
use swift_cmark.Base.{
  Bool-cases, Bytes, [], ap, append-nil, append_assoc, arith, at, inl, inr, length, ltb, refl, set,
  subst, suc, sym, take, ℕ, ◌++◌, ◌+◌, ◌<◌, ◌∙◌, ◌∷◌, ◌≡◌, ◌≤◌,
}
use swift_cmark.Buffer.{Strbuf, contents, truncate}
use swift_cmark.Buffer.Append.{Holds, resize-Holds}
use swift_cmark.Buffer.Block.{at-set_ne, take-suc-set, length-set}

-- With `n` bytes of block `p` left to read at `r`, the loop ended with block and size `res`, and put
-- `out` at `w`. What stands behind the bytes that it reads is untouched.
pub record Compacted (p : Bytes) (r w n : ℕ) (out : Bytes) (res : Bytes × ℕ) : Type 0 where
  pub len : length res.0 ≡ length p
  pub bound : res.1 ≤ r + n
  pub made : take res.1 res.0 ≡ take w p ++ out
  pub behind : at res.0 (r + n) ≡ at p (r + n)

pub stop : (p : Bytes) (r w : ℕ) → w ≤ r → Compacted p r w 0 [] (p, w)
stop p r w h = record {
  len = refl;
  bound = omega arith;
  made = sym (append-nil (take w p));
  behind = refl;
}

module _ {p : Bytes} {r w n : ℕ} {out : Bytes} {res : Bytes × ℕ} where
  -- `k` bytes were read, and `v` was written.
  pub write :
      (k v m : ℕ)
      → m ≡ k + n
      → Compacted (set p w v) (r + k) (w + 1) n out res
      → 0 < k
      → w ≤ r
      → r + k + n < length p
      → Compacted p r w m (v ∷ out) res
  write k v m split c pos_k le lt = record {
    len = c.len ∙ length-set p w v;
    bound = omega (arith, c.bound);
    made =
        let e : w + 1 ≡ suc w = omega arith in
        let first : take (w + 1) (set p w v) ≡ take w p ++ v ∷ [] =
          ap (λ (j : ℕ). take j (set p w v)) e ∙ take-suc-set p w v (omega arith) in
        c.made ∙ ap (λ (t : Bytes). t ++ out) first ∙ append_assoc (take w p) (v ∷ []) out;
    behind =
        let e : r + m ≡ r + k + n = omega arith in
        ap (at res.0) e ∙ c.behind ∙ at-set_ne p w (r + k + n) v (omega arith) ∙ ap (at p) (sym e);
  }

  pub skip : Compacted p (r + 1) w n out res → Compacted p r w (suc n) out res
  skip c = record {
    len = c.len;
    bound = omega (arith, c.bound);
    made = c.made;
    behind =
        let e : r + suc n ≡ r + 1 + n = omega arith in
        ap (at res.0) e ∙ c.behind ∙ ap (at p) (sym e);
  }

-- The buffer after such a loop over all of it, and the cut that follows.
pub truncate-Compacted :
    {b : Strbuf} {s out res_p : Bytes} {w : ℕ}
    → Holds b s
    → Compacted b.ptr 0 0 b.size out (res_p, w)
    → Holds (truncate (record b { ptr = res_p }) w) out
unfolding truncate contents
truncate-Compacted {b} {s} {out} {res_p} {w} holds c = elim (Bool-cases (ltb w b.size)) [
  | inl shorter ↦ rw shorter (
      subst (Holds _) c.made (
        resize-Holds (record b { ptr = res_p }) (c.len ∙ holds.valid.sized) w
          (omega (arith, holds.valid.fits, c.len, c.bound))))
  | inr same ↦
      let e : w ≡ b.size = ground (arith, c.bound) in
      let zero_at : 0 + b.size ≡ b.size = omega arith in
      rw same (record {
        contents_are = ap (λ (m : ℕ). take m res_p) (sym e) ∙ c.made;
        valid = record {
          fits = omega (arith, holds.valid.fits, c.len);
          sized = c.len ∙ holds.valid.sized;
        };
        terminated =
            ap (at res_p) (sym zero_at) ∙ c.behind ∙ ap (at b.ptr) zero_at ∙ holds.terminated;
      })
]
