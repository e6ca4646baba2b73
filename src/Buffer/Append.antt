-- ===== src/Buffer/Append.antt =====
-- Growth and the operations that add bytes: what they do to the contents.
use swift_cmark.Base.{
  Bool-cases, Bytes, [], ap, append-nil, arith, at, false, if◌then◌else◌, inl, inr, leb, length,
  le→ltb_false, ltb, not, refl, set, some, subst, suc, sym, take, ℕ, ◌%◌, ◌++◌, ◌+◌, ◌<◌, ◌==◌, ◌^◌,
  ◌∙◌, ◌∷◌, ◌≡◌, ◌≤◌,
}
use swift_cmark.Buffer.{
  Mem, Strbuf, max_size, oversize, blit, grow, contents, clear, putc, put, assign, resize,
  write_byte, write_bytes,
}
use swift_cmark.Buffer.Block.{
  length-set, at-set, take-set, take-suc-set, take-eq_le, length-blit, take-blit, take_all,
}
use native.Mathlib.Nat.{le_refl}

-- The bytes and the NUL behind them fit the block, whose size is recorded.
pub record IsValid (b : Strbuf) : Type 0 where
  pub fits : b.size < length b.ptr
  pub sized : length b.ptr ≡ (if b.asize == 0 then 1 else b.asize)

-- The string is NUL-terminated.
abbrev pub IsTerminated : Strbuf → Type 0
IsTerminated b = at b.ptr b.size ≡ 0

-- The new size exceeds the target by room for a NUL, is a multiple of 8, and fits an int32_t.
pub oversize_lem :
    (target : ℕ)
    → target ≤ max_size
    → (target < oversize target) × (oversize target % 8 ≡ 0) × (oversize target < 2 ^ 31)
unfolding oversize
oversize_lem target h = omega arith

-- A grown buffer `b'` has room for `target` bytes and the NUL, and the bytes of `b`.
pub record Grown (b : Strbuf) (target : ℕ) (b' : Strbuf) : Type 0 where
  pub room : target < length b'.ptr
  pub sized : length b'.ptr ≡ b'.asize
  pub same_size : b'.size ≡ b.size
  pub same_bytes : take b.size b'.ptr ≡ take b.size b.ptr

-- The buffer holds exactly these bytes, with a NUL behind them.
pub record Holds (b : Strbuf) (out : Bytes) : Type 0 where
  pub contents_are : contents b ≡ out
  pub valid : IsValid b
  pub terminated : IsTerminated b

module _ (b : Strbuf) (is_sized : length b.ptr ≡ (if b.asize == 0 then 1 else b.asize)) where
  pub resize-Holds : (n : ℕ) → n < length b.ptr → Holds (resize b n) (take n b.ptr)
  unfolding contents
  resize-Holds n h = record {
    contents_are = take-set b.ptr n n 0 (le_refl n);
    valid = record {
      fits = omega (arith, length-set b.ptr n 0);
      sized = length-set b.ptr n 0 ∙ is_sized;
    };
    terminated = at-set b.ptr n 0 h;
  }

pub write_byte-Holds :
    (b : Strbuf) (c : ℕ)
    → length b.ptr ≡ (if b.asize == 0 then 1 else b.asize)
    → b.size + 1 < length b.ptr
    → Holds (write_byte b c) (contents b ++ c % 256 ∷ [])
unfolding contents
write_byte-Holds b c e h =
    let p = set b.ptr b.size (c % 256) in
    let same = length-set b.ptr b.size (c % 256) in
    let n : b.size + 1 ≡ suc b.size = omega arith in
    subst (Holds (write_byte b c))
      (ap (λ (k : ℕ). take k p) n ∙ take-suc-set b.ptr b.size (c % 256) (omega arith))
      (resize-Holds (record b { ptr = p }) (same ∙ e) (b.size + 1) (omega arith))

pub write_bytes-Holds :
    (b : Strbuf) (i : ℕ) (d : Bytes)
    → length b.ptr ≡ (if b.asize == 0 then 1 else b.asize)
    → i + length d < length b.ptr
    → Holds (write_bytes b i d) (take i b.ptr ++ d)
write_bytes-Holds b i d e h =
    let p = blit b.ptr i d in
    let same = length-blit b.ptr i d in
    subst (Holds (write_bytes b i d)) (take-blit b.ptr i d (i + length d) refl (omega arith))
      (resize-Holds (record b { ptr = p }) (same ∙ e) (i + length d) (omega arith))

pub clear-Holds : (b : Strbuf) → IsValid b → IsTerminated b → Holds (clear b) []
unfolding clear contents
clear-Holds b v t = elim (Bool-cases (ltb 0 b.asize)) [
  | inl some_block ↦ rw some_block (resize-Holds b v.sized 0 (omega arith))
  | inr no_block ↦
      let none_yet : b.size ≡ 0 = ground arith in
      rw no_block (record {
        contents_are = refl;
        valid = record { fits = omega arith; sized = v.sized };
        terminated = ap (at b.ptr) (sym none_yet) ∙ t;
      })
]

Grown-sized :
    {b b' : Strbuf} {n : ℕ} → Grown b n b' → length b'.ptr ≡ (if b'.asize == 0 then 1 else b'.asize)
Grown-sized g = ground arith

-- A block of the size that `cmark_strbuf_grow` records is big enough for what is asked of it.
module _ (m : Mem) where
  take-realloc_le :
      (p : Bytes) (n k : ℕ) → length p ≤ n → k ≤ length p → take k (m.realloc p n) ≡ take k p
  take-realloc_le p n k h l =
      let e = m.take-realloc p n h in
      take-eq_le k (length p) (m.realloc p n) p l
        (e ∙ sym (take_all p (length p) (le_refl (length p))))

  -- What a reallocation makes of a buffer whose block is too small.
  Grown-realloc :
      (b : Strbuf) (target : ℕ)
      → IsValid b
      → b.asize ≤ target
      → target ≤ max_size
      → Grown b target (record {
        ptr = m.realloc (if b.asize == 0 then [] else b.ptr) (oversize target);
        asize = oversize target;
        size = b.size;
      })
  Grown-realloc b target v s h = elim (Bool-cases (b.asize == 0)) [
    | inl z ↦
        let none_yet : b.size ≡ 0 = ground arith in
        record {
          room = omega (
            arith,
            m.length-realloc (if b.asize == 0 then [] else b.ptr) (oversize target),
            oversize_lem target h,
          );
          sized = m.length-realloc _ _;
          same_size = refl;
          same_bytes = rw none_yet;
        }
    | inr nz ↦
        let len : length b.ptr ≡ b.asize = ground arith in
        record {
          room = omega (
            arith,
            m.length-realloc (if b.asize == 0 then [] else b.ptr) (oversize target),
            oversize_lem target h,
          );
          sized = m.length-realloc _ _;
          same_size = refl;
          same_bytes = rw nz (
              take-realloc_le b.ptr (oversize target) b.size (omega (arith, oversize_lem target h))
                (omega arith));
        }
  ]

  -- Growing a valid buffer to a target above 0, from its size to the maximal size, succeeds: the
  -- block has room for the target and a NUL, its recorded size is right, and the bytes are kept.
  pub grow_lem :
      (b : Strbuf) (target : ℕ)
      → 0 < target
      → IsValid b
      → b.size ≤ target
      → target ≤ max_size
      → (b' : Strbuf) × (grow m b target ≡ some b') × Grown b target b'
  unfolding grow
  grow_lem b target positive v s h =
      let asserted : not (ltb 0 target) ≡ false = ground (arith, positive) in
      elim (Bool-cases (ltb target b.asize)) [
        | inl fits ↦ (
          b,
          rw (asserted, fits),
          record { room = ground arith; sized = ground arith; same_size = refl; same_bytes = refl },
        )
        | inr small ↦ (
          _,
          rw (asserted, small, le→ltb_false target max_size h),
          Grown-realloc b target v (ground arith) h,
        )
      ]

  -- On a valid buffer with a byte to go to the maximal size, appending a character succeeds, and
  -- the buffer then holds its old contents and the character modulo 256.
  pub putc_lem :
      (b : Strbuf) (c : ℕ)
      → IsValid b
      → b.size + 1 ≤ max_size
      → (b' : Strbuf) × (putc m b c ≡ some b') × Holds b' (contents b ++ c % 256 ∷ [])
  unfolding putc contents
  putc_lem b c v h =
      let (g, e, grown) = grow_lem b (b.size + 1) (omega arith) v (omega arith) h in
      let out = write_byte-Holds g c (Grown-sized grown) (omega arith) in
      (
        write_byte g c,
        rw e,
        subst (λ (s : Bytes). Holds (write_byte g c) (s ++ c % 256 ∷ []))
            (ap (λ (k : ℕ). take k g.ptr) grown.same_size ∙ grown.same_bytes) out,
      )

  -- On a valid, terminated buffer, appending bytes that stay within the maximal size succeeds, and
  -- the buffer then holds its old contents and the bytes behind them, valid and NUL-terminated,
  -- whatever the allocator leaves in the rest of a block.
  pub put_lem :
      (b : Strbuf) (d : Bytes)
      → IsValid b
      → IsTerminated b
      → b.size + length d ≤ max_size
      → (b' : Strbuf) × (put m b d ≡ some b') × Holds b' (contents b ++ d)
  unfolding put contents
  put_lem b [] v t h =
      (b, refl, record { contents_are = sym (append-nil (contents b)); valid = v; terminated = t })
  put_lem b (c ∷ d) v t h =
      let (g, e, grown) = grow_lem b (b.size + length (c ∷ d)) (omega arith) v (omega arith) h in
      let out = write_bytes-Holds g g.size (c ∷ d) (Grown-sized grown) (omega arith) in
      (
        write_bytes g g.size (c ∷ d),
        rw e,
        subst (λ (s : Bytes). Holds (write_bytes g g.size (c ∷ d)) (s ++ c ∷ d))
            (ap (λ (k : ℕ). take k g.ptr) grown.same_size ∙ grown.same_bytes) out,
      )

  -- On a valid, terminated buffer, setting bytes within the maximal size succeeds, and the buffer
  -- then holds exactly these bytes.
  pub assign_lem :
      (b : Strbuf) (d : Bytes)
      → IsValid b
      → IsTerminated b
      → length d ≤ max_size
      → (b' : Strbuf) × (assign m b (some d) ≡ some b') × Holds b' d
  unfolding assign clear
  assign_lem b [] v t h = (clear b, refl, clear-Holds b v t)
  assign_lem b (c ∷ d) v t h = elim (Bool-cases (leb b.asize (length (c ∷ d)))) [
    | inl small ↦
        let (g, e, grown) = grow_lem b (length (c ∷ d)) (omega arith) v (ground arith) h in
        (
          write_bytes g 0 (c ∷ d),
          rw (small, e),
          write_bytes-Holds g 0 (c ∷ d) (Grown-sized grown) (omega arith),
        )
    | inr big ↦
        (write_bytes b 0 (c ∷ d), rw big, write_bytes-Holds b 0 (c ∷ d) v.sized (ground arith))
  ]
