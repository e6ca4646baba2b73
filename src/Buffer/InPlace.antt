-- ===== src/Buffer/InPlace.antt =====
-- The operations that shorten a buffer where it stands: `truncate`, `drop`, `rtrim`, `trim`.
pub mod Compact
pub mod Normalize
pub mod Unescape
use swift_cmark.Base.{
  ==_iff, Bool-cases, Bytes, [], ap, arith, at, drop, drop-nil, if◌then◌else◌, inl, inr, length,
  length-drop, length-take, ltb, min, refl, subst, suc, sym, take, zero, ℕ, ◌++◌, ◌-◌, ◌==◌, ◌∙◌,
  ◌∷◌, ◌≡◌, ◌≤◌,
}
use swift_cmark.Ctype.{isspace}
use swift_cmark.Buffer.{
  Strbuf, contents, resize, truncate, drop_front, rtrim_size, rtrim, leading_spaces, trim, blit,
}
use swift_cmark.Buffer.Append.{Holds, resize-Holds}
use swift_cmark.Buffer.Block.{length-blit, take-drop, take-blit, take-suc, take_all, take-take}

keep_end : ℕ → Bytes → Bytes
keep_end c [] = if isspace c then [] else c ∷ []
keep_end c (x ∷ s) = c ∷ x ∷ s

-- The text without the spaces at its end.
unfoldable pub trim_end : Bytes → Bytes
unfolding keep_end
trim_end [] = []
trim_end (c ∷ s) = keep_end c (trim_end s)

-- The text without the spaces at its start.
unfoldable pub trim_start : Bytes → Bytes
trim_start [] = []
trim_start (c ∷ s) = let rest = trim_start s in if isspace c then rest else c ∷ s

keep_end-concat : (x : ℕ) (s : Bytes) (c : ℕ) → keep_end x (s ++ c ∷ []) ≡ x ∷ (s ++ c ∷ [])
unfolding keep_end
keep_end-concat x [] c = refl
keep_end-concat x (y ∷ s) c = refl

trim_end-concat :
    (s : Bytes) (c : ℕ) → trim_end (s ++ c ∷ []) ≡ (if isspace c then trim_end s else s ++ c ∷ [])
unfolding trim_end
trim_end-concat [] c = refl
trim_end-concat (x ∷ s) c = ground (arith, trim_end-concat s c, keep_end-concat x s c)

rtrim_size-trim_end :
    (p : Bytes) (n : ℕ) → n ≤ length p → take (rtrim_size p n) p ≡ trim_end (take n p)
unfolding rtrim_size trim_end
rtrim_size-trim_end p zero h = refl
rtrim_size-trim_end p (suc n) h = elim (Bool-cases (isspace (at p n))) [
  | inl space ↦
      rw (take-suc p n h, trim_end-concat (take n p) (at p n), space)
        (rtrim_size-trim_end p n (omega arith))
  | inr other ↦ rw (take-suc p n h, trim_end-concat (take n p) (at p n), other) (take-suc p n h)
]

trim_end_empty : (s : Bytes) → length s ≡ 0 → trim_end s ≡ s
unfolding trim_end
trim_end_empty [] e = refl
trim_end_empty (c ∷ s) e = absurd (omega arith)

trim_empty : (s : Bytes) → length s ≡ 0 → trim_end (trim_start s) ≡ s
unfolding trim_end trim_start
trim_empty [] e = refl
trim_empty (c ∷ s) e = absurd (omega arith)

rtrim_size-le : (p : Bytes) (n : ℕ) → rtrim_size p n ≤ n
unfolding rtrim_size
rtrim_size-le p zero = omega arith
rtrim_size-le p (suc n) = ground (arith, rtrim_size-le p n)

drop-leading_spaces : (s : Bytes) → drop (leading_spaces s) s ≡ trim_start s
unfolding leading_spaces trim_start
drop-leading_spaces [] = refl
drop-leading_spaces (c ∷ s) = ground (arith, drop-leading_spaces s)

drop-min : (n : ℕ) (s : Bytes) → drop (min n (length s)) s ≡ drop n s
drop-min zero s = let e : min 0 (length s) ≡ 0 = omega arith in ap (λ (k : ℕ). drop k s) e
drop-min (suc n) [] = drop-nil (min (suc n) 0)
drop-min (suc n) (x ∷ s) =
    let e : min (suc n) (suc (length s)) ≡ suc (min n (length s)) = omega arith in
    ap (λ (k : ℕ). drop k (x ∷ s)) e ∙ drop-min n s

module _ {b : Strbuf} {s : Bytes} (holds : Holds b s) where
  pub Holds-size : length s ≡ b.size
  unfolding contents
  Holds-size =
      omega (arith, ap length holds.contents_are, length-take b.size b.ptr, holds.valid.fits)

  -- Truncating a buffer that holds a text leaves its first `len` bytes, or all of them if there
  -- are no more.
  pub truncate-take : (len : ℕ) → Holds (truncate b len) (take len s)
  unfolding truncate contents
  truncate-take len = elim (Bool-cases (ltb len b.size)) [
    | inl shorter ↦ rw shorter (
        subst (Holds (resize b len))
          (sym (take-take len b.size b.ptr (ground arith)) ∙ ap (take len) holds.contents_are)
          (resize-Holds b holds.valid.sized len (ground arith)))
    | inr longer ↦ rw (longer, take_all s len (ground (arith, Holds-size))) holds
  ]

  -- Dropping `n` bytes from a buffer that holds a text leaves the text without its first `n`
  -- bytes, and nothing if it has no more.
  pub drop_front-drop : (n : ℕ) → Holds (drop_front b n) (drop n s)
  unfolding drop_front contents
  drop_front-drop zero = holds
  drop_front-drop (suc k) =
      let n = min (suc k) b.size in
      let left = b.size - n in
      let d = take left (drop n b.ptr) in
      let len : length d ≡ left =
        omega (arith, length-take left (drop n b.ptr), length-drop n b.ptr, holds.valid.fits) in
      let moved : take left (blit b.ptr 0 d) ≡ d =
        take-blit b.ptr 0 d left (omega arith) (omega (arith, holds.valid.fits)) in
      let cut : d ≡ drop n s =
        take-drop left n b.size b.ptr (omega arith) ∙ ap (drop n) holds.contents_are in
      let all : drop n s ≡ drop (suc k) s =
        ap (λ (m : ℕ). drop (min (suc k) m) s) (sym Holds-size) ∙ drop-min (suc k) s in
      subst (Holds _) (moved ∙ cut ∙ all) (
        resize-Holds (record b { ptr = blit b.ptr 0 d }) (length-blit b.ptr 0 d ∙ holds.valid.sized)
          left (omega (arith, length-blit b.ptr 0 d, holds.valid.fits)))

  -- The text without the spaces at its end.
  pub rtrim-trim_end : Holds (rtrim b) (trim_end s)
  unfolding rtrim contents
  rtrim-trim_end = elim (Bool-cases (b.size == 0)) [
    | inl z ↦ rw (z, nothing (omega (arith, Holds-size, (==_iff b.size 0).0 z))) holds
    | inr nz ↦ rw nz (
        subst (Holds _)
          (rtrim_size-trim_end b.ptr b.size (omega (arith, holds.valid.fits))
            ∙ ap trim_end holds.contents_are)
          (resize-Holds b holds.valid.sized (rtrim_size b.ptr b.size)
            (omega (arith, rtrim_size-le b.ptr b.size, holds.valid.fits))))
  ]
    where
      nothing : length s ≡ 0 → trim_end s ≡ s
      nothing e = trim_end_empty s e

module _ {b : Strbuf} {s : Bytes} (holds : Holds b s) where
  -- Trimming a buffer that holds a text leaves the text without the white space at its start and
  -- at its end.
  pub trim_lem : Holds (trim b) (trim_end (trim_start s))
  unfolding trim contents trim_start trim_end
  trim_lem = elim (Bool-cases (b.size == 0)) [
    | inl z ↦ rw (z, trim_empty s (omega (arith, Holds-size holds, (==_iff b.size 0).0 z))) holds
    | inr nz ↦ rw nz (
        subst
          (λ (t : Bytes).
            Holds (rtrim (drop_front b (leading_spaces (take b.size b.ptr)))) (trim_end t))
          (ap (λ (t : Bytes). drop (leading_spaces t) s) holds.contents_are ∙ drop-leading_spaces s)
          (rtrim-trim_end (drop_front-drop holds (leading_spaces (take b.size b.ptr)))))
  ]
