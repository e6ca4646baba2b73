-- ===== src/Buffer/Search.antt =====
-- The operations of src/buffer.c that search a buffer, or hand it on: `strchr`, `strrchr`, `swap`,
-- `detach`.
use swift_cmark.Base.{
  ==_iff, Bool-cases, Bytes, Option, [], ap, arith, at, drop, if◌then◌else◌, inl, inr, leb, leb→le,
  length, length-drop, length-take, min, none, refl, some, suc, sym, take, zero, ℕ, ◌%◌, ◌+◌, ◌-◌,
  ◌<◌, ◌==◌, ◌∙◌, ◌∷◌, ◌≡◌, ◌≢◌, ◌≤◌, ◌⊎◌,
}
use swift_cmark.Buffer.Block.{at-drop}
use mathlib.Core.Option
use swift_cmark.Buffer.{Strbuf, contents, empty}
use swift_cmark.Buffer.Append.{IsValid}

-- `memchr`: the offset of the first `c`.
pub memchr : Bytes → ℕ → Option ℕ
memchr [] c = none
memchr (x ∷ s) c = let rest = memchr s c in if x == c then some 0 else Option.map suc rest

-- `cmark_strbuf_strchr` from offset `from`; `none` is -1.
pub strchr : Strbuf → ℕ → ℕ → Option ℕ
unfolding memchr contents
strchr b c from =
    if leb b.size from
    then none
    else Option.map (λ i. from + i) (memchr (take (b.size - from) (drop from b.ptr)) (c % 256))

-- The loop of `cmark_strbuf_strrchr`, down from offset `n - 1`.
pub strrchr_loop : Bytes → ℕ → ℕ → Option ℕ
strrchr_loop p c zero = none
strrchr_loop p c (suc i) =
    let rest = strrchr_loop p c i in if at p i == c % 256 then some i else rest

pub strrchr : Strbuf → ℕ → ℕ → Option ℕ
unfolding strrchr_loop
strrchr b c from =
    if b.size == 0
    then none
    else strrchr_loop b.ptr c ((if leb b.size from then b.size - 1 else from) + 1)

-- `cmark_strbuf_swap`
unfoldable pub swap : Strbuf → Strbuf → Strbuf × Strbuf
swap a b = (b, a)

-- `cmark_strbuf_detach`: the block handed over, and the buffer left.
unfoldable pub detach : Strbuf → Bytes × Strbuf
detach b = if b.asize == 0 then (0 ∷ [], b) else (b.ptr, empty)

-- The C string at a block: the bytes before the first NUL.
unfoldable pub c_string : Bytes → Bytes
c_string [] = []
c_string (c ∷ s) = let rest = c_string s in if c == 0 then [] else c ∷ rest

-- `o` is the first place from `lo` on, and below `hi`, at which the block holds `c`.
abbrev pub IsFirst : Bytes → ℕ → ℕ → ℕ → Option ℕ → Type 0
IsFirst p c lo hi none = (j : ℕ) → lo ≤ j → j < hi → at p j ≢ c
IsFirst p c lo hi (some i) =
    (lo ≤ i) × (i < hi) × (at p i ≡ c) × ((j : ℕ) → lo ≤ j → j < i → at p j ≢ c)

-- `o` is the last place below `hi`.
abbrev pub IsLast : Bytes → ℕ → ℕ → Option ℕ → Type 0
IsLast p c hi none = (j : ℕ) → j < hi → at p j ≢ c
IsLast p c hi (some i) = (i < hi) × (at p i ≡ c) × ((j : ℕ) → i < j → j < hi → at p j ≢ c)

-- As `IsFirst`, on the bytes left at an offset.
abbrev FirstOf : Bytes → ℕ → Option ℕ → Type 0
FirstOf s c o = IsFirst s c 0 (length s) o

FirstOf-cons :
    (x c : ℕ) (s : Bytes) (o : Option ℕ)
    → x ≢ c
    → FirstOf s c o
    → FirstOf (x ∷ s) c (Option.map suc o)
FirstOf-cons x c s none ne f = go
  where
    go : (j : ℕ) → 0 ≤ j → j < suc (length s) → at (x ∷ s) j ≢ c
    go zero l h = ne
    go (suc j) l h = f j (omega arith) (omega arith)
FirstOf-cons x c s (some i) ne f = (omega arith, omega arith, f.2, later)
  where
    later : (j : ℕ) → 0 ≤ j → j < suc i → at (x ∷ s) j ≢ c
    later zero l h = ne
    later (suc j) l h = f.3 j (omega arith) (omega arith)

memchr-FirstOf : (s : Bytes) (c : ℕ) → FirstOf s c (memchr s c)
unfolding memchr
memchr-FirstOf [] c = λ j l h. absurd (omega arith)
memchr-FirstOf (x ∷ s) c = elim (Bool-cases (x == c)) [
  | inl same ↦
      rw same (omega arith, omega arith, (==_iff x c).0 same, λ j l h. absurd (omega arith))
  | inr other ↦ rw other (FirstOf-cons x c s (memchr s c) (ground arith) (memchr-FirstOf s c))
]

at-take : (n i : ℕ) (p : Bytes) → i < n → at (take n p) i ≡ at p i
at-take zero i p h = absurd (omega arith)
at-take (suc n) i [] h = refl
at-take (suc n) zero (x ∷ p) h = refl
at-take (suc n) (suc i) (x ∷ p) h = at-take n i p (omega arith)

at-window : (p : Bytes) (lo n j : ℕ) → j < n → at (take n (drop lo p)) j ≡ at p (lo + j)
at-window p lo n j h = at-take n j (drop lo p) h ∙ at-drop p lo j

-- A search on the `n` bytes at offset `lo` is one on the block.
module _ (p : Bytes) (c lo n hi : ℕ) (e : hi ≡ lo + n) where
  not_in_window :
      (k : ℕ)
      → k ≤ n
      → ((j : ℕ) → 0 ≤ j → j < k → at (take n (drop lo p)) j ≢ c)
      → (j : ℕ) → lo ≤ j
      → j < lo + k
      → at p j ≢ c
  not_in_window k kn f j l h eq =
      let there : lo + (j - lo) ≡ j = omega arith in
      f (j - lo) (omega arith) (omega arith)
        (at-window p lo n (j - lo) (omega arith) ∙ ap (at p) there ∙ eq)

  IsFirst-shift :
      (o : Option ℕ)
      → length (take n (drop lo p)) ≡ n
      → FirstOf (take n (drop lo p)) c o
      → IsFirst p c lo hi (Option.map (λ i. lo + i) o)
  IsFirst-shift none len f =
      λ j l k. not_in_window n (omega arith) (λ i a b. f i a (omega arith)) j l (omega arith)
  IsFirst-shift (some i) len f = (
    omega arith,
    omega (arith, f.1),
    sym (at-window p lo n i (omega (arith, f.1))) ∙ f.2,
    λ j l k. not_in_window i (omega (arith, f.1)) f.3 j l k,
  )

-- In a valid buffer, `strchr` finds the first place from the offset on, below the size, that holds
-- the character modulo 256, and nothing exactly if there is none.
pub strchr-IsFirst :
    (b : Strbuf) (c from : ℕ) → IsValid b → IsFirst b.ptr (c % 256) from b.size (strchr b c from)
unfolding strchr
strchr-IsFirst b c from v = elim (Bool-cases (leb b.size from)) [
  | inl past ↦ rw past (λ j l h. absurd (omega (arith, leb→le b.size from past)))
  | inr inside ↦
      let n = b.size - from in
      rw inside (
        IsFirst-shift b.ptr (c % 256) from n b.size (ground arith)
          (memchr (take n (drop from b.ptr)) (c % 256))
          (omega (arith, length-take n (drop from b.ptr), length-drop from b.ptr, v.fits))
          (memchr-FirstOf (take n (drop from b.ptr)) (c % 256)))
]

lt_or_eq : (j n : ℕ) → j < suc n → (j < n) ⊎ (j ≡ n)
lt_or_eq j n h = elim (Bool-cases (j == n)) [
  | inl e ↦ inr ((==_iff j n).0 e)
  | inr e ↦ inl (ground arith)
]

IsLast-suc :
    (p : Bytes) (c n : ℕ) (o : Option ℕ) → at p n ≢ c → IsLast p c n o → IsLast p c (suc n) o
IsLast-suc p c n none ne f =
    λ j h e. elim (lt_or_eq j n h) [ inl lt ↦ f j lt e | inr same ↦ ne (ap (at p) (sym same) ∙ e) ]
IsLast-suc p c n (some i) ne f = (
  omega (arith, f.0),
  f.1,
  λ j l h e. elim (lt_or_eq j n h) [
    | inl lt ↦ f.2 j l lt e
    | inr same ↦ ne (ap (at p) (sym same) ∙ e)
  ],
)

strrchr_loop-IsLast : (p : Bytes) (c n : ℕ) → IsLast p (c % 256) n (strrchr_loop p c n)
unfolding strrchr_loop
strrchr_loop-IsLast p c zero = λ j h. absurd (omega arith)
strrchr_loop-IsLast p c (suc i) = elim (Bool-cases (at p i == c % 256)) [
  | inl here ↦ rw here (omega arith, (==_iff _ _).0 here, λ j l h. absurd (omega arith))
  | inr other ↦
      rw other
        (IsLast-suc p (c % 256) i (strrchr_loop p c i) (ground arith) (strrchr_loop-IsLast p c i))
]

-- `strrchr` finds the last place up to the offset, below the size, that holds the character modulo
-- 256, and nothing exactly if there is none.
pub strrchr-IsLast :
    (b : Strbuf) (c from : ℕ) → IsLast b.ptr (c % 256) (min (from + 1) b.size) (strrchr b c from)
unfolding strrchr
strrchr-IsLast b c from = elim (Bool-cases (b.size == 0)) [
  | inl z ↦ rw z (λ j h. absurd (omega (arith, (==_iff b.size 0).0 z)))
  | inr nz ↦
      let e : (if leb b.size from then b.size - 1 else from) + 1 ≡ min (from + 1) b.size =
        ground arith in
      rw (nz, e) (strrchr_loop-IsLast b.ptr c (min (from + 1) b.size))
]
