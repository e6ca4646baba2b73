-- ===== src/Buffer/Block.antt =====
-- Facts about blocks of memory: single writes, `memmove`, and reading on from an offset.
use swift_cmark.Base.{
  Bytes, [], ap, arith, at, drop, length, refl, set, suc, sym, take, zero, ℕ, ◌++◌, ◌+◌, ◌<◌, ◌∙◌,
  ◌∷◌, ◌≡◌, ◌≢◌, ◌≤◌,
}
use swift_cmark.Buffer.{blit}

pub length-set : (p : Bytes) (i v : ℕ) → length (set p i v) ≡ length p
length-set [] i v = refl
length-set (x ∷ p) zero v = refl
length-set (x ∷ p) (suc i) v = ap suc (length-set p i v)

pub at-set : (p : Bytes) (i v : ℕ) → i < length p → at (set p i v) i ≡ v
at-set [] i v h = absurd (omega arith)
at-set (x ∷ p) zero v h = refl
at-set (x ∷ p) (suc i) v h = at-set p i v (omega arith)

pub at-set_ne : (p : Bytes) (i j v : ℕ) → i ≢ j → at (set p i v) j ≡ at p j
at-set_ne [] i j v h = refl
at-set_ne (x ∷ p) zero zero v h = absurd (h refl)
at-set_ne (x ∷ p) zero (suc j) v h = refl
at-set_ne (x ∷ p) (suc i) zero v h = refl
at-set_ne (x ∷ p) (suc i) (suc j) v h = at-set_ne p i j v (omega arith)

-- A write leaves what stands before it.
pub take-set : (p : Bytes) (i n v : ℕ) → n ≤ i → take n (set p i v) ≡ take n p
take-set p i zero v h = refl
take-set [] i (suc n) v h = refl
take-set (x ∷ p) zero (suc n) v h = absurd (omega arith)
take-set (x ∷ p) (suc i) (suc n) v h = ap (◌∷◌ x) (take-set p i n v (omega arith))

pub take-suc-set :
    (p : Bytes) (i v : ℕ) → i < length p → take (suc i) (set p i v) ≡ take i p ++ v ∷ []
take-suc-set [] i v h = absurd (omega arith)
take-suc-set (x ∷ p) zero v h = refl
take-suc-set (x ∷ p) (suc i) v h = ap (◌∷◌ x) (take-suc-set p i v (omega arith))

-- And what stands behind it.
pub drop-set : (p : Bytes) (i n v : ℕ) → i < n → drop n (set p i v) ≡ drop n p
drop-set p i zero v h = absurd (omega arith)
drop-set [] i (suc n) v h = refl
drop-set (x ∷ p) zero (suc n) v h = refl
drop-set (x ∷ p) (suc i) (suc n) v h = drop-set p i n v (omega arith)

pub drop-eq-cons : (p : Bytes) (i : ℕ) → i < length p → drop i p ≡ at p i ∷ drop (suc i) p
drop-eq-cons [] i h = absurd (omega arith)
drop-eq-cons (x ∷ p) zero h = refl
drop-eq-cons (x ∷ p) (suc i) h = drop-eq-cons p i (omega arith)

pub take-suc : (p : Bytes) (i : ℕ) → i < length p → take (suc i) p ≡ take i p ++ at p i ∷ []
take-suc [] i h = absurd (omega arith)
take-suc (x ∷ p) zero h = refl
take-suc (x ∷ p) (suc i) h = ap (◌∷◌ x) (take-suc p i (omega arith))

pub at-drop : (p : Bytes) (i j : ℕ) → at (drop i p) j ≡ at p (i + j)
at-drop p zero j = let e : j ≡ 0 + j = omega arith in ap (at p) e
at-drop [] (suc i) j = refl
at-drop (x ∷ p) (suc i) j =
    let e : suc (i + j) ≡ suc i + j = omega arith in at-drop p i j ∙ ap (at (x ∷ p)) e

pub take-take : (n m : ℕ) (p : Bytes) → n ≤ m → take n (take m p) ≡ take n p
take-take zero m p h = refl
take-take (suc n) zero p h = absurd (omega arith)
take-take (suc n) (suc m) [] h = refl
take-take (suc n) (suc m) (x ∷ p) h = ap (◌∷◌ x) (take-take n m p (omega arith))

-- Two blocks that begin alike begin alike up to any smaller size.
pub take-eq_le : (n m : ℕ) (p q : Bytes) → n ≤ m → take m p ≡ take m q → take n p ≡ take n q
take-eq_le n m p q h e = sym (take-take n m p h) ∙ ap (take n) e ∙ take-take n m q h

pub take_all : (p : Bytes) (n : ℕ) → length p ≤ n → take n p ≡ p
take_all [] zero h = refl
take_all [] (suc n) h = refl
take_all (x ∷ p) zero h = absurd (omega arith)
take_all (x ∷ p) (suc n) h = ap (◌∷◌ x) (take_all p n (omega arith))

pub take-drop : (n i m : ℕ) (p : Bytes) → m ≡ i + n → take n (drop i p) ≡ drop i (take m p)
take-drop n zero m p e = ap (λ (k : ℕ). take k p) (omega arith)
take-drop n (suc i) zero p e = absurd (omega arith)
take-drop zero (suc i) (suc m) [] e = refl
take-drop (suc n) (suc i) (suc m) [] e = refl
take-drop n (suc i) (suc m) (x ∷ p) e = take-drop n i m p (omega arith)

pub length-blit : (p : Bytes) (i : ℕ) (d : Bytes) → length (blit p i d) ≡ length p
unfolding blit
length-blit [] i d = refl
length-blit (x ∷ p) (suc i) d = ap suc (length-blit p i d)
length-blit (x ∷ p) zero [] = refl
length-blit (x ∷ p) zero (c ∷ d) = ap suc (length-blit p zero d)

-- `memmove` inside the block puts the bytes behind what stood before the offset.
pub take-blit :
    (p : Bytes) (i : ℕ) (d : Bytes) (n : ℕ)
    → n ≡ i + length d
    → n ≤ length p
    → take n (blit p i d) ≡ take i p ++ d
unfolding blit
take-blit [] zero [] zero e h = refl
take-blit [] i d (suc n) e h = absurd (omega arith)
take-blit [] (suc i) d zero e h = absurd (omega arith)
take-blit [] zero (c ∷ d) zero e h = absurd (omega arith)
take-blit (x ∷ p) (suc i) d zero e h = absurd (omega arith)
take-blit (x ∷ p) (suc i) d (suc n) e h = ap (◌∷◌ x) (take-blit p i d n (omega arith) (omega arith))
take-blit (x ∷ p) zero [] zero e h = refl
take-blit (x ∷ p) zero [] (suc n) e h = absurd (omega arith)
take-blit (x ∷ p) zero (c ∷ d) zero e h = absurd (omega arith)
take-blit (x ∷ p) zero (c ∷ d) (suc n) e h =
    ap (◌∷◌ c) (take-blit p zero d n (omega arith) (omega arith))
