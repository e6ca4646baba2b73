-- ===== src/Map/Distinct.antt =====
-- The loop of `sort_map` that keeps one entry of each label.
use swift_cmark.Base.{
  Bool-cases, Bytes, List, [], ap, arith, false, inl, inr, negsuc, pos, refl, subst, suc, sym, true,
  zero, ℤ, ◌∙◌, ◌∷◌, ◌≡◌, ◌≤◌,
}
use swift_cmark.Map.{distinct, MapEntry, labelcmp, refcmp, keep_distinct, is_zero}
use swift_cmark.Map.Order.{
  is_below, labelcmp_refl, labelcmp_eq, labelcmp_antisym, refcmp-age, refcmp-label,
}
use mathlib.Core.List.{Memᴰ}
use mathlib.Core.List.Memᴰ

-- Each element compares as `R` with those behind it.
abbrev pub Ordered : {A : Type 0} → (A → A → Type 0) → List A → Type 0
Ordered R [] = Unit
Ordered R (x ∷ xs) = ((y : _) → Memᴰ y xs → R x y) × Ordered R xs

module _ {A : Type 0} where
  abbrev pub Follows : MapEntry A → MapEntry A → Type 0
  Follows x y = is_below (refcmp x y) ≡ true

  -- What is kept was there.
  pub keep_distinct-mem :
      (last : MapEntry A) (rest : List (MapEntry A)) (x : MapEntry A)
      → Memᴰ x (keep_distinct last rest)
      → Memᴰ x (last ∷ rest)
  unfolding keep_distinct
  keep_distinct-mem last [] x m = m
  keep_distinct-mem last (r ∷ rest) x m =
      elim (Bool-cases (is_zero (labelcmp r.label last.label))) [
        | inl e ↦ elim (keep_distinct-mem last rest x (rw e at m)) [
          | Memᴰ.head q ↦ Memᴰ.head q
          | Memᴰ.tail n ↦ Memᴰ.tail (Memᴰ.tail n)
        ]
        | inr e ↦ elim (rw e at m) [
          | Memᴰ.head q ↦ Memᴰ.head q
          | Memᴰ.tail n ↦ Memᴰ.tail (keep_distinct-mem r rest x n)
        ]
      ]

  -- Every label is kept.
  pub keep_distinct-label :
      (last : MapEntry A) (rest : List (MapEntry A)) (x : MapEntry A)
      → Memᴰ x (last ∷ rest)
      → (k : MapEntry A) × Memᴰ k (keep_distinct last rest) × (k.label ≡ x.label)
  unfolding keep_distinct
  keep_distinct-label last [] x m = (x, m, refl)
  keep_distinct-label last (r ∷ rest) x m =
      elim (Bool-cases (is_zero (labelcmp r.label last.label))) [
        | inl e ↦
            rw e
              (skipped (keep_distinct-label last rest x) (keep_distinct-label last rest last) e m)
        | inr e ↦ rw e (kept (keep_distinct-label r rest x) m)
      ]
    where
      skipped :
          (Memᴰ x (last ∷ rest)
            → (k : MapEntry A) × Memᴰ k (keep_distinct last rest) × (k.label ≡ x.label))
          → (Memᴰ last (last ∷ rest)
              → (k : MapEntry A) × Memᴰ k (keep_distinct last rest) × (k.label ≡ last.label))
          → is_zero (labelcmp r.label last.label) ≡ true
          → Memᴰ x (last ∷ r ∷ rest)
          → (k : MapEntry A) × Memᴰ k (keep_distinct last rest) × (k.label ≡ x.label)
      skipped go first e (Memᴰ.head q) = go (Memᴰ.head q)
      skipped go first e (Memᴰ.tail (Memᴰ.head q)) =
          let (k, n, f) = first (Memᴰ.head refl) in
          (
            k,
            n,
            f ∙ sym (labelcmp_eq r.label last.label e) ∙ ap (λ (y : MapEntry A). y.label) (sym q),
          )
      skipped go first e (Memᴰ.tail (Memᴰ.tail n)) = go (Memᴰ.tail n)

      kept :
          (Memᴰ x (r ∷ rest)
            → (k : MapEntry A) × Memᴰ k (keep_distinct r rest) × (k.label ≡ x.label))
          → Memᴰ x (last ∷ r ∷ rest)
          → (k : MapEntry A) × Memᴰ k (last ∷ keep_distinct r rest) × (k.label ≡ x.label)
      kept go (Memᴰ.head q) = (x, Memᴰ.head q, refl)
      kept go (Memᴰ.tail n) = let (k, i, f) = go n in (k, Memᴰ.tail i, f)

  reflexive : (x y : MapEntry A) → x ≡ y → x.age ≤ y.age
  reflexive x y e = omega (arith, ap (λ (z : MapEntry A). z.age) e)

  -- An entry before one with a greater label cannot share a label behind it.
  apart :
      (last r k : MapEntry A)
      → is_zero (labelcmp r.label last.label) ≡ false
      → is_below (labelcmp last.label r.label) ≡ true
      → is_below (labelcmp r.label k.label) ≡ true
      → last.label ≡ k.label
      → ⊥
  apart last r k z h j e =
      let back : is_below (labelcmp r.label last.label) ≡ true =
        subst (λ l. is_below (labelcmp r.label l) ≡ true) (sym e) j in
      ground (arith, z, labelcmp_antisym r.label last.label back h)

  behind :
      (r k : MapEntry A) (rest : List (MapEntry A))
      → Ordered Follows (r ∷ rest)
      → Memᴰ k (r ∷ rest)
      → is_below (labelcmp r.label k.label) ≡ true
  behind r k rest o (Memᴰ.head q) =
      subst (λ (y : MapEntry A). is_below (labelcmp r.label y.label) ≡ true) (sym q)
        (below_refl r.label)
    where
      below_zero : (i : ℤ) → is_zero i ≡ true → is_below i ≡ true
      below_zero (pos zero) e = refl
      below_zero (pos (suc n)) e = ground (arith, e)
      below_zero (negsuc n) e = refl

      below_refl : (a : Bytes) → is_below (labelcmp a a) ≡ true
      below_refl a = below_zero (labelcmp a a) (labelcmp_refl a)
  behind r k rest o (Memᴰ.tail n) = refcmp-label r k (o.0 k n)

  -- An entry kept is the oldest with its label.
  pub keep_distinct-age :
      (last : MapEntry A) (rest : List (MapEntry A)) (k x : MapEntry A)
      → Ordered Follows (last ∷ rest)
      → Memᴰ k (keep_distinct last rest)
      → Memᴰ x (last ∷ rest)
      → k.label ≡ x.label
      → k.age ≤ x.age
  unfolding keep_distinct
  keep_distinct-age last [] k x o m n e =
      reflexive k x (Memᴰ.eq_of_singleton m ∙ sym (Memᴰ.eq_of_singleton n))
  keep_distinct-age last (r ∷ rest) k x (before, o) m n e =
      elim (Bool-cases (is_zero (labelcmp r.label last.label))) [
        | inl z ↦
            skipped (keep_distinct-age last rest k x) (keep_distinct-age last rest k last) z
              (rw z at m) n
        | inr z ↦ kept (keep_distinct-age r rest k x) z (rw z at m) n
      ]
    where
      shorter : Ordered Follows (last ∷ rest)
      shorter = (λ y i. before y (Memᴰ.tail i), o.1)

      skipped :
          (Ordered Follows (last ∷ rest)
            → Memᴰ k (keep_distinct last rest)
            → Memᴰ x (last ∷ rest)
            → k.label ≡ x.label
            → k.age ≤ x.age)
          → (Ordered Follows (last ∷ rest)
              → Memᴰ k (keep_distinct last rest)
              → Memᴰ last (last ∷ rest)
              → k.label ≡ last.label
              → k.age ≤ last.age)
          → is_zero (labelcmp r.label last.label) ≡ true
          → Memᴰ k (keep_distinct last rest)
          → Memᴰ x (last ∷ r ∷ rest)
          → k.age ≤ x.age
      skipped go first z i (Memᴰ.head q) = go shorter i (Memᴰ.head q) e
      skipped go first z i (Memᴰ.tail (Memᴰ.tail j)) = go shorter i (Memᴰ.tail j) e
      skipped go first z i (Memᴰ.tail (Memᴰ.head q)) =
          let same : x.label ≡ last.label =
            ap (λ (y : MapEntry A). y.label) q ∙ labelcmp_eq r.label last.label z in
          let older = first shorter i (Memᴰ.head refl) (e ∙ same) in
          let second = refcmp-age last x (before x (Memᴰ.head q)) (sym same) in
          omega (arith, older, second)

      kept :
          (Ordered Follows (r ∷ rest)
            → Memᴰ k (keep_distinct r rest)
            → Memᴰ x (r ∷ rest)
            → k.label ≡ x.label
            → k.age ≤ x.age)
          → is_zero (labelcmp r.label last.label) ≡ false
          → Memᴰ k (last ∷ keep_distinct r rest)
          → Memᴰ x (last ∷ r ∷ rest)
          → k.age ≤ x.age
      kept go z (Memᴰ.head p) (Memᴰ.head q) = reflexive k x (p ∙ sym q)
      kept go z (Memᴰ.head p) (Memᴰ.tail j) =
          let f = refcmp-age last x (before x j) (ap (λ (y : MapEntry A). y.label) (sym p) ∙ e) in
          omega (arith, f, reflexive k last p)
      kept go z (Memᴰ.tail i) (Memᴰ.tail j) = go o i j e
      kept go z (Memᴰ.tail i) (Memᴰ.head q) = absurd (
          apart last r k z (refcmp-label last r (before r (Memᴰ.head refl)))
            (behind r k rest o (keep_distinct-mem r rest k i))
            (ap (λ (y : MapEntry A). y.label) (sym q) ∙ sym e))

  -- What is kept stands in order.
  pub keep_distinct-Ordered :
      (last : MapEntry A) (rest : List (MapEntry A))
      → Ordered Follows (last ∷ rest)
      → Ordered Follows (keep_distinct last rest)
  unfolding keep_distinct
  keep_distinct-Ordered last [] o = o
  keep_distinct-Ordered last (r ∷ rest) (before, o) =
      elim (Bool-cases (is_zero (labelcmp r.label last.label))) [
        | inl z ↦ rw z (keep_distinct-Ordered last rest (λ y i. before y (Memᴰ.tail i), o.1))
        | inr z ↦
            rw z (λ y i. before y (keep_distinct-mem r rest y i), keep_distinct-Ordered r rest o)
      ]

  -- Of a list in order, `distinct` keeps the oldest entry of each label, in order.
  pub record IsDistinct (l kept : List (MapEntry A)) : Type 0 where
    pub kept_mem : (x : MapEntry A) → Memᴰ x kept → Memᴰ x l
    pub kept_label :
        (x : MapEntry A) → Memᴰ x l → (k : MapEntry A) × Memᴰ k kept × (k.label ≡ x.label)
    pub kept_age : (k x : MapEntry A) → Memᴰ k kept → Memᴰ x l → k.label ≡ x.label → k.age ≤ x.age
    pub kept_ordered : Ordered Follows kept

  pub distinct-IsDistinct : (l : List (MapEntry A)) → Ordered Follows l → IsDistinct l (distinct l)
  unfolding distinct
  distinct-IsDistinct [] o = record {
    kept_mem = λ x m. m;
    kept_label = λ x m. (x, m, refl);
    kept_age = λ k x m n e. absurd (Memᴰ.not-nil m);
    kept_ordered = o;
  }
  distinct-IsDistinct (r ∷ rest) o = record {
    kept_mem = keep_distinct-mem r rest;
    kept_label = keep_distinct-label r rest;
    kept_age = λ k x m n e. keep_distinct-age r rest k x o m n e;
    kept_ordered = keep_distinct-Ordered r rest o;
  }
