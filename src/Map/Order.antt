-- ===== src/Map/Order.antt =====
-- The order in which `sort_map` sorts: by label, then by age.
use swift_cmark.Base.{
  Bool, Bool-cases, Bytes, arith, false, if◌then◌else◌, inl, inr, negsuc, pos, refl, subst, suc,
  sym, true, zero, ℕ, ℤ, ◌∙◌, ◌≡◌, ◌≤◌, ◌⊎◌,
}
use Prim.Native.Nat.{Ordering, lt, eq, gt}
use swift_cmark.Strings.{strcmp, strcmp_refl, eq_of_strcmp, strcmp_flip, strcmp_trans}
use swift_cmark.Map.{as_int, labelcmp, MapEntry, refcmp, strcmp, is_zero, difference}

-- Whether a result of a comparison is at most 0.
abbrev pub is_below : ℤ → Bool
is_below (pos zero) = true
is_below (pos (suc n)) = false
is_below (negsuc n) = true

abbrev AtMost : Ordering → Type 0
AtMost o = (o ≡ lt) ⊎ (o ≡ eq)

below-AtMost : (o : Ordering) → is_below (as_int o) ≡ true → AtMost o
below-AtMost lt h = inl refl
below-AtMost eq h = inr refl
below-AtMost gt h = ground (arith, h)

AtMost-below : (o : Ordering) → AtMost o → is_below (as_int o) ≡ true
AtMost-below o (inl e) = rw e refl
AtMost-below o (inr e) = rw e refl

zero-eq : (o : Ordering) → is_zero (as_int o) ≡ true → o ≡ eq
zero-eq lt h = ground (arith, h)
zero-eq eq h = refl
zero-eq gt h = ground (arith, h)

pub labelcmp_refl : (a : Bytes) → is_zero (labelcmp a a) ≡ true
unfolding labelcmp
labelcmp_refl a = rw (strcmp_refl a) refl

pub labelcmp_eq : (a b : Bytes) → is_zero (labelcmp a b) ≡ true → a ≡ b
unfolding labelcmp
labelcmp_eq a b h = eq_of_strcmp a b (zero-eq (strcmp a b) h)

pub labelcmp_total :
    (a b : Bytes) → (is_below (labelcmp a b) ≡ true) ⊎ (is_below (labelcmp b a) ≡ true)
unfolding labelcmp
labelcmp_total a b = choose (strcmp a b) refl
  where
    choose :
        (o : Ordering)
        → strcmp a b ≡ o
        → (is_below (as_int (strcmp a b)) ≡ true) ⊎ (is_below (as_int (strcmp b a)) ≡ true)
    choose lt e = inl (rw e refl)
    choose eq e = inl (rw e refl)
    choose gt e = inr (AtMost-below (strcmp b a) (inl ((strcmp_flip b a).1 e)))

pub labelcmp_antisym :
    (a b : Bytes)
    → is_below (labelcmp a b) ≡ true
    → is_below (labelcmp b a) ≡ true
    → is_zero (labelcmp a b) ≡ true
unfolding labelcmp
labelcmp_antisym a b h k = elim (below-AtMost (strcmp a b) h) [
  | inl e ↦ absurd (not_gt ((strcmp_flip a b).0 e))
  | inr e ↦ rw e refl
]
  where
    not_gt : strcmp b a ≡ gt → ⊥
    not_gt e = ground (arith, e, k)

pub labelcmp_trans :
    (a b c : Bytes)
    → is_below (labelcmp a b) ≡ true
    → is_below (labelcmp b c) ≡ true
    → is_below (labelcmp a c) ≡ true
unfolding labelcmp
labelcmp_trans a b c h k =
    AtMost-below (strcmp a c) (together (below-AtMost (strcmp a b) h) (below-AtMost (strcmp b c) k))
  where
    together : AtMost (strcmp a b) → AtMost (strcmp b c) → AtMost (strcmp a c)
    together (inl e) (inl f) = inl (strcmp_trans a b c e f)
    together (inl e) (inr f) = inl (subst (λ x. strcmp a x ≡ lt) (eq_of_strcmp b c f) e)
    together (inr e) f = subst (λ x. AtMost (strcmp x c)) (sym (eq_of_strcmp a b e)) f

difference_total :
    (a b : ℕ) → (is_below (difference a b) ≡ true) ⊎ (is_below (difference b a) ≡ true)
difference_total a b = ground arith

pub difference-le : (a b : ℕ) → is_below (difference a b) ≡ true → a ≤ b
difference-le a b h = ground (arith, h)

le-difference : (a b : ℕ) → a ≤ b → is_below (difference a b) ≡ true
le-difference a b h = ground (arith, h)

-- `refcmp` on labels and ages.
abbrev compare_both : Bytes → ℕ → Bytes → ℕ → ℤ
compare_both a n b m = if is_zero (labelcmp a b) then difference n m else labelcmp a b

abbrev Compares : Bytes → ℕ → Bytes → ℕ → Type 0
Compares a n b m =
    ((a ≡ b) × (n ≤ m)) ⊎ ((is_zero (labelcmp a b) ≡ false) × (is_below (labelcmp a b) ≡ true))

of_compare : (a b : Bytes) (n m : ℕ) → is_below (compare_both a n b m) ≡ true → Compares a n b m
of_compare a b n m h = elim (Bool-cases (is_zero (labelcmp a b))) [
  | inl e ↦ inl (labelcmp_eq a b e, difference-le n m (ground (arith, h, e)))
  | inr e ↦ inr (e, ground (arith, h, e))
]

to_compare : (a b : Bytes) (n m : ℕ) → Compares a n b m → is_below (compare_both a n b m) ≡ true
to_compare a b n m (inl (e, le)) =
    let z : is_zero (labelcmp a b) ≡ true =
      subst (λ c. is_zero (labelcmp a c) ≡ true) e (labelcmp_refl a) in
    rw z (le-difference n m le)
to_compare a b n m (inr (e, h)) = rw e h

Compares-trans :
    (a b c : Bytes) (n m k : ℕ) → Compares a n b m → Compares b m c k → Compares a n c k
Compares-trans a b c n m k (inl (e, le)) (inl (f, lf)) = inl (e ∙ f, omega arith)
Compares-trans a b c n m k (inl (e, le)) (inr (z, h)) =
    subst (λ x. Compares x n c k) (sym e) (inr (z, h))
Compares-trans a b c n m k (inr (z, h)) (inl (f, lf)) = subst (λ x. Compares a n x k) f (inr (z, h))
Compares-trans a b c n m k (inr (z, h)) (inr (y, j)) = inr (apart, labelcmp_trans a b c h j)
  where
    back : is_zero (labelcmp a c) ≡ true → is_zero (labelcmp a b) ≡ true
    back e =
        labelcmp_antisym a b h
          (subst (λ x. is_below (labelcmp b x) ≡ true) (sym (labelcmp_eq a c e)) j)

    apart : is_zero (labelcmp a c) ≡ false
    apart = elim (Bool-cases (is_zero (labelcmp a c))) [
      | inl e ↦ ground (arith, back e, z)
      | inr e ↦ e
    ]

Compares-total : (a b : Bytes) (n m : ℕ) → Compares a n b m ⊎ Compares b m a n
Compares-total a b n m = elim (Bool-cases (is_zero (labelcmp a b))) [
  | inl e ↦ same (labelcmp_eq a b e) (leb_total n m)
  | inr z ↦ elim (labelcmp_total a b) [
    | inl h ↦ inl (inr (z, h))
    | inr h ↦ inr (to_other z h (Bool-cases (is_zero (labelcmp b a))))
  ]
]
  where
    leb_total : (x y : ℕ) → (x ≤ y) ⊎ (y ≤ x)
    leb_total x y = ground arith

    same : a ≡ b → (n ≤ m) ⊎ (m ≤ n) → Compares a n b m ⊎ Compares b m a n
    same e (inl le) = inl (inl (e, le))
    same e (inr le) = inr (inl (sym e, le))

    to_other :
        is_zero (labelcmp a b) ≡ false
        → is_below (labelcmp b a) ≡ true
        → (is_zero (labelcmp b a) ≡ true) ⊎ (is_zero (labelcmp b a) ≡ false)
        → Compares b m a n
    to_other z h (inr y) = inr (y, h)
    to_other z h (inl y) =
        let t : is_zero (labelcmp a b) ≡ true =
          subst (λ c. is_zero (labelcmp a c) ≡ true) (sym (labelcmp_eq b a y)) (labelcmp_refl a) in
        absurd (ground (arith, t, z))

module _ {A : Type 0} where
  pub refcmp_trans :
      (x y z : MapEntry A)
      → is_below (refcmp x y) ≡ true
      → is_below (refcmp y z) ≡ true
      → is_below (refcmp x z) ≡ true
  unfolding refcmp
  refcmp_trans x y z h k = to_compare x.label z.label x.age z.age (
      Compares-trans x.label y.label z.label x.age y.age z.age
        (of_compare x.label y.label x.age y.age h) (of_compare y.label z.label y.age z.age k))

  pub refcmp_total :
      (x y : MapEntry A) → (is_below (refcmp x y) ≡ true) ⊎ (is_below (refcmp y x) ≡ true)
  unfolding refcmp
  refcmp_total x y = elim (Compares-total x.label y.label x.age y.age) [
    | inl h ↦ inl (to_compare x.label y.label x.age y.age h)
    | inr h ↦ inr (to_compare y.label x.label y.age x.age h)
  ]

  -- Below it in the order, with its label, an entry is as old or younger.
  pub refcmp-age :
      (x y : MapEntry A) → is_below (refcmp x y) ≡ true → x.label ≡ y.label → x.age ≤ y.age
  unfolding refcmp
  refcmp-age x y h e =
      let z : is_zero (labelcmp x.label y.label) ≡ true =
        subst (λ c. is_zero (labelcmp x.label c) ≡ true) e (labelcmp_refl x.label) in
      difference-le x.age y.age (ground (arith, h, z))

  pub refcmp-label :
      (x y : MapEntry A) → is_below (refcmp x y) ≡ true → is_below (labelcmp x.label y.label) ≡ true
  unfolding refcmp
  refcmp-label x y h = elim (Bool-cases (is_zero (labelcmp x.label y.label))) [
    | inl e ↦ below_of_zero (labelcmp x.label y.label) e
    | inr e ↦ ground (arith, h, e)
  ]
    where
      below_of_zero : (i : ℤ) → is_zero i ≡ true → is_below i ≡ true
      below_of_zero (pos zero) e = refl
      below_of_zero (pos (suc n)) e = ground (arith, e)
      below_of_zero (negsuc n) e = refl
