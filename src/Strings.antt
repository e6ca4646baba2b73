-- ===== src/Strings.antt =====
-- The C library's comparisons of NUL-terminated strings, which stand here as the lists of their bytes
-- before the NUL: the order of `strcmp` and `strncmp`, as the sign of their result.
use swift_cmark.Base.{
  Bytes, [], arith, inr, length, refl, suc, zero, ℕ, ◌<◌, ◌↔◌, ◌∷◌, ◌≡◌, ◌≤◌, ◌⊎◌,
}
use Prim.Native.Nat.{compare, Ordering, lt, eq, gt}

unfoldable pub strcmp : Bytes → Bytes → Ordering
strcmp [] [] = eq
strcmp [] (d ∷ t) = lt
strcmp (c ∷ s) [] = gt
strcmp (c ∷ s) (d ∷ t) =
    let rest = strcmp s t in elim (compare c d) [ lt ↦ lt | eq ↦ rest | gt ↦ gt ]

unfoldable pub strncmp : Bytes → Bytes → ℕ → Ordering
strncmp s t zero = eq
strncmp [] [] (suc n) = eq
strncmp [] (d ∷ t) (suc n) = lt
strncmp (c ∷ s) [] (suc n) = gt
strncmp (c ∷ s) (d ∷ t) (suc n) =
    let rest = strncmp s t n in elim (compare c d) [ lt ↦ lt | eq ↦ rest | gt ↦ gt ]

pub strcmp_refl : (s : Bytes) → strcmp s s ≡ eq
unfolding strcmp
strcmp_refl [] = refl
strcmp_refl (c ∷ s) = ground (arith, strcmp_refl s)

pub eq_of_strcmp : (s t : Bytes) → strcmp s t ≡ eq → s ≡ t
unfolding strcmp
eq_of_strcmp [] [] h = refl
eq_of_strcmp [] (d ∷ t) h = cc
eq_of_strcmp (c ∷ s) [] h = cc
eq_of_strcmp (c ∷ s) (d ∷ t) h = ground (arith, eq_of_strcmp s t)

pub strcmp_flip : (s t : Bytes) → (strcmp s t ≡ lt) ↔ (strcmp t s ≡ gt)
unfolding strcmp
strcmp_flip [] [] = ground arith
strcmp_flip [] (d ∷ t) = ground arith
strcmp_flip (c ∷ s) [] = ground arith
strcmp_flip (c ∷ s) (d ∷ t) = ground (arith, strcmp_flip s t)

pub strcmp_trans : (s t u : Bytes) → strcmp s t ≡ lt → strcmp t u ≡ lt → strcmp s u ≡ lt
unfolding strcmp
strcmp_trans s [] [] h k = cc
strcmp_trans s (d ∷ t) [] h k = cc
strcmp_trans [] (d ∷ t) (e ∷ u) h k = refl
strcmp_trans [] [] (e ∷ u) h k = refl
strcmp_trans (c ∷ s) [] (e ∷ u) h k = cc
strcmp_trans (c ∷ s) (d ∷ t) (e ∷ u) h k = ground (arith, strcmp_trans s t u)

-- On all of the first string, `strncmp` agrees with `strcmp`, but finds an extension equal.
pub strncmp_of_lt :
    (s t : Bytes)
    → strcmp s t ≡ lt
    → (strncmp s t (length s) ≡ lt) ⊎ ((strncmp s t (length s) ≡ eq) × (length s < length t))
unfolding strcmp strncmp
strncmp_of_lt [] [] h = cc
strncmp_of_lt [] (d ∷ t) h = inr (refl, omega arith)
strncmp_of_lt (c ∷ s) [] h = cc
strncmp_of_lt (c ∷ s) (d ∷ t) h = ground (arith, strncmp_of_lt s t)

pub strncmp_of_gt : (s t : Bytes) → strcmp s t ≡ gt → strncmp s t (length s) ≡ gt
unfolding strcmp strncmp
strncmp_of_gt [] [] h = cc
strncmp_of_gt [] (d ∷ t) h = cc
strncmp_of_gt (c ∷ s) [] h = refl
strncmp_of_gt (c ∷ s) (d ∷ t) h = ground (arith, strncmp_of_gt s t)

-- Equal up to its end, and no longer: the same string.
pub eq_of_strncmp : (s t : Bytes) → strncmp s t (length s) ≡ eq → length t ≤ length s → s ≡ t
unfolding strncmp
eq_of_strncmp [] [] h l = refl
eq_of_strncmp [] (d ∷ t) h l = absurd (omega arith)
eq_of_strncmp (c ∷ s) [] h l = cc
eq_of_strncmp (c ∷ s) (d ∷ t) h l = ground (arith, eq_of_strncmp s t)

pub strncmp_refl : (s : Bytes) → strncmp s s (length s) ≡ eq
unfolding strncmp
strncmp_refl [] = refl
strncmp_refl (c ∷ s) = ground (arith, strncmp_refl s)
