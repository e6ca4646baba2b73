-- ===== src/Map/Oldest.antt =====
-- The entry that a lookup should find.
use swift_cmark.Base.{
  Bool-cases, Bytes, List, Option, [], ap, arith, false, if◌then◌else◌, inl, inr, none, refl, some,
  subst, true, ◌∙◌, ◌∷◌, ◌≡◌, ◌≢◌, ◌≤◌,
}
use swift_cmark.Map.{MapEntry, labelcmp, is_zero}
use swift_cmark.Map.Order.{labelcmp_refl, labelcmp_eq}
use swift_cmark.Map.Created.{Aged, age_injective, age-lt}
use mathlib.Core.List.{Memᴰ}
use mathlib.Core.List.Memᴰ

-- The entry of a label that was created first: the last in the list.
unfoldable pub oldest : {A : Type 0} → Bytes → List (MapEntry A) → Option (MapEntry A)
oldest label [] = none
oldest label (e ∷ es) = elim (oldest label es) [
  | some r ↦ some r
  | none ↦ if is_zero (labelcmp label e.label) then some e else none
]

-- `o` is an oldest entry of the label.
abbrev pub IsOldest : {A : Type 0} → Bytes → List (MapEntry A) → Option (MapEntry A) → Type 0
IsOldest label es none = (x : _) → Memᴰ x es → label ≢ x.label
IsOldest label es (some r) =
    Memᴰ r es × (label ≡ r.label) × ((x : _) → Memᴰ x es → label ≡ x.label → r.age ≤ x.age)

module _ {A : Type 0} where
  newer_none :
      (label : Bytes) (e : MapEntry A) (es : List (MapEntry A))
      → Aged (e ∷ es)
      → IsOldest label es none
      → IsOldest label (e ∷ es) (if is_zero (labelcmp label e.label) then some e else none)
  newer_none label e es g h = elim (Bool-cases (is_zero (labelcmp label e.label))) [
    | inl z ↦ rw z (Memᴰ.head refl, labelcmp_eq label e.label z, first)
    | inr z ↦ rw z (absent z)
  ]
    where
      first : (x : MapEntry A) → Memᴰ x (e ∷ es) → label ≡ x.label → e.age ≤ x.age
      first x (Memᴰ.head q) f = omega (arith, ap (λ (y : MapEntry A). y.age) q)
      first x (Memᴰ.tail m) f = absurd (h x m f)

      absent :
          is_zero (labelcmp label e.label) ≡ false
          → (x : MapEntry A) → Memᴰ x (e ∷ es)
          → label ≢ x.label
      absent z x (Memᴰ.head q) f =
          let same : label ≡ e.label = f ∙ ap (λ (y : MapEntry A). y.label) q in
          let zero_here : is_zero (labelcmp label e.label) ≡ true =
            subst (λ l. is_zero (labelcmp label l) ≡ true) same (labelcmp_refl label) in
          ground (arith, z, zero_here)
      absent z x (Memᴰ.tail m) f = h x m f

  newer_some :
      (label : Bytes) (e r : MapEntry A) (es : List (MapEntry A))
      → Aged (e ∷ es)
      → IsOldest label es (some r)
      → IsOldest label (e ∷ es) (some r)
  newer_some label e r es (h, g) (m, f, least) = (Memᴰ.tail m, f, first)
    where
      first : (x : MapEntry A) → Memᴰ x (e ∷ es) → label ≡ x.label → r.age ≤ x.age
      first x (Memᴰ.head q) k = omega (arith, h, ap (λ (y : MapEntry A). y.age) q, age-lt r es g m)
      first x (Memᴰ.tail n) k = least x n k

  pub oldest-IsOldest :
      (label : Bytes) (es : List (MapEntry A)) → Aged es → IsOldest label es (oldest label es)
  unfolding oldest
  oldest-IsOldest label [] g = λ x m f. Memᴰ.not-nil m
  oldest-IsOldest label (e ∷ es) g = newer (oldest label es) (oldest-IsOldest label es g.1)
    where
      newer :
          (o : Option (MapEntry A))
          → IsOldest label es o
          → IsOldest label (e ∷ es) (elim o [
            | some r ↦ some r
            | none ↦ if is_zero (labelcmp label e.label) then some e else none
          ])
      newer none h = newer_none label e es g h
      newer (some r) h = newer_some label e r es g h

  pub IsOldest-unique :
      (label : Bytes) (es : List (MapEntry A)) (o p : Option (MapEntry A))
      → Aged es
      → IsOldest label es o
      → IsOldest label es p
      → o ≡ p
  IsOldest-unique label es none none g h k = refl
  IsOldest-unique label es none (some r) g h (m, f, least) = absurd (h r m f)
  IsOldest-unique label es (some r) none g (m, f, least) k = absurd (k r m f)
  IsOldest-unique label es (some r) (some q) g (m, f, least) (n, e, lower) =
      ap some (age_injective r q es g m n (omega (arith, least q n e, lower r m f)))
