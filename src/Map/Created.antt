-- ===== src/Map/Created.antt =====
-- What creating entries makes of a map.
use swift_cmark.Base.{
  Bytes, List, Option, Option-cases, [], ap, arith, inl, inr, length, none, refl, some, sym, ℕ, ◌+◌,
  ◌<◌, ◌∙◌, ◌∷◌, ◌≡◌,
}
use swift_cmark.Map.{CmarkMap, MapEntry, create_entry, normalize_map_label}
use mathlib.Core.List.{Memᴰ}
use mathlib.Core.List.Memᴰ

module _ {A : Type 0} where
  -- The ages count down from the entry created last.
  abbrev pub Aged : List (MapEntry A) → Type 0
  Aged [] = Unit
  Aged (e ∷ es) = (e.age ≡ length es) × Aged es

  -- A map before its first lookup.
  unfoldable pub IsFresh : CmarkMap A → Type 0
  IsFresh m = (m.sorted ≡ none) × (m.size ≡ length m.refs) × Aged m.refs

  pub age-lt : (x : MapEntry A) (es : List (MapEntry A)) → Aged es → Memᴰ x es → x.age < length es
  age-lt x [] g m = absurd (Memᴰ.not-nil m)
  age-lt x (e ∷ es) (h, g) (Memᴰ.head q) = omega (arith, h, ap (λ (y : MapEntry A). y.age) q)
  age-lt x (e ∷ es) (h, g) (Memᴰ.tail m) = omega (arith, age-lt x es g m)

  pub age_injective :
      (x y : MapEntry A) (es : List (MapEntry A))
      → Aged es
      → Memᴰ x es
      → Memᴰ y es
      → x.age ≡ y.age
      → x ≡ y
  age_injective x y [] g m n e = absurd (Memᴰ.not-nil m)
  age_injective x y (z ∷ es) g (Memᴰ.head p) (Memᴰ.head q) e = p ∙ sym q
  age_injective x y (z ∷ es) (h, g) (Memᴰ.head p) (Memᴰ.tail n) e =
      absurd (omega (arith, e, h, ap (λ (u : MapEntry A). u.age) p, age-lt y es g n))
  age_injective x y (z ∷ es) (h, g) (Memᴰ.tail m) (Memᴰ.head q) e =
      absurd (omega (arith, e, h, ap (λ (u : MapEntry A). u.age) q, age-lt x es g m))
  age_injective x y (z ∷ es) (h, g) (Memᴰ.tail m) (Memᴰ.tail n) e = age_injective x y es g m n e

  -- The entries after a creation.
  abbrev pub added : Option Bytes → ℕ → A → List (MapEntry A) → List (MapEntry A)
  added none size body refs = refs
  added (some label) size body refs =
      record { label = label; age = length refs; size = size; body = body } ∷ refs

  -- On a map before its first lookup whose size is the number of its entries and whose ages count
  -- up in the order of creation, creating an entry meets its assertion and gives such a map: with
  -- the entry at the head, or unchanged if nothing is left of the label.
  pub create_entry-IsFresh :
      (fold : ℕ → Bytes) (m : CmarkMap A) (label : Bytes) (size : ℕ) (body : A)
      → IsFresh m
      → (t : CmarkMap A) × (create_entry fold m label size body ≡ some t)
        × IsFresh t
        × (t.refs ≡ added (normalize_map_label fold label) size body m.refs)
        × (t.ref_size ≡ m.ref_size)
        × (t.max_ref_size ≡ m.max_ref_size)
  unfolding IsFresh create_entry
  create_entry-IsFresh fold m label size body (s, z, g) =
      elim (Option-cases (normalize_map_label fold label)) [
        | inl e ↦ (m, rw (create_entry, e) refl, (s, z, g), rw e refl, refl, refl)
        | inr (l, e) ↦ (
          record m {
            refs = record { label = l; age = m.size; size = size; body = body } ∷ m.refs;
            sorted = none;
            size = m.size + 1;
          },
          rw (create_entry, e, s)
              (ap
                (λ o. some (record m {
                  refs = record { label = l; age = m.size; size = size; body = body } ∷ m.refs;
                  sorted = o;
                  size = m.size + 1;
                }))
                s),
          (refl, omega (arith, z), (z, g)),
          rw (e, z) refl,
          refl,
          refl,
        )
      ]
