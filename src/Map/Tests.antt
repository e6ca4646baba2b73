-- ===== src/Map/Tests.antt =====
-- The map theorems at a map of two entries, with an insertion sort and a search from the front.
use swift_cmark.Base.{
  Bool-cases, Bytes, List, Option, [], arith, false, if◌then◌else◌, inl, inr, none, refl, some,
  subst, sym, true, ℕ, ℤ, ◌∷◌, ◌≡◌, ◌⊎◌,
}
use swift_cmark.Map.{
  CmarkMap, MapEntry, SortSearch, is_zero, create_entry, lookup, nonempty, normalize_map_label,
}
use swift_cmark.Map.Order.{is_below}
use swift_cmark.Map.Distinct.{Ordered}
use swift_cmark.Map.Created.{IsFresh, create_entry-IsFresh, added}
use swift_cmark.Map.Size.{IsLimited, Counts, lookup-Counts}
use swift_cmark.Map.Lookup.{IsSortSearch, IsReady, within_limit, perm-mem, Finds}
use swift_cmark.Map.FindsOldest.{find, lookup-find}
use swift_cmark.Map.Normal.{normalize_map_label-collapse}
use swift_cmark.Map.FirstWins.{create_entry-lookup, earlier_or}
use swift_cmark.Map.Oldest.{oldest}
use swift_cmark.Buffer.Search.{c_string}
use swift_cmark.Buffer.InPlace.{trim_start, trim_end}
use swift_cmark.Buffer.InPlace.Normalize.{collapse}
use swift_cmark.Ctype.{isspace}
use swift_cmark.Utf8.Classes.{case_fold, fold_loop}
use swift_cmark.Utf8.{iterate, charlen, charlen_loop, utf8class, assemble}
use mathlib.Core.List.{Memᴰ, Permᴰ}
use mathlib.Core.List.Memᴰ
use mathlib.Core.List.Permᴰ

module _ {A : Type 0} where
  unfoldable insert_by : (A → A → ℤ) → A → List A → List A
  insert_by cmp x [] = x ∷ []
  insert_by cmp x (y ∷ ys) =
      let rest = insert_by cmp x ys in if is_below (cmp x y) then x ∷ y ∷ ys else y ∷ rest

  unfoldable sort_by : (A → A → ℤ) → List A → List A
  sort_by cmp [] = []
  sort_by cmp (x ∷ xs) = insert_by cmp x (sort_by cmp xs)

  unfoldable search_from : (A → ℤ) → List A → Option A
  search_from cmp [] = none
  search_from cmp (x ∷ xs) =
      let rest = search_from cmp xs in if is_zero (cmp x) then some x else rest

  insert_by-perm : (cmp : A → A → ℤ) (x : A) (xs : List A) → Permᴰ (x ∷ xs) (insert_by cmp x xs)
  unfolding insert_by
  insert_by-perm cmp x [] = Permᴰ.refl _
  insert_by-perm cmp x (y ∷ ys) = elim (Bool-cases (is_below (cmp x y))) [
    | inl e ↦ rw e (Permᴰ.refl _)
    | inr e ↦ rw e (Permᴰ.trans (Permᴰ.swap refl refl) (Permᴰ.cons refl (insert_by-perm cmp x ys)))
  ]

  sort_by-perm : (cmp : A → A → ℤ) (xs : List A) → Permᴰ xs (sort_by cmp xs)
  unfolding sort_by
  sort_by-perm cmp [] = Permᴰ.nil
  sort_by-perm cmp (x ∷ xs) =
      Permᴰ.trans (Permᴰ.cons refl (sort_by-perm cmp xs)) (insert_by-perm cmp x (sort_by cmp xs))

  module _ (cmp : A → A → ℤ)
      (trans : (x y z : A)
        → is_below (cmp x y) ≡ true
        → is_below (cmp y z) ≡ true
        → is_below (cmp x z) ≡ true)
      (total : (x y : A) → (is_below (cmp x y) ≡ true) ⊎ (is_below (cmp y x) ≡ true)) where
    insert_by-Ordered :
        (x : A) (xs : List A)
        → Ordered (λ a b. is_below (cmp a b) ≡ true) xs
        → Ordered (λ a b. is_below (cmp a b) ≡ true) (insert_by cmp x xs)
    unfolding insert_by
    insert_by-Ordered x [] o = (λ y m. absurd (Memᴰ.not-nil m), o)
    insert_by-Ordered x (y ∷ ys) (h, o) = elim (Bool-cases (is_below (cmp x y))) [
      | inl e ↦ rw e (before e, (h, o))
      | inr e ↦ rw e (behind (other e (total x y)), insert_by-Ordered x ys o)
    ]
      where
        before : is_below (cmp x y) ≡ true → (z : A) → Memᴰ z (y ∷ ys) → is_below (cmp x z) ≡ true
        before e z (Memᴰ.head q) = subst (λ w. is_below (cmp x w) ≡ true) (sym q) e
        before e z (Memᴰ.tail m) = trans x y z e (h z m)

        other :
            is_below (cmp x y) ≡ false
            → (is_below (cmp x y) ≡ true) ⊎ (is_below (cmp y x) ≡ true)
            → is_below (cmp y x) ≡ true
        other e (inl k) = ground (arith, e, k)
        other e (inr k) = k

        one_of : is_below (cmp y x) ≡ true → (z : A) → Memᴰ z (x ∷ ys) → is_below (cmp y z) ≡ true
        one_of k z (Memᴰ.head q) = subst (λ w. is_below (cmp y w) ≡ true) (sym q) k
        one_of k z (Memᴰ.tail m) = h z m

        behind :
            is_below (cmp y x) ≡ true
            → (z : A) → Memᴰ z (insert_by cmp x ys)
            → is_below (cmp y z) ≡ true
        behind k z m = one_of k z (perm-mem (Permᴰ.symm (insert_by-perm cmp x ys)) m)

    sort_by-Ordered : (xs : List A) → Ordered (λ a b. is_below (cmp a b) ≡ true) (sort_by cmp xs)
    unfolding sort_by
    sort_by-Ordered [] = _
    sort_by-Ordered (x ∷ xs) = insert_by-Ordered x (sort_by cmp xs) (sort_by-Ordered xs)

  search_from-Finds : (cmp : A → ℤ) (xs : List A) → Finds cmp xs (search_from cmp xs)
  unfolding search_from
  search_from-Finds cmp [] = λ x m. absurd (Memᴰ.not-nil m)
  search_from-Finds cmp (x ∷ xs) = elim (Bool-cases (is_zero (cmp x))) [
    | inl e ↦ rw e (Memᴰ.head refl, e)
    | inr e ↦ rw e (later e (search_from cmp xs) (search_from-Finds cmp xs))
  ]
    where
      later : is_zero (cmp x) ≡ false → (o : Option A) → Finds cmp xs o → Finds cmp (x ∷ xs) o
      later e (some y) (m, z) = (Memᴰ.tail m, z)
      later e none f = absent
        where
          absent : (y : A) → Memᴰ y (x ∷ xs) → is_zero (cmp y) ≡ false
          absent y (Memᴰ.head q) = subst (λ w. is_zero (cmp w) ≡ false) (sym q) e
          absent y (Memᴰ.tail m) = f y m

abbrev simple : {A : Type 0} → SortSearch A
simple = record { qsort = sort_by; bsearch = search_from }

simple-IsSortSearch : {A : Type 0} → IsSortSearch {A = A} simple
simple-IsSortSearch = record {
  permuted = sort_by-perm;
  ordered = sort_by-Ordered;
  finds = λ cmp xs p. search_from-Finds cmp xs;
}

-- Bytes fold to themselves.
abbrev unfolded : ℕ → Bytes
unfolded c = c ∷ []

abbrev entry : Bytes → ℕ → ℕ → ℕ → MapEntry ℕ
entry label age size body = record { label = label; age = age; size = size; body = body }

-- The label `a` defined twice, and `b` between.
abbrev defined : CmarkMap ℕ
defined = record {
  refs = entry (b'a' ∷ []) 2 5 12 ∷ entry (b'b' ∷ []) 1 5 11 ∷ entry (b'a' ∷ []) 0 5 10 ∷ [];
  sorted = none;
  size = 3;
  ref_size = 0;
  max_ref_size = 100;
}

defined-IsFresh : IsFresh defined
unfolding IsFresh
defined-IsFresh = (refl, refl, (refl, (refl, (refl, _))))

defined-IsReady : IsReady simple defined
unfolding IsReady
defined-IsReady = ((refl, (refl, (refl, _))), refl)

defined-IsLimited : IsLimited defined
defined-IsLimited = (omega arith, omega arith)

lookup-find_example :
    ((lookup simple unfolded defined (b'a' ∷ [])).0 ≡ find simple unfolded defined (b'a' ∷ []))
    × IsReady simple (lookup simple unfolded defined (b'a' ∷ [])).1
lookup-find_example =
    lookup-find simple simple-IsSortSearch unfolded defined (b'a' ∷ []) defined-IsReady
      defined-IsLimited

lookup-Counts_example : Counts defined (lookup simple unfolded defined (b'a' ∷ []))
lookup-Counts_example = lookup-Counts simple unfolded defined (b'a' ∷ []) defined-IsLimited

create_entry-IsFresh_example :
    (t : CmarkMap ℕ) × (create_entry unfolded defined (b'c' ∷ []) 5 13 ≡ some t)
    × IsFresh t
    × (t.refs ≡ added (normalize_map_label unfolded (b'c' ∷ [])) 5 13 defined.refs)
    × (t.ref_size ≡ defined.ref_size)
    × (t.max_ref_size ≡ defined.max_ref_size)
create_entry-IsFresh_example =
    create_entry-IsFresh unfolded defined (b'c' ∷ []) 5 13 defined-IsFresh

-- `  a  b `
abbrev spread : Bytes
spread = b' ' ∷ b' ' ∷ b'a' ∷ b' ' ∷ b' ' ∷ b'b' ∷ b' ' ∷ []

normalize_map_label_example :
    normalize_map_label unfolded spread
    ≡ nonempty (c_string (collapse false (trim_end (trim_start (case_fold unfolded spread)))))
normalize_map_label_example = normalize_map_label-collapse unfolded spread

normalized : normalize_map_label unfolded (b'a' ∷ []) ≡ some (b'a' ∷ [])
unfolding c_string collapse trim_end trim_start case_fold fold_loop iterate charlen charlen_loop
    utf8class assemble isspace
normalized = normalize_map_label-collapse unfolded (b'a' ∷ [])

create_entry-lookup_example :
    (t : CmarkMap ℕ) × (create_entry unfolded defined (b'a' ∷ []) 7 13 ≡ some t)
    × ((lookup simple unfolded t (b'a' ∷ [])).0
        ≡ within_limit simple defined
            (some (earlier_or (oldest (b'a' ∷ []) defined.refs) (entry (b'a' ∷ []) 3 7 13))))
create_entry-lookup_example =
    create_entry-lookup simple simple-IsSortSearch unfolded defined (b'a' ∷ []) (b'a' ∷ []) 7 13
      defined-IsFresh defined-IsLimited (omega arith) (omega arith) normalized
