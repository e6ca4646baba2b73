-- ===== src/Map.antt =====
-- src/map.c: the maps from normalized labels to link references and footnotes. `qsort` and `bsearch`
-- are parameters. Ages are `int` here, for fewer than 2^31 definitions.
pub mod Normal
pub mod Reference
pub mod Order
pub mod Created
pub mod Size
pub mod Distinct
pub mod Oldest
pub mod Lookup
pub mod FindsOldest
pub mod FirstWins
mod Tests
use swift_cmark.Base.{
  Bool, Bytes, List, Option, [], false, if◌then◌else◌, length, ltb, negsuc, none, pos, some, true,
  zero, ℕ, ℤ, ◌%◌, ◌++◌, ◌+◌, ◌-◌, ◌==◌, ◌^◌, ◌||◌, ◌∷◌,
}
use Prim.Native.Nat.{Ordering, lt, eq, gt}
use swift_cmark.Strings.{strcmp}
use swift_cmark.Utf8.Classes.{case_fold}
use swift_cmark.Buffer.{Strbuf, trim, normalize_whitespace}
use swift_cmark.Buffer.Search.{c_string}

-- `cmark_map_entry`: `body` is what a reference or a footnote holds beside it. A label is the bytes of a
-- C string, without its NUL.
pub record MapEntry (A : Type 0) : Type 0 where
  pub label : Bytes
  pub age : ℕ
  pub size : ℕ
  pub body : A

-- `cmark_map`: `refs` is the linked list, the entry created last at its head.
pub record CmarkMap (A : Type 0) : Type 0 where
  pub refs : List (MapEntry A)
  pub sorted : Option (List (MapEntry A))
  pub size : ℕ
  pub ref_size : ℕ
  pub max_ref_size : ℕ

-- `cmark_map_new`
abbrev pub map_new : {A : Type 0} → CmarkMap A
map_new = record { refs = []; sorted = none; size = 0; ref_size = 0; max_ref_size = 2 ^ 32 - 1 }

abbrev pub max_link_label_length : ℕ
max_link_label_length = 1000

abbrev pub as_int : Ordering → ℤ
as_int lt = negsuc 0
as_int eq = pos 0
as_int gt = pos 1

-- The comparison is `strcmp`, of which the C standard fixes the sign.
unfoldable pub labelcmp : Bytes → Bytes → ℤ
labelcmp a b = as_int (strcmp a b)

-- A buffer that holds the bytes `s`.
abbrev pub holding : Bytes → Strbuf
holding s = record { ptr = s ++ 0 ∷ []; asize = length s + 1; size = length s }

-- The label that is left, NULL where it is empty.
abbrev pub nonempty : Bytes → Option Bytes
nonempty [] = none
nonempty (c ∷ s) = some (c ∷ s)

-- `normalize_map_label` on a label; `fold` is the table of case folding.
unfoldable pub normalize_map_label : (ℕ → Bytes) → Bytes → Option Bytes
normalize_map_label fold [] = none
normalize_map_label fold (c ∷ s) =
    nonempty (c_string (normalize_whitespace (trim (holding (case_fold fold (c ∷ s))))).ptr)

abbrev pub is_zero : ℤ → Bool
is_zero (pos zero) = true
is_zero _ = false

-- `a - b`
abbrev pub difference : ℕ → ℕ → ℤ
difference a b = if ltb a b then negsuc (b - a - 1) else pos (a - b)

module _ {A : Type 0} where
  unfoldable pub refcmp : MapEntry A → MapEntry A → ℤ
  refcmp r1 r2 =
      let res = labelcmp r1.label r2.label in if is_zero res then difference r1.age r2.age else res

  unfoldable pub refsearch : Bytes → MapEntry A → ℤ
  refsearch label ref = labelcmp label ref.label

  -- The loop of `sort_map` that keeps the first entry of each label: `last` is `sorted[last]`, the
  -- last one kept.
  unfoldable pub keep_distinct : MapEntry A → List (MapEntry A) → List (MapEntry A)
  keep_distinct last [] = last ∷ []
  keep_distinct last (r ∷ rest) =
      let kept = keep_distinct r rest in
      let skipped = keep_distinct last rest in
      if is_zero (labelcmp r.label last.label) then skipped else last ∷ kept

  unfoldable pub distinct : List (MapEntry A) → List (MapEntry A)
  distinct [] = []
  distinct (r ∷ rest) = keep_distinct r rest

  -- The creation of an entry; `none` is the failed assertion that no lookup came before it.
  unfoldable pub create_entry : (ℕ → Bytes) → CmarkMap A → Bytes → ℕ → A → Option (CmarkMap A)
  create_entry fold m label size body = elim (normalize_map_label fold label) [
    | none ↦ some m
    | some reflabel ↦ elim m.sorted [
      | none ↦ some (record m {
        refs = record { label = reflabel; age = m.size; size = size; body = body } ∷ m.refs;
        size = m.size + 1;
      })
      | some sorted ↦ none
    ]
  ]

-- The two functions of the C library.
pub record SortSearch (A : Type 0) : Type 0 where
  pub qsort : (A → A → ℤ) → List A → List A
  pub bsearch : (A → ℤ) → List A → Option A

module _ {A : Type 0} (lib : SortSearch (MapEntry A)) where
  unfoldable pub sort_map : CmarkMap A → CmarkMap A
  sort_map m =
      let kept = distinct (lib.qsort refcmp m.refs) in
      record m { sorted = some kept; size = length kept }

  abbrev pub sort_once : CmarkMap A → CmarkMap A
  sort_once m = elim m.sorted [ none ↦ sort_map m | some sorted ↦ m ]

  abbrev pub sorted_entries : CmarkMap A → List (MapEntry A)
  sorted_entries m = elim m.sorted [ none ↦ [] | some sorted ↦ sorted ]

  -- What `cmark_map_lookup` does with the entry found, `size_t` having 64 bits.
  unfoldable pub expand : CmarkMap A → Option (MapEntry A) → Option (MapEntry A) × CmarkMap A
  expand m none = (none, m)
  expand m (some r) =
      if ltb ((m.max_ref_size + 2 ^ 64 - m.ref_size) % 2 ^ 64) r.size
      then (none, m)
      else (some r, record m { ref_size = (m.ref_size + r.size) % 2 ^ 64 })

  -- `cmark_map_lookup` on a map
  unfoldable pub lookup : (ℕ → Bytes) → CmarkMap A → Bytes → Option (MapEntry A) × CmarkMap A
  lookup fold m label =
      if ltb (length label) 1 || ltb max_link_label_length (length label)
      then (none, m)
      else if m.size == 0
      then (none, m)
      else elim (normalize_map_label fold label) [
        | none ↦ (none, m)
        | some norm ↦
            let s = sort_once m in expand s (lib.bsearch (refsearch norm) (sorted_entries s))
      ]
