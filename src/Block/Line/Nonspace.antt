-- ===== src/Block/Line/Nonspace.antt =====
-- `S_find_first_nonspace`: the place that it finds, its column and the indent.
use swift_cmark.Base.{
  ==_iff, Bool-cases, Bytes, [], ap, arith, at, false, if◌then◌else◌, inl, inr, leb, length, refl,
  suc, true, zero, ℕ, ◌%◌, ◌+◌, ◌-◌, ◌<◌, ◌==◌, ◌∙◌, ◌∷◌, ◌≡◌, ◌≢◌, ◌≤◌, ◌⊎◌,
}
use swift_cmark.Block.Line.{
  is_line_end_char, Parser, nonspace_loop, find_first_nonspace, is_space_or_tab, tab_stop,
}
use swift_cmark.Block.Line.Columns.{column_at, column_at_suc, inside_of_at, IsAligned, next_stop}

-- From `i` on there are spaces and tabs up to `res`, which stands in its own column.
pub record IsNonspace (input : Bytes) (i : ℕ) (res : ℕ) : Type 0 where
  pub forward : i ≤ res
  pub blanks : (j : ℕ) → i ≤ j → j < res → is_space_or_tab (at input j) ≡ true
  pub stops : is_space_or_tab (at input res) ≡ false

here : (input : Bytes) (i : ℕ) → is_space_or_tab (at input i) ≡ false → IsNonspace input i i
here input i h = record { forward = omega arith; blanks = λ j a b. absurd (omega arith); stops = h }

IsNonspace-step :
    (input : Bytes) (i res : ℕ)
    → is_space_or_tab (at input i) ≡ true
    → IsNonspace input (i + 1) res
    → IsNonspace input i res
IsNonspace-step input i res h r = record {
  forward = omega (arith, r.forward);
  blanks = λ j a b. elim (Bool-cases (j == i)) [
    | inl e ↦ ap (λ (k : ℕ). is_space_or_tab (at input k)) ((==_iff j i).0 e) ∙ h
    | inr ne ↦ r.blanks j (ground arith) b
  ];
  stops = r.stops;
}

past_end : (input : Bytes) (i : ℕ) → length input ≤ i → at input i ≡ 0
past_end [] i h = refl
past_end (c ∷ s) zero h = absurd (omega arith)
past_end (c ∷ s) (suc i) h = past_end s i (omega arith)

not_blank_zero : (c : ℕ) → c ≡ 0 → is_space_or_tab c ≡ false
unfolding is_space_or_tab
not_blank_zero c e = ground arith

blank_cases :
    (c : ℕ)
    → (((c == b' ') ≡ true) × (is_space_or_tab c ≡ true))
      ⊎ ((((c == b' ') ≡ false) × ((c == b'\t') ≡ true) × (is_space_or_tab c ≡ true))
          ⊎ (((c == b' ') ≡ false) × ((c == b'\t') ≡ false) × (is_space_or_tab c ≡ false)))
unfolding is_space_or_tab
blank_cases c = ground arith

nonspace_loop-IsNonspace :
    (fuel : ℕ) (input : Bytes) (i column chars_to_tab : ℕ)
    → length input - i ≤ fuel
    → IsNonspace input i (nonspace_loop fuel input i column chars_to_tab).0
unfolding nonspace_loop
nonspace_loop-IsNonspace zero input i column chars h =
    here input i (not_blank_zero (at input i) (past_end input i (omega arith)))
nonspace_loop-IsNonspace (suc fuel) input i column chars h =
    let rest = λ (col n : ℕ). nonspace_loop-IsNonspace fuel input (i + 1) col n (omega arith) in
    elim (blank_cases (at input i)) [
      | inl (space, b) ↦ rw space (IsNonspace-step input i _ b (rest _ _))
      | inr (inl (other, tab, b)) ↦ rw (other, tab) (IsNonspace-step input i _ b (rest _ _))
      | inr (inr (other, other', b)) ↦ rw (other, other') (here input i b)
    ]

-- The loop keeps count of the columns up to the next tab stop.
nonspace_loop_column :
    (fuel : ℕ) (input : Bytes) (i column chars : ℕ)
    → column ≡ column_at input i
    → chars ≡ tab_stop - column % tab_stop
    → (nonspace_loop fuel input i column chars).1
      ≡ column_at input (nonspace_loop fuel input i column chars).0
unfolding nonspace_loop
nonspace_loop_column zero input i column chars h k = h
nonspace_loop_column (suc fuel) input i column chars h k =
    let next = λ (c : ℕ) (ne : at input i ≢ 0). column_at_suc input i (inside_of_at input i ne) in
    elim (blank_cases (at input i)) [
      | inl (space, b) ↦
          let e = next b' ' (ground arith) in
          rw space (
            nonspace_loop_column fuel input (i + 1) (column + 1)
              (if chars - 1 == 0 then tab_stop else chars - 1) (ground arith) (ground arith))
      | inr (inl (other, tab, b)) ↦
          let e = next b'\t' (ground arith) in
          rw (other, tab)
            (nonspace_loop_column fuel input (i + 1) (column + chars) tab_stop (ground arith)
              (ground arith))
      | inr (inr (other, other', b)) ↦ rw (other, other') h
    ]

nonspace_loop-le :
    (fuel : ℕ) (input : Bytes) (i column chars : ℕ)
    → column ≤ (nonspace_loop fuel input i column chars).1
unfolding nonspace_loop
nonspace_loop-le zero input i column chars = omega arith
nonspace_loop-le (suc fuel) input i column chars = ground (
  arith,
  nonspace_loop-le fuel input (i + 1) (column + 1) (if chars - 1 == 0 then tab_stop else chars - 1),
  nonspace_loop-le fuel input (i + 1) (column + chars) tab_stop,
)

-- As above, from inside a tab.
nonspace_loop_in_tab :
    (fuel : ℕ) (input : Bytes) (i column : ℕ)
    → 0 < fuel
    → at input i ≡ b'\t'
    → column_at input i < column
    → column < next_stop (column_at input i)
    → (nonspace_loop fuel input i column (tab_stop - column % tab_stop)).1
      ≡ column_at input (nonspace_loop fuel input i column (tab_stop - column % tab_stop)).0
unfolding nonspace_loop
nonspace_loop_in_tab zero input i column f t a b = absurd (omega arith)
nonspace_loop_in_tab (suc fuel) input i column f t a b =
    let e = column_at_suc input i (inside_of_at input i (ground arith)) in
    rw t (
      nonspace_loop_column fuel input (i + 1) (column + (tab_stop - column % tab_stop)) tab_stop
        (ground arith) (ground arith))

nonspace_loop_aligned :
    (input : Bytes) (p : Parser)
    → IsAligned input p
    → (nonspace_loop (length input) input p.offset p.column (tab_stop - p.column % tab_stop)).1
      ≡ column_at input
          (nonspace_loop (length input) input p.offset p.column (tab_stop - p.column % tab_stop)).0
nonspace_loop_aligned input p (inl (whole, e)) =
    nonspace_loop_column (length input) input p.offset p.column _ e refl
nonspace_loop_aligned input p (inr (partial, t, a, b)) =
    nonspace_loop_in_tab (length input) input p.offset p.column
      (omega (arith, inside_of_at input p.offset (ground arith))) t a b

-- What the search leaves in the parser.
pub record FoundNonspace (input : Bytes) (p q : Parser) : Type 0 where
  pub found : IsNonspace input p.offset q.first_nonspace
  pub its_column : q.first_nonspace_column ≡ column_at input q.first_nonspace
  pub indent_is : p.column + q.indent ≡ q.first_nonspace_column
  pub blank_is : q.blank ≡ is_line_end_char (at input q.first_nonspace)
  pub stays : (q.offset ≡ p.offset) × (q.column ≡ p.column)

-- From an aligned position, where no later nonspace is recorded, the search finds the first byte
-- that is neither space nor tab, its column, the indent up to it and whether the line is blank,
-- and leaves the position.
pub find_first_nonspace-FoundNonspace :
    (input : Bytes) (p : Parser)
    → IsAligned input p
    → p.first_nonspace ≤ p.offset
    → FoundNonspace input p (find_first_nonspace p input)
unfolding find_first_nonspace
find_first_nonspace-FoundNonspace input p a old =
    let test : leb p.first_nonspace p.offset ≡ true = ground arith in
    let chars = tab_stop - p.column % tab_stop in
    rw (test, find_first_nonspace)
      (record {
        found = nonspace_loop-IsNonspace (length input) input p.offset p.column chars (omega arith);
        its_column = nonspace_loop_aligned input p a;
        indent_is = omega (arith, nonspace_loop-le (length input) input p.offset p.column chars);
        blank_is = refl;
        stays = (refl, refl);
      })
