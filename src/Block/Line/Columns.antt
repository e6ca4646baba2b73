-- ===== src/Block/Line/Columns.antt =====
-- Virtual columns: a tab goes on to the next multiple of four.
use swift_cmark.Base.{
  Bytes, [], arith, at, false, if◌then◌else◌, length, refl, suc, take, true, zero, ℕ, ◌%◌, ◌++◌,
  ◌+◌, ◌-◌, ◌<◌, ◌==◌, ◌∷◌, ◌≡◌, ◌≢◌, ◌⊎◌,
}
use swift_cmark.Buffer.Block.{take-suc}
use swift_cmark.Block.Line.{Parser, tab_stop}

abbrev pub next_stop : ℕ → ℕ
next_stop col = col + (tab_stop - col % tab_stop)

abbrev pub next_column : ℕ → ℕ → ℕ
next_column col c = if c == b'\t' then next_stop col else col + 1

-- The column behind a text that begins in column `col`.
unfoldable pub columns : ℕ → Bytes → ℕ
columns col [] = col
columns col (c ∷ s) = columns (next_column col c) s

-- The column at which byte `i` of a line begins.
unfoldable pub column_at : Bytes → ℕ → ℕ
unfolding columns
column_at input i = columns 0 (take i input)

columns-concat :
    (col : ℕ) (s : Bytes) (c : ℕ) → columns col (s ++ c ∷ []) ≡ next_column (columns col s) c
unfolding columns
columns-concat col [] c = refl
columns-concat col (d ∷ s) c = columns-concat (next_column col d) s c

pub column_at_suc :
    (input : Bytes) (i : ℕ)
    → i < length input
    → column_at input (i + 1) ≡ next_column (column_at input i) (at input i)
unfolding column_at
column_at_suc input i h =
    let e : i + 1 ≡ suc i = omega arith in
    rw (e, take-suc input i h) (columns-concat 0 (take i input) (at input i))

pub inside_of_at : (input : Bytes) (i : ℕ) → at input i ≢ 0 → i < length input
inside_of_at [] i h = absurd (h refl)
inside_of_at (c ∷ s) zero h = omega arith
inside_of_at (c ∷ s) (suc i) h = omega (arith, inside_of_at s i h)

-- Offset and column agree: the column is the one at which the byte begins, or it lies inside the tab
-- that is marked as partially consumed.
abbrev pub IsAligned : Bytes → Parser → Type 0
IsAligned input p =
    ((p.partially_consumed_tab ≡ false) × (p.column ≡ column_at input p.offset))
    ⊎ ((p.partially_consumed_tab ≡ true)
        × (at input p.offset ≡ b'\t')
        × (column_at input p.offset < p.column)
        × (p.column < next_stop (column_at input p.offset)))
