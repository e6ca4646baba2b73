-- ===== src/Block/Line/Advance.antt =====
-- `S_advance_offset` keeps offset and column together, and moves as far as it is told.
use swift_cmark.Base.{
  Bool, Bool-cases, Bytes, arith, at, false, inl, inr, ltb, not, suc, true, zero, ℕ, ◌&&◌, ◌+◌, ◌<◌,
  ◌==◌, ◌≡◌, ◌≢◌, ◌≤◌, ◌⊎◌,
}
use swift_cmark.Block.Line.{Parser, advance_step, advance_loop, advance_offset}
use swift_cmark.Block.Line.Columns.{column_at_suc, inside_of_at, IsAligned}

advance_step-IsAligned :
    (p : Parser) (input : Bytes) (count : ℕ) (columns : Bool)
    → at input p.offset ≢ 0
    → 0 < count
    → IsAligned input p
    → IsAligned input (advance_step p (at input p.offset) count columns).0
unfolding advance_step
advance_step-IsAligned p input count true c h a =
    ground (arith, column_at_suc input p.offset (inside_of_at input p.offset c))
advance_step-IsAligned p input count false c h a =
    ground (arith, column_at_suc input p.offset (inside_of_at input p.offset c))

advance_loop-IsAligned :
    (fuel : ℕ) (p : Parser) (input : Bytes) (count : ℕ) (columns : Bool)
    → IsAligned input p
    → IsAligned input (advance_loop fuel p input count columns)
unfolding advance_loop
advance_loop-IsAligned zero p input count columns a = a
advance_loop-IsAligned (suc fuel) p input count columns a =
    elim (Bool-cases (ltb 0 count && not (at input p.offset == 0))) [
      | inl go ↦ rw go (
          advance_loop-IsAligned fuel _ input _ columns
            (advance_step-IsAligned p input count columns (ground arith) (ground arith) a))
      | inr stop ↦ rw stop a
    ]

-- From a position whose column is that of its offset, or lies inside a tab that is marked as
-- partially consumed, `advance_offset` gets to such a position again.
pub advance_offset-IsAligned :
    (p : Parser) (input : Bytes) (count : ℕ) (columns : Bool)
    → IsAligned input p
    → IsAligned input (advance_offset p input count columns)
unfolding advance_offset
advance_offset-IsAligned p input count columns = advance_loop-IsAligned count p input count columns

-- How far the loop got: all the way, or to the end of the line.
abbrev pub Moved : Bytes → ℕ → ℕ → ℕ → Parser → Type 0
Moved input from count now p =
    ((now ≡ from + count) ⊎ ((at input p.offset ≡ 0) × (now < from + count))) × (from ≤ now)

advance_loop_columns :
    (fuel : ℕ) (p : Parser) (input : Bytes) (count : ℕ)
    → count ≤ fuel
    → Moved input p.column count
        (advance_loop fuel p input count true).column
        (advance_loop fuel p input count true)
unfolding advance_loop advance_step
advance_loop_columns zero p input count h = ground arith
advance_loop_columns (suc fuel) p input count h =
    let r = advance_step p (at input p.offset) count true in
    ground (arith, advance_loop_columns fuel r.0 input r.1)

advance_loop_bytes :
    (fuel : ℕ) (p : Parser) (input : Bytes) (count : ℕ)
    → count ≤ fuel
    → Moved input p.offset count
        (advance_loop fuel p input count false).offset
        (advance_loop fuel p input count false)
unfolding advance_loop advance_step
advance_loop_bytes zero p input count h = ground arith
advance_loop_bytes (suc fuel) p input count h =
    let r = advance_step p (at input p.offset) count false in
    ground (arith, advance_loop_bytes fuel r.0 input r.1)

-- Counting columns, `advance_offset` moves exactly `count` columns on, and counting bytes exactly
-- `count` bytes, unless the line ends before; it then stops at the end, having moved no further.
pub advance_offset-Moved :
    (p : Parser) (input : Bytes) (count : ℕ)
    → Moved input p.column count
        (advance_offset p input count true).column
        (advance_offset p input count true)
      × Moved input p.offset count
          (advance_offset p input count false).offset
          (advance_offset p input count false)
unfolding advance_offset
advance_offset-Moved p input count = (
  advance_loop_columns count p input count (omega arith),
  advance_loop_bytes count p input count (omega arith),
)
