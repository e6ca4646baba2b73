-- ===== src/Block/Marker/Interrupts.antt =====
-- When a list marker may interrupt a paragraph.
use swift_cmark.Base.{
  Bool, Bytes, at, false, length, some, true, ℕ, ◌+◌, ◌<◌, ◌==◌, ◌||◌, ◌≡◌, ◌≢◌, ◌≤◌,
}
use swift_cmark.Block.Line.{is_space_or_tab, is_line_end_char}
use swift_cmark.Block.Marker.{
  ListData, ordered_list, start_loop, ordered_end, skip_blanks, bullet_data,
}

-- `j` is the first place from `p` on without a space or tab.
abbrev pub IsFirst : Bytes → ℕ → ℕ → Type 0
IsFirst input p j =
    (p ≤ j)
    × ((i : ℕ) → p ≤ i → i < j → is_space_or_tab (at input i) ≡ true)
    × (is_space_or_tab (at input j) ≡ false)

module _ (input : Bytes) (p : ℕ) (d : ListData) (n : ℕ) where
  abbrev behind : ℕ → ℕ
  behind k = at input (skip_blanks (length input) input k)

  -- The tests on what follows an ordered marker.
  abbrev OrderedTests : ℕ → Type 0
  OrderedTests k = (d.start ≡ 1) × (is_line_end_char (behind k) ≡ false)

  abbrev IsBullet : Type 0
  IsBullet = (d ≡ bullet_data (at input p)) × (n ≡ 1)

  abbrev IsOrdered : Bool → Type 0
  IsOrdered interrupts =
      ordered_end input p (start_loop 9 input p 0).1 interrupts (start_loop 9 input p 0).0
      ≡ some (d, n)

  abbrev is_bullet_char : Bool
  is_bullet_char = at input p == b'*' || at input p == b'-' || at input p == b'+'

  -- Behind the marker's spaces and tabs stands a byte that ends no line; for bullets, a carriage return
  -- is such a byte.
  abbrev pub HasContent : Type 0
  HasContent =
      (j : ℕ) × IsFirst input (p + n) j
      × (at input j ≢ b'\n')
      × (d.list_type ≡ ordered_list → at input j ≢ b'\r')
