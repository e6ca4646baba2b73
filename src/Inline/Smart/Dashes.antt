-- ===== src/Inline/Smart/Dashes.antt =====
-- How many dashes stand for hyphens.
use swift_cmark.Base.{arith, ℕ, ◌%◌, ◌*◌, ◌+◌, ◌≡◌, ◌≢◌, ◌≤◌, ◌⊎◌}
use swift_cmark.Inline.Smart.{dash_counts}

-- An em dash for three hyphens and an en dash for two, of one kind where that is possible, and otherwise
-- with at most two en dashes.
pub dash_counts_lem :
    (n : ℕ)
    → 2 ≤ n
    → (3 * (dash_counts n).0 + 2 * (dash_counts n).1 ≡ n)
      × (n % 3 ≡ 0 → (dash_counts n).1 ≡ 0)
      × (n % 3 ≢ 0 → n % 2 ≡ 0 → (dash_counts n).0 ≡ 0)
      × (((dash_counts n).0 ≡ 0) ⊎ ((dash_counts n).1 ≤ 2))
unfolding dash_counts
dash_counts_lem n h = (ground arith, ground arith, ground arith, ground arith)
