-- ===== src/Block/Marker/Bounds.antt =====
-- What a list marker can be: its length, its number, and which items share a list.
use swift_cmark.Base.{
  Bool, Bytes, ap, arith, at, inl, inr, refl, some, suc, true, zero, ℕ, ◌*◌, ◌+◌, ◌-◌, ◌<◌, ◌^◌,
  ◌↔◌, ◌≡◌, ◌≢◌, ◌≤◌, ◌⊎◌,
}
use swift_cmark.Ctype.{isspace, isdigit}
use swift_cmark.Block.Marker.{
  ListData, bullet_list, ordered_list, parse_list_marker, start_loop, ordered_end, lists_match,
  bullet_data,
}

-- `m` times ten, `n` times.
shifted : ℕ → ℕ → ℕ
shifted zero m = m
shifted (suc n) m = shifted n (10 * m)

shifted-ge : (n m : ℕ) → m ≤ shifted n m
unfolding shifted
shifted-ge zero m = omega arith
shifted-ge (suc n) m = omega (arith, shifted-ge n (10 * m))

pub digit-le : (c : ℕ) → isdigit c ≡ true → (c - b'0' ≤ 9) × (c ≢ b'*') × (c ≢ b'-') × (c ≢ b'+')
unfolding isdigit
digit-le c h = ground arith

-- What `n` rounds of the loop over digits reach, from a start below `m`.
start_loop_bounds :
    (n : ℕ) (input : Bytes) (i start m : ℕ)
    → start < m
    → isdigit (at input i) ≡ true
    → ((start_loop n input i start).0 < shifted n m)
      × (i ≤ (start_loop n input i start).1)
      × ((start_loop n input i start).1 ≤ i + n)
unfolding start_loop shifted
start_loop_bounds zero input i start m h d = (h, omega arith, omega arith)
start_loop_bounds (suc n) input i start m h d = ground (
  arith,
  digit-le (at input i) d,
  shifted-ge n (10 * m),
  start_loop_bounds n input (i + 1) (10 * start + (at input i - b'0')) (10 * m),
)

pub ordered_end_bounds :
    (input : Bytes) (startpos stop : ℕ) (interrupts : Bool) (start : ℕ) {d : ListData} {n : ℕ}
    → startpos ≤ stop
    → ordered_end input startpos stop interrupts start ≡ some (d, n)
    → (startpos + n ≡ stop + 1) × (d.start ≡ start) × (isspace (at input (stop + 1)) ≡ true)
unfolding ordered_end
ordered_end_bounds input startpos stop interrupts start le h = ground arith

-- The two ways to a marker.
pub marker_cases :
    (input : Bytes) (startpos : ℕ) (interrupts : Bool) (d : ListData) (n : ℕ)
    → parse_list_marker input startpos interrupts ≡ some (d, n)
    → ((d ≡ bullet_data (at input startpos)) × (n ≡ 1) × (isspace (at input (startpos + 1)) ≡ true))
      ⊎ ((isdigit (at input startpos) ≡ true)
          × (ordered_end input startpos
                (start_loop 9 input startpos 0).1
                interrupts
                (start_loop 9 input startpos 0).0
              ≡ some (d, n)))
unfolding parse_list_marker
marker_cases input startpos interrupts d n h = ground arith

nine_digits : shifted 9 1 ≡ 10 ^ 9
unfolding shifted
nine_digits = refl

-- A list marker takes one to ten bytes, its number is below 10^9, and white space stands behind
-- it.
pub parse_list_marker_bounds :
    (input : Bytes) (startpos : ℕ) (interrupts : Bool) (d : ListData) (n : ℕ)
    → parse_list_marker input startpos interrupts ≡ some (d, n)
    → (1 ≤ n) × (n ≤ 10) × (d.start < 10 ^ 9) × (isspace (at input (startpos + n)) ≡ true)
parse_list_marker_bounds input startpos interrupts d n h =
    elim (marker_cases input startpos interrupts d n h) [
      | inl (e, one, space) ↦ (omega arith, omega arith, rw e (omega arith), rw one space)
      | inr (digit, e) ↦
          let r = start_loop 9 input startpos 0 in
          let (small, le, ge) = start_loop_bounds 9 input startpos 0 1 (omega arith) digit in
          let (len, number, space) = ordered_end_bounds input startpos r.1 interrupts r.0 le e in
          (omega arith, omega arith, omega (arith, nine_digits), rw len space)
    ]

ordered_end_interrupts :
    (input : Bytes) (startpos stop start : ℕ) {d : ListData} {n : ℕ}
    → ordered_end input startpos stop true start ≡ some (d, n)
    → (d.list_type ≡ ordered_list) × (d.start ≡ 1)
unfolding ordered_end
ordered_end_interrupts input startpos stop start h = ground arith

-- A list marker that may interrupt a paragraph is a bullet, with start 0, or an ordered one that
-- starts with 1.
pub parse_list_marker_interrupts :
    (input : Bytes) (startpos : ℕ) (d : ListData) (n : ℕ)
    → parse_list_marker input startpos true ≡ some (d, n)
    → ((d.list_type ≡ bullet_list) × (d.start ≡ 0)) ⊎ ((d.list_type ≡ ordered_list) × (d.start ≡ 1))
parse_list_marker_interrupts input startpos d n h = elim (marker_cases input startpos true d n h) [
  | inl (e, one, space) ↦
      inl (ap (λ (x : ListData). x.list_type) e, ap (λ (x : ListData). x.start) e)
  | inr (digit, e) ↦ inr (ordered_end_interrupts input startpos _ _ e)
]

-- Two list data match exactly if their list type, delimiter and bullet character are the same.
pub lists_match_iff :
    (a b : ListData)
    → (lists_match a b ≡ true) ↔ (
        (a.list_type ≡ b.list_type) × (a.delimiter ≡ b.delimiter) × (a.bullet_char ≡ b.bullet_char))
unfolding lists_match
lists_match_iff a b = ground arith
