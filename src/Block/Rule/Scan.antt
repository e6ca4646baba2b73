-- ===== src/Block/Rule/Scan.antt =====
-- The scanner accepts exactly the lines of three marks or more with blanks between.
use swift_cmark.Base.{
  ==_iff, Bool, Bool-cases, Bytes, [], arith, at, drop, false, if◌then◌else◌, inl, inr, leb, not,
  refl, subst, suc, sym, true, ℕ, ◌&&◌, ◌+◌, ◌-◌, ◌==◌, ◌||◌, ◌↔◌, ◌∷◌, ◌≡◌, ◌≢◌, ◌≤◌,
}
use swift_cmark.Block.Line.{is_space_or_tab, is_line_end_char}
use swift_cmark.Block.Rule.{rule_loop, scan_thematic_break, is_mark}

-- With `count` marks before it, the text goes on with marks and blanks to a line end after `n` bytes,
-- and there are at least three marks in all.
pub data GoesOn (c : ℕ) : ℕ → Bytes → ℕ → Type 0 where
  end : {count e : ℕ} {s : Bytes} → 3 ≤ count → is_line_end_char e ≡ true → GoesOn c count (e ∷ s) 0
  mark :
      {count n d : ℕ} {s : Bytes}
      → d ≡ c
      → GoesOn c (count + 1) s n
      → GoesOn c count (d ∷ s) (suc n)
  blank :
      {count n d : ℕ} {s : Bytes}
      → is_space_or_tab d ≡ true
      → GoesOn c count s n
      → GoesOn c count (d ∷ s) (suc n)

-- How the loop ends where the scanner accepts.
abbrev Accepts : ℕ × ℕ × ℕ → ℕ → Type 0
Accepts r j = (3 ≤ r.0) × (is_line_end_char r.1 ≡ true) × (r.2 ≡ j)

mark_facts :
    (c d : ℕ)
    → is_mark c ≡ true
    → ((is_line_end_char d ≡ true) → (d ≢ c) × (d ≢ 0) × (is_space_or_tab d ≡ false))
      × (c ≢ 0)
      × ((is_space_or_tab d ≡ true) → (d ≢ c) × (d ≢ 0))
unfolding is_mark is_line_end_char is_space_or_tab
mark_facts c d h = (ground arith, ground arith, ground arith)

nul_line_end : is_line_end_char 0 ≡ true → ⊥
unfolding is_line_end_char
nul_line_end h = ground arith

rule_loop_complete :
    (c : ℕ) {count n : ℕ} {s : Bytes} (i : ℕ)
    → is_mark c ≡ true
    → GoesOn c count s n
    → Accepts (rule_loop c s count i) (i + n)
unfolding rule_loop
rule_loop_complete c i h (end {count = count} {e = e} {s = s} le l) =
    let f = (mark_facts c e h).0 l in ground (arith, f)
rule_loop_complete c {count = count} {n = suc n} i h (mark {d = d} {s = s} e g) =
    let rest = rule_loop_complete c {count = count + 1} {n = n} {s = s} (i + 1) h g in
    let f = mark_facts c d h in ground (arith, rest, f, e)
rule_loop_complete c {count = count} {n = suc n} i h (blank {d = d} {s = s} e g) =
    let rest = rule_loop_complete c {count = count} {n = n} {s = s} (i + 1) h g in
    let f = (mark_facts c d h).2 e in ground (arith, rest, f, e)

loop_mark :
    (c d : ℕ) (s : Bytes) (count i : ℕ)
    → (d == 0) ≡ false
    → (d == c) ≡ true
    → rule_loop c (d ∷ s) count i ≡ rule_loop c s (count + 1) (i + 1)
unfolding rule_loop
loop_mark c d s count i nz same = rw (nz, same) refl

loop_blank :
    (c d : ℕ) (s : Bytes) (count i : ℕ)
    → (d == 0) ≡ false
    → (d == c) ≡ false
    → is_space_or_tab d ≡ true
    → rule_loop c (d ∷ s) count i ≡ rule_loop c s count (i + 1)
unfolding rule_loop
loop_blank c d s count i nz other sp = rw (nz, other, sp) refl

loop_stops :
    (c d : ℕ) (s : Bytes) (count i : ℕ)
    → (d == 0) ≡ false
    → (d == c || is_space_or_tab d) ≡ false
    → rule_loop c (d ∷ s) count i ≡ (count, d, i)
unfolding rule_loop
loop_stops c d s count i nz stop = rw (nz, stop) refl

loop_nul :
    (c d : ℕ) (s : Bytes) (count i : ℕ)
    → (d == 0) ≡ true
    → rule_loop c (d ∷ s) count i ≡ (count, 0, i)
unfolding rule_loop
loop_nul c d s count i z = rw z refl

-- What a result says of the text that it comes from, where the scanner accepts it.
abbrev Sound : ℕ → ℕ → Bytes → ℕ → ℕ × ℕ × ℕ → Type 0
Sound c count s i r =
    3 ≤ r.0 → is_line_end_char r.1 ≡ true → (n : ℕ) × GoesOn c count s n × (r.2 ≡ i + n)

Sound-mark :
    (c d : ℕ) (s : Bytes) (count i : ℕ) (r : ℕ × ℕ × ℕ)
    → d ≡ c
    → Sound c (count + 1) s (i + 1) r
    → Sound c count (d ∷ s) i r
Sound-mark c d s count i r e f a b =
    let (n, g, at_end) = f a b in (suc n, GoesOn.mark e g, omega (arith, at_end))

Sound-blank :
    (c d : ℕ) (s : Bytes) (count i : ℕ) (r : ℕ × ℕ × ℕ)
    → is_space_or_tab d ≡ true
    → Sound c count s (i + 1) r
    → Sound c count (d ∷ s) i r
Sound-blank c d s count i r e f a b =
    let (n, g, at_end) = f a b in (suc n, GoesOn.blank e g, omega (arith, at_end))

rule_loop-Sound : (c : ℕ) (s : Bytes) (count i : ℕ) → Sound c count s i (rule_loop c s count i)
unfolding rule_loop
rule_loop-Sound c [] count i = λ a b. absurd (nul_line_end b)
rule_loop-Sound c (d ∷ s) count i =
    let back =
      λ (r : ℕ × ℕ × ℕ) (e : rule_loop c (d ∷ s) count i ≡ r) (f : Sound c count (d ∷ s) i r).
        subst (Sound c count (d ∷ s) i) (sym e) f in
    elim (Bool-cases (d == 0)) [
      | inl z ↦ back _ (loop_nul c d s count i z) (λ a b. absurd (nul_line_end b))
      | inr nz ↦ elim (Bool-cases (d == c)) [
        | inl same ↦ back _ (loop_mark c d s count i nz same) (
            Sound-mark c d s count i _ ((==_iff d c).0 same)
              (rule_loop-Sound c s (count + 1) (i + 1)))
        | inr other ↦ elim (Bool-cases (is_space_or_tab d)) [
          | inl sp ↦
              back _ (loop_blank c d s count i nz other sp)
                (Sound-blank c d s count i _ sp (rule_loop-Sound c s count (i + 1)))
          | inr stop ↦
              back _ (loop_stops c d s count i nz (rw (other, stop) refl))
                (λ a b. (0, GoesOn.end a b, omega arith))
        ]
      ]
    ]

-- The scanner's last test, on a result of the loop.
accept_iff :
    (marked : Bool) (r : ℕ × ℕ × ℕ) (offset k : ℕ)
    → ((if not marked
          then inr offset
          else if leb 3 r.0 && is_line_end_char r.1
          then inl (r.2 - offset + 1)
          else inr r.2)
        ≡ inl k)
      ↔ ((marked ≡ true) × (3 ≤ r.0) × (is_line_end_char r.1 ≡ true) × (k ≡ r.2 - offset + 1))
accept_iff marked r offset k = ground arith

-- What is accepted, in terms of the loop.
abbrev Verdict : Bytes → ℕ → ℕ → Type 0
Verdict input offset k =
    let r = rule_loop (at input offset) (drop (offset + 1) input) 1 (offset + 1) in
    (is_mark (at input offset) ≡ true)
    × (3 ≤ r.0)
    × (is_line_end_char r.1 ≡ true)
    × (k ≡ r.2 - offset + 1)

abbrev pub Run : Bytes → ℕ → ℕ → Type 0
Run input offset k = (n : ℕ) × GoesOn (at input offset) 1 (drop (offset + 1) input) n × (k ≡ n + 2)

accepted :
    (input : Bytes) (offset k : ℕ)
    → Verdict input offset k
    → (is_mark (at input offset) ≡ true) × Run input offset k
accepted input offset k (m, a, b, e) =
    let (n, g, at_end) =
      rule_loop-Sound (at input offset) (drop (offset + 1) input) 1 (offset + 1) a b in
    (m, (n, g, omega (arith, e, at_end)))

accepting :
    (input : Bytes) (offset k : ℕ)
    → is_mark (at input offset) ≡ true
    → Run input offset k
    → Verdict input offset k
accepting input offset k m (n, g, e) =
    let (a, b, at_end) = rule_loop_complete (at input offset) (offset + 1) m g in
    (m, a, b, omega (arith, e, at_end))

-- The scanner accepts exactly where a `*`, `_` or `-` stands with further such marks and blanks
-- behind it, at least three marks in all, up to a line end; its result is then the length, the
-- line end's first byte included.
pub scan_thematic_break_iff :
    (input : Bytes) (offset k : ℕ)
    → (scan_thematic_break input offset ≡ inl k)
      ↔ ((is_mark (at input offset) ≡ true) × Run input offset k)
unfolding scan_thematic_break
scan_thematic_break_iff input offset k =
    let c = at input offset in
    let r = rule_loop c (drop (offset + 1) input) 1 (offset + 1) in
    let verdict = accept_iff (is_mark c) r offset k in
    (λ h. accepted input offset k (verdict.0 h), λ (m, g). verdict.1 (accepting input offset k m g))
