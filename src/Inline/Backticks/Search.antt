-- ===== src/Inline/Backticks/Search.antt =====
-- The search for the closing run ends, and finds it.
use swift_cmark.Base.{
  ==_iff, Bool-cases, Bytes, Option, arith, at, drop, false, inl, inr, leb, leb→le, length, ltb,
  refl, some, subst, suc, true, zero, ℕ, ◌&&◌, ◌+◌, ◌-◌, ◌<◌, ◌==◌, ◌≡◌, ◌≢◌, ◌≤◌, ◌⊎◌,
}
use swift_cmark.Houdini.{span_length}
use swift_cmark.Inline.Backticks.{
  Subject, maxbackticks, isbacktick, is_other, store_ticks, closing_loop, scan_to_closing_backticks,
}
use swift_cmark.Inline.Backticks.Runs.{span-at}
use swift_cmark.Inline.Backticks.Closing.{Closes, NulFree, ends-Closes, found-Closes, later-Closes}

-- The search gives `r`, which is the place it has moved to or 0.
abbrev pub Searched : Subject → ℕ → Option (ℕ × Subject) → Type 0
Searched s n o =
    (r : ℕ) × (t : Subject) × (o ≡ some (r, t))
    × Closes s.input s.pos n r
    × (t.input ≡ s.input)
    × (r ≢ 0 → t.pos ≡ r)

-- Where the span of other bytes stops before the end, a backtick stands.
tick_here :
    (s : Bytes) (p : ℕ)
    → NulFree s
    → p < length s
    → is_other (at s p) ≡ false
    → 0 < span_length isbacktick (drop p s)
tick_here s p free h e = elim split [
  | inl z ↦ absurd (ground (arith, free p h, e, here z))
  | inr l ↦ l
]
  where
    k : ℕ
    k = span_length isbacktick (drop p s)

    split : (k ≡ 0) ⊎ (0 < k)
    split = ground arith

    here : k ≡ 0 → isbacktick (at s p) ≡ false
    here z =
        subst (λ i. isbacktick (at s i) ≡ false) {x = p + k} {y = p} (omega (arith, z))
          (span-at isbacktick s p refl).1

closing_loop_lem :
    (fuel n : ℕ) (s : Subject)
    → 0 < n
    → NulFree s.input
    → length s.input - s.pos < fuel
    → Searched s n (closing_loop fuel n s)
unfolding closing_loop
closing_loop_lem zero n s h free f = absurd (omega (arith, f))
closing_loop_lem (suc fuel) n s h free f = elim (Bool-cases (leb (length s.input) p)) [
  | inl e ↦ rw e (
    0,
    _,
    refl,
    ends-Closes s.input s.pos p k n le before inside behind (leb→le (length s.input) p e),
    refl,
    λ z. absurd (z refl),
  )
  | inr e ↦ elim (Bool-cases (k == n)) [
    | inl d ↦
        rw (e, d)
          (
            p + k,
            _,
            refl,
            found-Closes s.input s.pos p k n le before inside behind (some_tick e)
                ((==_iff k n).0 d),
            refl,
            λ z. refl,
          )
    | inr d ↦
        rw (e, d) (later (ground (arith, d)) (closing_loop_lem fuel n next h free (shorter e)))
  ]
]
  where
    p : ℕ
    p = s.pos + span_length is_other (drop s.pos s.input)

    k : ℕ
    k = span_length isbacktick (drop p s.input)

    next : Subject
    next = record s { pos = p + k; backticks = store_ticks k p s.backticks }

    le : s.pos ≤ p
    le = omega arith

    before : (i : ℕ) → s.pos ≤ i → i < p → is_other (at s.input i) ≡ true
    before = (span-at is_other s.input s.pos refl).0

    inside : (i : ℕ) → p ≤ i → i < p + k → isbacktick (at s.input i) ≡ true
    inside = (span-at isbacktick s.input p refl).0

    behind : isbacktick (at s.input (p + k)) ≡ false
    behind = (span-at isbacktick s.input p refl).1

    some_tick : leb (length s.input) p ≡ false → 0 < k
    some_tick e =
        tick_here s.input p free (ground (arith, e)) (span-at is_other s.input s.pos refl).1

    shorter : leb (length s.input) p ≡ false → length s.input - (p + k) < fuel
    shorter e =
        let lt : p < length s.input = ground (arith, e) in omega (arith, f, le, some_tick e, lt)

    later :
        k ≢ n → Searched next n (closing_loop fuel n next) → Searched s n (closing_loop fuel n next)
    later d (r, t, e, c, i, m) =
        (r, t, e, later-Closes s.input s.pos p k n le before inside behind r d c, i, m)

-- In a text without NUL, a search for a run of some backticks that does not know of an earlier
-- full search, and is for at most 80, ends and gives the place behind the first run of exactly
-- that many from its position on, to which it moves, or 0 if there is none; any other search does
-- the same, or gives 0 and changes nothing.
pub scan_to_closing_backticks-Searched :
    (s : Subject) (n : ℕ)
    → 0 < n
    → NulFree s.input
    → (s.scanned_for_backticks ≡ false
        → n ≤ maxbackticks
        → Searched s n (scan_to_closing_backticks s n))
      × ((scan_to_closing_backticks s n ≡ some (0, s))
          ⊎ Searched s n (scan_to_closing_backticks s n))
unfolding scan_to_closing_backticks
scan_to_closing_backticks-Searched s n h free = (first, by_limit (Bool-cases (ltb maxbackticks n)))
  where
    loop : Searched s n (closing_loop (suc (length s.input)) n s)
    loop = closing_loop_lem (suc (length s.input)) n s h free (omega arith)

    first :
        s.scanned_for_backticks ≡ false
        → n ≤ maxbackticks
        → Searched s n (scan_to_closing_backticks s n)
    first e l =
        let low : ltb maxbackticks n ≡ false = ground (arith, l) in
        let unknown : s.scanned_for_backticks && leb (at s.backticks n) s.pos ≡ false =
          ground (arith, e) in
        rw (low, unknown) loop

    by_memory :
        ltb maxbackticks n ≡ false
        → (s.scanned_for_backticks && leb (at s.backticks n) s.pos ≡ true)
          ⊎ (s.scanned_for_backticks && leb (at s.backticks n) s.pos ≡ false)
        → (scan_to_closing_backticks s n ≡ some (0, s))
          ⊎ Searched s n (scan_to_closing_backticks s n)
    by_memory d (inl e) = inl (rw (d, e) refl)
    by_memory d (inr e) = inr (rw (d, e) loop)

    by_limit :
        (ltb maxbackticks n ≡ true) ⊎ (ltb maxbackticks n ≡ false)
        → (scan_to_closing_backticks s n ≡ some (0, s))
          ⊎ Searched s n (scan_to_closing_backticks s n)
    by_limit (inl e) = inl (rw e refl)
    by_limit (inr e) =
        by_memory e (Bool-cases (s.scanned_for_backticks && leb (at s.backticks n) s.pos))
