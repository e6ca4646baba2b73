-- ===== src/Commonmark/Code/Padded.antt =====
-- The text of a code span with a space on both sides, or none.
use swift_cmark.Base.{
  All, All-append, Bool, Bool-cases, Bytes, [], ap, append-nil, append_assoc, arith, at, false,
  if◌then◌else◌, inl, inr, length, length-append, refl, subst, suc, sym, take, true, zero, ℕ, ◌++◌,
  ◌+◌, ◌-◌, ◌<◌, ◌==◌, ◌∙◌, ◌∷◌, ◌≡◌, ◌≢◌, ◌⊎◌,
}
use swift_cmark.Inline.Backticks.Runs.{IsRun}
use swift_cmark.Inline.Backticks.{isbacktick, normalize_code}
use swift_cmark.Houdini.{span_length}
use swift_cmark.Inline.Backticks.Normal.{normalize_code-stripped, has_nonspace, stripped, spaced}
use swift_cmark.Commonmark.Code.{repeat}
use swift_cmark.Commonmark.Code.Inside.{shift-IsRun, shrink-IsRun}
use swift_cmark.Block.Text.Closing.{at-append}

abbrev pub padded : Bool → Bytes → Bytes
padded b text = repeat (if b then 1 else 0) b' ' ++ (text ++ repeat (if b then 1 else 0) b' ')

raise_low : (s : Bytes) (n q : ℕ) → IsRun s 0 n (suc q) → IsRun s 1 n (suc q)
raise_low s n q (a, b, c, d, inl e) = absurd (omega (arith, e))
raise_low s n q (a, b, c, d, inr e) = (omega arith, b, c, d, inr e)

-- A run that begins in the padded text is a run of the text.
pub no_early :
    (b : Bool) (text v : Bytes) (n q : ℕ)
    → (b ≡ false → at text (length text - 1) ≢ b'`')
    → ((j : ℕ) → ¬ IsRun text 0 n j)
    → IsRun (padded b text ++ v) 0 n q
    → q < length (padded b text)
    → ⊥
no_early false text v n q last none_in r h =
    let whole = append-nil text in
    none_in q (
      shrink-IsRun text v n q (subst (λ x. IsRun (x ++ v) 0 n q) whole r)
        (subst (λ x. q < length x) whole h) (inl (last refl)))
no_early true text v n zero last none_in (a, b, c, d, e) h =
    omega (arith, c 0 (omega arith) (omega (arith, b)))
no_early true text v n (suc q) last none_in r h =
    none_in q (shrink-IsRun text (b' ' ∷ v) n q run before (inr (omega arith)))
  where
    run : IsRun (text ++ b' ' ∷ v) 0 n q
    run =
        subst (λ x. IsRun x 0 n q) (append_assoc text (b' ' ∷ []) v)
          (subst (IsRun ((text ++ b' ' ∷ []) ++ v) 0 n) {x = suc q - 1} {y = q} (omega arith) (
            shift-IsRun (b' ' ∷ []) ((text ++ b' ' ∷ []) ++ v) n (suc q)
              (raise_low (b' ' ∷ ((text ++ b' ' ∷ []) ++ v)) n q r)))

    before_or : (q < length text) ⊎ (q ≡ length text)
    before_or = ground (arith, h, length-append text (b' ' ∷ []))

    before : q < length text
    before = elim before_or [
      | inl k ↦ k
      | inr e ↦ absurd (
          omega (
            arith,
            sym (at-append text (b' ' ∷ v) 0)
                ∙ run.2 (length text + 0) (omega (arith, e)) (omega (arith, e, run.1)),
          ))
    ]

pub take-append : (u v : Bytes) → take (length u) (u ++ v) ≡ u
take-append [] v = refl
take-append (c ∷ u) v = ap (◌∷◌ c) (take-append u v)

spaced_id : (s : Bytes) → All (λ c. c ≢ b'\n') s → spaced s ≡ s
spaced_id [] h = refl
spaced_id (c ∷ s) (h, hs) =
    let e : (c == b'\n') ≡ false = ground (arith, h) in rw e (ap (◌∷◌ c) (spaced_id s hs))

has_nonspace-append : (u v : Bytes) → has_nonspace u ≡ true → has_nonspace (u ++ v) ≡ true
has_nonspace-append [] v h = absurd (ground (arith, h))
has_nonspace-append (c ∷ u) v h = elim (Bool-cases (c == b' ')) [
  | inl e ↦ rw e (has_nonspace-append u v (rw e at h))
  | inr e ↦ rw e refl
]

stripped-padded :
    (b : Bool) (text : Bytes)
    → has_nonspace text ≡ true
    → (b ≡ false → at text 0 ≢ b' ')
    → stripped (padded b text) ≡ text
stripped-padded false text h first =
    let e : (at text 0 == b' ') ≡ false = ground (arith, first refl) in
    ap stripped (append-nil text) ∙ rw (h, e) refl
stripped-padded true text h first =
    rw (has_nonspace-append text (b' ' ∷ []) h, last)
      (ap (λ k. take k w) {x = suc (length w) - 2} {y = length text} (omega (arith, sized))
        ∙ take-append text (b' ' ∷ []))
  where
    w : Bytes
    w = text ++ b' ' ∷ []

    sized : length w ≡ length text + 1
    sized = length-append text (b' ' ∷ [])

    last : at (b' ' ∷ w) (suc (length w) - 1) ≡ b' '
    last =
        ap (at (b' ' ∷ w)) {x = suc (length w) - 1} {y = suc (length text + 0)}
          (omega (arith, sized))
        ∙ at-append text (b' ' ∷ []) 0

All-map : {P Q : ℕ → Type 0} → ((c : ℕ) → P c → Q c) → (s : Bytes) → All P s → All Q s
All-map f [] h = _
All-map f (c ∷ s) (h, hs) = (f c h, All-map f s hs)

padded-All :
    (P : ℕ → Type 0) (b : Bool) (text : Bytes) → P b' ' → All P text → All P (padded b text)
padded-All P false text p h = All-append P text [] h _
padded-All P true text p h = (p, All-append P text (b' ' ∷ []) h (p, _))

pub normalize_code-padded :
    (b : Bool) (text : Bytes)
    → has_nonspace text ≡ true
    → (b ≡ false → at text 0 ≢ b' ')
    → All (λ c. (c ≢ b'\r') × (c ≢ b'\n')) text
    → normalize_code (padded b text) ≡ text
normalize_code-padded b text h first plain =
    let clean =
      padded-All (λ c. (c ≢ b'\r') × (c ≢ b'\n')) b text (omega arith, omega arith) plain in
    normalize_code-stripped (padded b text) (All-map (λ c p. p.0) (padded b text) clean)
    ∙ ap stripped (spaced_id (padded b text) (All-map (λ c p. p.1) (padded b text) clean))
    ∙ stripped-padded b text h first

pub span-repeat :
    (n : ℕ) (v : Bytes) → at v 0 ≢ b'`' → span_length isbacktick (repeat n b'`' ++ v) ≡ n
unfolding span_length
span-repeat zero [] h = refl
span-repeat zero (c ∷ v) h = let e : isbacktick c ≡ false = ground (arith, h) in rw e refl
span-repeat (suc n) v h = ap suc (span-repeat n v h)

pub length-repeat : (n c : ℕ) → length (repeat n c) ≡ n
length-repeat zero c = refl
length-repeat (suc n) c = ap suc (length-repeat n c)

pub at-repeat : (n c i : ℕ) (v : Bytes) → i < n → at (repeat n c ++ v) i ≡ c
at-repeat zero c i v h = absurd (omega (arith, h))
at-repeat (suc n) c zero v h = refl
at-repeat (suc n) c (suc i) v h = at-repeat n c i v (omega (arith, h))

-- It does not end with a backtick.
pub padded_last :
    (b : Bool) (text : Bytes)
    → (b ≡ false → at text (length text - 1) ≢ b'`')
    → at (padded b text) (length (padded b text) - 1) ≢ b'`'
padded_last false text h e = h refl (subst (λ x. at x (length x - 1) ≡ b'`') (append-nil text) e)
padded_last true text h e =
    let sized : length (text ++ b' ' ∷ []) ≡ length text + 1 = length-append text (b' ' ∷ []) in
    let last : at (padded true text) (length (padded true text) - 1) ≡ b' ' =
      ap (at (padded true text)) {x = length (padded true text) - 1} {y = suc (length text + 0)}
        (omega (arith, sized))
      ∙ at-append text (b' ' ∷ []) 0 in
    omega (arith, sym last ∙ e)
