-- ===== src/Block/Text/Closing.antt =====
-- The closing sequence of a heading.
use swift_cmark.Base.{
  Bool, Bool-cases, Bytes, [], ap, arith, at, drop, false, inl, inr, length, length-append,
  length-drop, ltb, not, refl, subst, suc, sym, take, take-append-drop, true, zero, ℕ, ◌&&◌, ◌++◌,
  ◌+◌, ◌-◌, ◌<◌, ◌==◌, ◌∙◌, ◌∷◌, ◌≡◌, ◌≢◌, ◌≤◌, ◌⊎◌,
}
use swift_cmark.Chunk.{chunk_rtrim}
use swift_cmark.Buffer.Block.{drop-eq-cons, at-drop}
use swift_cmark.Block.Line.{is_space_or_tab}
use swift_cmark.Block.Text.{chop_trailing_hashtags, hash_loop}

abbrev pub hashes : ℕ → Bytes
hashes zero = []
hashes (suc k) = b'#' ∷ hashes k

-- `t` is `u` and a closing sequence, a blank and `#`s behind it.
abbrev pub IsClosed : Bytes → Bytes → Type 0
IsClosed t u = (b : ℕ) × (k : ℕ) × (is_space_or_tab b ≡ true) × (t ≡ u ++ b ∷ hashes (suc k))

length-hashes : (k : ℕ) → length (hashes k) ≡ k
length-hashes zero = refl
length-hashes (suc k) = omega (arith, length-hashes k)

at-hashes : (k i : ℕ) → i < k → at (hashes k) i ≡ b'#'
at-hashes zero i h = absurd (omega arith)
at-hashes (suc k) zero h = refl
at-hashes (suc k) (suc i) h = at-hashes k i (omega arith)

pub at-append : (u v : Bytes) (i : ℕ) → at (u ++ v) (length u + i) ≡ at v i
at-append [] v i = ap (at v) (omega arith)
at-append (x ∷ u) v i =
    ap (at (x ∷ (u ++ v))) {x = suc (length u) + i} {y = suc (length u + i)} (omega arith)
    ∙ at-append u v i

-- All from `lo` on are `#`s, and the one before is not.
hash_loop-stop :
    (s : Bytes) (lo n : ℕ)
    → lo < n
    → ((i : ℕ) → lo < i → i < n → at s i ≡ b'#')
    → at s lo ≢ b'#'
    → hash_loop s n ≡ suc lo
unfolding hash_loop
hash_loop-stop s lo zero lt all ne = absurd (omega arith)
hash_loop-stop s lo (suc n) lt all ne = elim (Bool-cases (at s n == b'#')) [
  | inl e ↦ rw e (hash_loop-stop s lo n (above e) (λ i h k. all i h (omega arith)) ne)
  | inr e ↦ rw e (ap suc (below e))
]
  where
    split : (n ≡ lo) ⊎ (lo < n)
    split = ground arith

    above : (at s n == b'#') ≡ true → lo < n
    above e = elim split [
      | inl q ↦ absurd (ne (subst (λ x. at s x ≡ b'#') q (ground (arith, e))))
      | inr h ↦ h
    ]

    below : (at s n == b'#') ≡ false → n ≡ lo
    below e = elim split [ inl q ↦ q | inr h ↦ absurd (ground (arith, e, all n h (omega arith))) ]

-- With a closing sequence the loop stops behind its blank.
hash_loop-IsClosed :
    (u : Bytes) (b k : ℕ)
    → is_space_or_tab b ≡ true
    → hash_loop (u ++ b ∷ hashes (suc k)) (length (u ++ b ∷ hashes (suc k))) ≡ suc (length u)
unfolding is_space_or_tab
hash_loop-IsClosed u b k e =
    hash_loop-stop (u ++ b ∷ hashes (suc k)) (length u) _ (omega (arith, size)) later blank
  where
    size : length (u ++ b ∷ hashes (suc k)) ≡ length u + suc (suc k)
    size = omega (arith, length-append u (b ∷ hashes (suc k)), length-hashes (suc k))

    later :
        (i : ℕ)
        → length u < i
        → i < length (u ++ b ∷ hashes (suc k))
        → at (u ++ b ∷ hashes (suc k)) i ≡ b'#'
    later i h l =
        let j : length u + suc (i - length u - 1) ≡ i = omega arith in
        subst (λ x. at (u ++ b ∷ hashes (suc k)) x ≡ b'#') j
          (at-append u (b ∷ hashes (suc k)) (suc (i - length u - 1))
            ∙ at-hashes (suc k) (i - length u - 1) (omega (arith, size)))

    blank : at (u ++ b ∷ hashes (suc k)) (length u) ≢ b'#'
    blank q =
        let z : length u + 0 ≡ length u = omega arith in
        let here : at (u ++ b ∷ hashes (suc k)) (length u) ≡ b =
          subst (λ x. at (u ++ b ∷ hashes (suc k)) x ≡ b) z (at-append u (b ∷ hashes (suc k)) 0) in
        ground (arith, e, q, here)

hash_loop-le : (s : Bytes) (n : ℕ) → hash_loop s n ≤ n
unfolding hash_loop
hash_loop-le s zero = omega arith
hash_loop-le s (suc n) = ground (arith, hash_loop-le s n)

hash_loop-hashes : (s : Bytes) (n i : ℕ) → hash_loop s n ≤ i → i < n → at s i ≡ b'#'
unfolding hash_loop
hash_loop-hashes s zero i h k = absurd (omega arith)
hash_loop-hashes s (suc n) i h k = elim (Bool-cases (at s n == b'#')) [
  | inl e ↦ last (hash_loop-hashes s n i) e (rw e at h)
  | inr e ↦ absurd (omega (arith, k, rw e at h))
]
  where
    split : (i ≡ n) ⊎ (i < n)
    split = ground arith

    last :
        (hash_loop s n ≤ i → i < n → at s i ≡ b'#')
        → (at s n == b'#') ≡ true
        → hash_loop s n ≤ i
        → at s i ≡ b'#'
    last go e l = elim split [
      | inl q ↦ subst (λ x. at s x ≡ b'#') (sym q) (ground (arith, e))
      | inr lt ↦ go l lt
    ]

hashes-eq : (s : Bytes) → ((i : ℕ) → i < length s → at s i ≡ b'#') → s ≡ hashes (length s)
hashes-eq [] h = refl
hashes-eq (c ∷ s) h = cons-eq c s (h 0 (omega arith)) (hashes-eq s (λ i l. h (suc i) (omega arith)))
  where
    cons-eq :
        (c : ℕ) (s : Bytes) → c ≡ b'#' → s ≡ hashes (length s) → c ∷ s ≡ b'#' ∷ hashes (length s)
    cons-eq c s p q = rw (p, ← q) refl

-- A blank before the place where the loop stops begins a closing sequence.
stop-IsClosed :
    (t : Bytes)
    → (hash_loop t (length t) == length t) ≡ false
    → 0 < hash_loop t (length t)
    → is_space_or_tab (at t (hash_loop t (length t) - 1)) ≡ true
    → IsClosed t (take (hash_loop t (length t) - 1) t)
stop-IsClosed t ne pos_n blank = (at t (n - 1), length t - n - 1, blank, whole)
  where
    n : ℕ
    n = hash_loop t (length t)

    lt : n < length t
    lt = ground (arith, ne, hash_loop-le t (length t))

    size : length (drop n t) ≡ suc (length t - n - 1)
    size = omega (arith, length-drop n t, lt)

    next : suc (n - 1) ≡ n
    next = omega (arith, pos_n)

    rest : drop n t ≡ hashes (suc (length t - n - 1))
    rest =
        hashes-eq (drop n t) (λ i l.
          at-drop t n i
          ∙ hash_loop-hashes t (length t) (n + i) (omega arith) (omega (arith, l, length-drop n t)))
        ∙ ap hashes size

    whole : t ≡ take (n - 1) t ++ at t (n - 1) ∷ hashes (suc (length t - n - 1))
    whole =
        sym (take-append-drop (n - 1) t)
        ∙ ap (λ (w : Bytes). take (n - 1) t ++ w)
            (drop-eq-cons t (n - 1) (omega (arith, lt))
              ∙ ap (λ (k : ℕ). at t (n - 1) ∷ drop k t) next
              ∙ ap (λ (w : Bytes). at t (n - 1) ∷ w) rest)

-- With the white space at its end taken off, a text either is some text, a space or tab and one or
-- more `#`s, and chopping leaves that text without the white space at its end, or is no such text,
-- and chopping leaves it whole.
pub chop_trailing_hashtags-IsClosed :
    (s : Bytes)
    → ((u : Bytes) × IsClosed (chunk_rtrim s) u × (chop_trailing_hashtags s ≡ chunk_rtrim u))
      ⊎ (((u : Bytes) → IsClosed (chunk_rtrim s) u → ⊥)
          × (chop_trailing_hashtags s ≡ chunk_rtrim s))
unfolding chop_trailing_hashtags
chop_trailing_hashtags-IsClosed s = elim (Bool-cases (chops (hash_loop t (length t)))) [
  | inl e ↦
      let (ne, lt, blank) = chops-parts (hash_loop t (length t)) e in
      inl (take (hash_loop t (length t) - 1) t, stop-IsClosed t ne lt blank, rw e refl)
  | inr e ↦ inr (unclosed e, rw e refl)
]
  where
    t : Bytes
    t = chunk_rtrim s

    chops : ℕ → Bool
    chops n = not (n == length t) && ltb 0 n && is_space_or_tab (at t (n - 1))

    chops-parts :
        (n : ℕ)
        → chops n ≡ true
        → ((n == length t) ≡ false) × (0 < n) × (is_space_or_tab (at t (n - 1)) ≡ true)
    chops-parts n e = (ground (arith, e), ground (arith, e), ground (arith, e))

    unclosed : chops (hash_loop t (length t)) ≡ false → (u : Bytes) → IsClosed t u → ⊥
    unclosed e u (b, k, blank, q) =
        let v : Bytes = u ++ b ∷ hashes (suc k) in
        let stop : hash_loop t (length t) ≡ suc (length u) =
          subst (λ x. hash_loop x (length x) ≡ suc (length u)) (sym q)
            (hash_loop-IsClosed u b k blank) in
        let here : at t (length u) ≡ b =
          ap (λ (x : Bytes). at x (length u)) q
          ∙ subst (λ x. at v x ≡ b) {x = length u + 0} (omega arith)
              (at-append u (b ∷ hashes (suc k)) 0) in
        let long : length t ≡ length u + suc (suc k) =
          ap length q
          ∙ omega (arith, length-append u (b ∷ hashes (suc k)), length-hashes (suc k)) in
        let one : suc (length u) - 1 ≡ length u = omega arith in
        let no : chops (suc (length u)) ≡ false = subst (λ n. chops n ≡ false) stop e in
        let yes : is_space_or_tab (at t (suc (length u) - 1)) ≡ true = rw (one, here) blank in
        ground (arith, no, yes, long)
