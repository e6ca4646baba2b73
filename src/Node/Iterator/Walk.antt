-- ===== src/Node/Iterator/Walk.antt =====
-- The iterator goes through a tree in order, and ends.
use swift_cmark.Base.{
  Bool-cases, List, Option, [], ap, arith, false, if◌then◌else◌, inl, inr, length, none, refl, some,
  suc, true, zero, ℕ, ◌++◌, ◌+◌, ◌∙◌, ◌∷◌, ◌≡◌, ◌≢◌,
}
use swift_cmark.Node.Links.{Store}
use swift_cmark.Node.Iterator.{
  iter_new, step, event_done, roll_forward, IterState, event_exit, event_enter, Event, Iter,
  is_leaf, iter_next,
}

-- A node with the list of its children.
mutual
  pub data Tree : Type 0 where
    node : ℕ → Forest → Tree

  pub data Forest : Type 0 where
    nil : Forest
    cons : Tree → Forest → Forest

abbrev pub address : Tree → ℕ
address (node a f) = a

abbrev pub first_of : Forest → Option ℕ
first_of nil = none
first_of (cons t f) = some (address t)

-- The store holds the tree below `a`; a leaf has no children, and `root` stands nowhere below.
unfoldable mutual
  pub Represents : Store → ℕ → Tree → Type 0
  Represents s root (node a f) =
      ((s a).first_child ≡ first_of f)
      × ((is_leaf (s a).type ≡ true) → f ≡ nil)
      × RepresentsAll s root a f

  pub RepresentsAll : Store → ℕ → ℕ → Forest → Type 0
  RepresentsAll s root p nil = Unit {0}
  RepresentsAll s root p (cons t f) =
      (address t ≢ root)
      × ((s (address t)).parent ≡ some p)
      × ((s (address t)).next ≡ first_of f)
      × Represents s root t
      × RepresentsAll s root p f

-- What a walk reports: every node is entered before its children and left behind them, a leaf only
-- entered.
unfoldable mutual
  pub events : Store → Tree → List (Event × Option ℕ)
  events s (node a f) =
      (event_enter, some a)
      ∷ (if is_leaf (s a).type then [] else events_all s f ++ (event_exit, some a) ∷ [])

  pub events_all : Store → Forest → List (Event × Option ℕ)
  events_all s nil = []
  events_all s (cons t f) = events s t ++ events_all s f

-- The events of `n` calls of `cmark_iter_next`, each with the node it is for.
unfoldable pub walk : ℕ → Store → Iter → List (Event × Option ℕ)
walk zero s it = []
walk (suc n) s it = let r = iter_next s it in (r.0, r.1.cur.node) ∷ walk n s r.1

abbrev entering : ℕ → IterState
entering a = record { ev_type = event_enter; node = some a }

abbrev leaving : ℕ → IterState
leaving a = record { ev_type = event_exit; node = some a }

abbrev done : IterState
done = record { ev_type = event_done; node = none }

-- Where the walk goes from a node with this next sibling and parent.
abbrev after : ℕ → Option ℕ → IterState
after p none = leaving p
after p (some b) = entering b

step_inner :
    (s : Store) (root a : ℕ) (fc : Option ℕ)
    → is_leaf (s a).type ≡ false
    → (s a).first_child ≡ fc
    → step s root (entering a) ≡ after a fc
unfolding roll_forward
step_inner s root a none l e = rw (l, e) refl
step_inner s root a (some c) l e = rw (l, e) refl

step_leaf :
    (s : Store) (root a p : ℕ) (nx : Option ℕ)
    → is_leaf (s a).type ≡ true
    → a ≢ root
    → (s a).parent ≡ some p
    → (s a).next ≡ nx
    → step s root (entering a) ≡ after p nx
unfolding roll_forward
step_leaf s root a p none l ne e n = ground arith
step_leaf s root a p (some c) l ne e n = ground arith

step_exit :
    (s : Store) (root a p : ℕ) (nx : Option ℕ)
    → a ≢ root
    → (s a).parent ≡ some p
    → (s a).next ≡ nx
    → step s root (leaving a) ≡ after p nx
unfolding roll_forward
step_exit s root a p none ne e n = ground arith
step_exit s root a p (some c) ne e n = ground arith

step_root : (s : Store) (root : ℕ) → step s root (leaving root) ≡ done
unfolding roll_forward
step_root s root = ground arith

step_root_leaf :
    (s : Store) (root : ℕ) → is_leaf (s root).type ≡ true → step s root (entering root) ≡ done
unfolding roll_forward
step_root_leaf s root l = ground arith

-- The states that the iterator goes through, and what it reports at each but the last.
data Runs (s : Store) (root : ℕ) : IterState → List (Event × Option ℕ) → IterState → Type 0 where
  stop : {a : IterState} → Runs s root a [] a
  more :
      {a b c : IterState} {es : List (Event × Option ℕ)}
      → step s root a ≡ b
      → Runs s root b es c
      → Runs s root a ((a.ev_type, a.node) ∷ es) c

Runs-append :
    {s : Store} {root : ℕ} {a b c : IterState} {es fs : List (Event × Option ℕ)}
    → Runs s root a es b
    → Runs s root b fs c
    → Runs s root a (es ++ fs) c
Runs-append stop r = r
Runs-append (more e q) r = more e (Runs-append q r)

mutual
  unfolding Represents events

  tree-Runs :
      (s : Store) (root : ℕ) (t : Tree) (p : ℕ) (nx : Option ℕ)
      → address t ≢ root
      → (s (address t)).parent ≡ some p
      → (s (address t)).next ≡ nx
      → Represents s root t
      → Runs s root (entering (address t)) (events s t) (after p nx)
  tree-Runs s root (node a f) p nx ne e n (fc, leaf, all) = elim (Bool-cases (is_leaf (s a).type)) [
    | inl l ↦ rw l (more (step_leaf s root a p nx l ne e n) stop)
    | inr l ↦ rw l (
        more (step_inner s root a (first_of f) l fc)
          (Runs-append (forest-Runs s root a f all) (more (step_exit s root a p nx ne e n) stop)))
  ]

  forest-Runs :
      (s : Store) (root p : ℕ) (f : Forest)
      → RepresentsAll s root p f
      → Runs s root (after p (first_of f)) (events_all s f) (leaving p)
  forest-Runs s root p nil h = stop
  forest-Runs s root p (cons t f) (ne, e, n, h, hs) =
      Runs-append (tree-Runs s root t p (first_of f) ne e n h) (forest-Runs s root p f hs)

root-Runs :
    (s : Store) (t : Tree)
    → Represents s (address t) t
    → Runs s (address t) (entering (address t)) (events s t) done
unfolding Represents events
root-Runs s (node a f) (fc, leaf, all) = elim (Bool-cases (is_leaf (s a).type)) [
  | inl l ↦ rw l (more (step_root_leaf s a l) stop)
  | inr l ↦ rw l (
      more (step_inner s a a (first_of f) l fc)
        (Runs-append (forest-Runs s a a f all) (more (step_root s a) stop)))
]

report :
    (st : IterState) {l : List (Event × Option ℕ)} (m : List (Event × Option ℕ))
    → l ≡ m
    → (st.ev_type, st.node) ∷ l ≡ (st.ev_type, st.node) ∷ m
report st m e = ap (λ (w : List (Event × Option ℕ)). (st.ev_type, st.node) ∷ w) e

Runs-walk :
    {s : Store} {root : ℕ} {a b : IterState} {es : List (Event × Option ℕ)} (k : ℕ) (it : Iter)
    → Runs s root a es b
    → it.root ≡ root
    → it.next ≡ a
    → (it' : Iter) × (walk (length es + k) s it ≡ es ++ walk k s it')
      × (it'.root ≡ root)
      × (it'.next ≡ b)
unfolding walk iter_next
Runs-walk {s} k it stop r n = let e : 0 + k ≡ k = omega arith in (it, rw e refl, r, n)
Runs-walk {s} {root} {a} {es} k it (more {es = rest} e q) r n =
    let it2 : Iter = (iter_next s it).1 in
    let at_next : step s it.root it.next ≡ _ = rw (r, n) e in
    let (it', same, r', n') = Runs-walk k it2 q r at_next in
    let m : suc (length rest) + k ≡ suc (length rest + k) = omega arith in
    (
      it',
      rw m (
          report it.next (rest ++ walk k s it') same
          ∙ ap (λ (st : IterState). (st.ev_type, st.node) ∷ (rest ++ walk k s it')) n),
      r',
      n',
    )

-- `n` times the end.
unfoldable pub ends : ℕ → List (Event × Option ℕ)
ends zero = []
ends (suc n) = (event_done, none) ∷ ends n

walk-ends : (n : ℕ) (s : Store) (it : Iter) → it.next ≡ done → walk n s it ≡ ends n
unfolding walk ends iter_next
walk-ends zero s it e = refl
walk-ends (suc n) s it e =
    report it.next (ends n) (walk-ends n s (iter_next s it).1 (ap (step s it.root) e))
    ∙ ap (λ (st : IterState). (st.ev_type, st.node) ∷ ends n) e

-- From the root of a tree that the store holds, the iterator enters every node before its children
-- and leaves it behind them, in the order of the tree, a leaf only entered, and then reports the
-- end for ever.
pub walk-events :
    (s : Store) (t : Tree) (k : ℕ)
    → Represents s (address t) t
    → walk (length (events s t) + k) s (iter_new (address t)) ≡ events s t ++ ends k
unfolding iter_new
walk-events s t k h =
    let (it, same, r, n) = Runs-walk k (iter_new (address t)) (root-Runs s t h) refl refl in
    same ∙ ap (λ (w : List (Event × Option ℕ)). events s t ++ w) (walk-ends k s it n)
