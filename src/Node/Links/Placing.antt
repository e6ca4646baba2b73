-- ===== src/Node/Links/Placing.antt =====
-- What linking a loose node as a last child keeps, node by node.
use swift_cmark.Base.{Option, arith, if◌then◌else◌, none, some, ℕ, ◌+◌, ◌==◌, ◌≡◌, ◌≢◌}
use swift_cmark.Node.{Node}
use swift_cmark.Node.Links.LastChild.{Beside, Placed}
use swift_cmark.Node.Links.WellLinked.{Agrees, BothEnds, Ranked}

-- `c`, at `k`, has no neighbours and no parent.
abbrev pub IsLoose : Node → Type 0
IsLoose c = (c.next ≡ none) × (c.prev ≡ none) × (c.parent ≡ none)

pub Beside-Agrees :
    (c d x y x' y' : Node) (n k a b : ℕ)
    → a ≢ k
    → b ≢ k
    → (a ≡ n → x.last_child ≡ d.last_child)
    → (a ≡ n → x.first_child ≡ d.first_child)
    → BothEnds d
    → IsLoose c
    → Agrees x y a b
    → Agrees d x n a
    → Agrees d y n b
    → Beside d n k x a x'
    → Beside d n k y b y'
    → Agrees x' y' a b
Beside-Agrees c d x y x' y' n k a b p q e f g l h i j u v =
    (ground arith, ground arith, ground arith, ground arith, ground arith, ground arith)

pub Beside-Placed-Agrees :
    (c d x x' c' : Node) (n k a : ℕ)
    → a ≢ k
    → n ≢ k
    → (a ≡ n → x.last_child ≡ d.last_child)
    → IsLoose c
    → Agrees x c a k
    → Agrees c x k a
    → Agrees d x n a
    → Beside d n k x a x'
    → Placed d n c c'
    → Agrees x' c' a k × Agrees c' x' k a
Beside-Placed-Agrees c d x x' c' n k a p q e l h i j u v = (
  (ground arith, ground arith, ground arith, ground arith, ground arith, ground arith),
  (ground arith, ground arith, ground arith, ground arith, ground arith, ground arith),
)

pub Placed-alone :
    (c d c' : Node) (n k : ℕ)
    → n ≢ k
    → IsLoose c
    → d.last_child ≢ some k
    → Agrees c c k k
    → Placed d n c c'
    → Agrees c' c' k k
Placed-alone c d c' n k q l m h v = ground arith

pub last_not_loose : (d c : Node) (n k : ℕ) → IsLoose c → Agrees d c n k → d.last_child ≢ some k
last_not_loose d c n k l g = ground arith

-- The last child goes behind the one that was last.
abbrev pub new_rank : Option ℕ → ℕ → (ℕ → ℕ) → ℕ → ℕ
new_rank old k rank b = if b == k then (elim old [ none ↦ 0 | some l ↦ rank l + 1 ]) else rank b

pub Beside-Ranked :
    (d x x' : Node) (n k a b : ℕ) (rank : ℕ → ℕ)
    → a ≢ k
    → Ranked x a b rank
    → x.next ≢ some k
    → Beside d n k x a x'
    → Ranked x' a b (new_rank d.last_child k rank)
Beside-Ranked d x x' n k a b rank p r m u = ground arith

pub Beside-BothEnds :
    (d x x' : Node) (n k a : ℕ)
    → (a ≡ n → x.last_child ≡ d.last_child)
    → BothEnds x
    → Beside d n k x a x'
    → BothEnds x'
Beside-BothEnds d x x' n k a e g u = ground arith

pub Placed-BothEnds : (c d c' : Node) (n : ℕ) → BothEnds c → Placed d n c c' → BothEnds c'
Placed-BothEnds c d c' n g v = ground arith

pub Placed-Ranked :
    (c d c' : Node) (n k b : ℕ) (rank : ℕ → ℕ) → Placed d n c c' → Ranked c' k b rank
Placed-Ranked c d c' n k b rank u = ground arith

pub not_next : (c x : Node) (a k : ℕ) → IsLoose c → Agrees x c a k → x.next ≢ some k
not_next c x a k l g = ground arith
