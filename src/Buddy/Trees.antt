-- ===== src/Buddy/Trees.antt =====
-- What a pool of nodes of memoryManagerBuddy.c stands for: a tree of blocks, and the slots to reuse.
use tp2_so_g.Base.{
  ℕ, zero, suc, ◌+◌, ◌^◌, ◌≡◌, ◌≤◌, ◌∙◌, sym, subst, Bool, true, false, Option, none, some, List,
  [], ◌∷◌, arith, count, ◌==◌, ◌&&◌, leb, if◌then◌else◌,
}
use tp2_so_g.Buddy.{Node, Buddy}

pub data Tree : Type 0 where
  leaf : ℕ → Bool → Tree
  fork : ℕ → Tree → Tree → Tree

abbrev pub slot : Tree → ℕ
slot (leaf i f) = i
slot (fork i l r) = i

abbrev pub one_at : ℕ → ℕ → ℕ
one_at i j = if i == j then 1 else 0

-- How often a slot is used in the tree.
abbrev pub uses : Tree → ℕ → ℕ
uses (leaf i f) j = one_at i j
uses (fork i l r) j = one_at i j + uses l j + uses r j

-- 1 for the block of order `k` at `a`.
abbrev pub hit : ℕ → ℕ → ℕ → ℕ → ℕ
hit off order a k = if (off == a) && (order == k) then 1 else 0

-- How often the block of order `k` at `a` is allocated in a tree of the given order and offset.
abbrev pub used : ℕ → ℕ → Tree → ℕ → ℕ → ℕ
used o off (leaf i true) a k = 0
used o off (leaf i false) a k = hit off o a k
used zero off (fork i l r) a k = 0
used (suc h) off (fork i l r) a k = used h off l a k + used h (off + 2 ^ h) r a k

-- How many free leaves are of the order wanted or above.
abbrev pub room : ℕ → ℕ → Tree → ℕ
room wanted o (leaf i false) = 0
room wanted o (leaf i true) = if leb wanted o then 1 else 0
room wanted zero (fork i l r) = 0
room wanted (suc h) (fork i l r) = room wanted h l + room wanted h r

-- How many free leaves are of the very order.
abbrev pub exact : ℕ → ℕ → Tree → ℕ
exact wanted o (leaf i false) = 0
exact wanted o (leaf i true) = if wanted == o then 1 else 0
exact wanted zero (fork i l r) = 0
exact wanted (suc h) (fork i l r) = exact wanted h l + exact wanted h r

pub exact-room : (wanted o : ℕ) (t : Tree) → exact wanted o t ≤ room wanted o t
exact-room wanted o (leaf i false) = omega arith
exact-room wanted o (leaf i true) = ground arith
exact-room wanted zero (fork i l r) = omega arith
exact-room wanted (suc h) (fork i l r) = omega (arith, exact-room wanted h l, exact-room wanted h r)

-- A node with two children. Its flag is not read anywhere that matters.
pub record IsFork (n : Node) (parent : Option ℕ) (order off left right : ℕ) : Type 0 where
  pub order_is : n.order ≡ order
  pub offset_is : n.offset ≡ off
  pub left_is : n.left_child ≡ some left
  pub right_is : n.right_child ≡ some right
  pub parent_is : n.parent ≡ parent

-- The nodes hold the tree.
abbrev pub Holds : (ℕ → Node) → Option ℕ → ℕ → ℕ → Tree → Type 0
Holds nodes p o off (leaf i f) = nodes i ≡ record {
  is_free = f;
  order = o;
  offset = off;
  left_child = none;
  right_child = none;
  parent = p;
}
Holds nodes p zero off (fork i l r) = ⊥
Holds nodes p (suc h) off (fork i l r) =
    IsFork (nodes i) p (suc h) off (slot l) (slot r)
    × Holds nodes (some i) h off l
    × Holds nodes (some i) h (off + 2 ^ h) r

-- The slots to reuse, from the first one on.
abbrev pub Chain : (ℕ → Node) → Option ℕ → List ℕ → Type 0
Chain nodes none [] = Unit {0}
Chain nodes none (i ∷ slots) = ⊥
Chain nodes (some i) [] = ⊥
Chain nodes (some i) (j ∷ slots) = (i ≡ j) × Chain nodes (nodes j).left_child slots

-- No slot has two uses: in the tree, around it (`others`) and to be reused.
pub record IsPool (others : ℕ → ℕ) (t : Tree) (slots : List ℕ) (b : Buddy) : Type 0 where
  pub chain : Chain b.nodes b.first_free_node slots
  pub single : (j : ℕ) → others j + uses t j + count j slots ≤ 1
  pub inside : (j : ℕ) → b.node_count ≤ j → others j + uses t j + count j slots ≡ 0

pub Holds-frame :
    (nodes nodes' : ℕ → Node) (p : Option ℕ) (o off : ℕ) (t : Tree)
    → ((j : ℕ) → 1 ≤ uses t j → nodes' j ≡ nodes j)
    → Holds nodes p o off t
    → Holds nodes' p o off t
Holds-frame nodes nodes' p o off (leaf i f) same h = same i (ground arith) ∙ h
Holds-frame nodes nodes' p zero off (fork i l r) same h = h
Holds-frame nodes nodes' p (suc o) off (fork i l r) same (n, x, y) = (
  subst (λ n. IsFork n p (suc o) off (slot l) (slot r)) (sym (same i (ground arith))) n,
  Holds-frame nodes nodes' (some i) o off l (λ j u. same j (omega (arith, u))) x,
  Holds-frame nodes nodes' (some i) o (off + 2 ^ o) r (λ j u. same j (omega (arith, u))) y,
)

pub Chain-frame :
    (nodes nodes' : ℕ → Node) (first : Option ℕ) (slots : List ℕ)
    → ((j : ℕ) → 1 ≤ count j slots → nodes' j ≡ nodes j)
    → Chain nodes first slots
    → Chain nodes' first slots
Chain-frame nodes nodes' none [] same c = c
Chain-frame nodes nodes' none (i ∷ slots) same c = c
Chain-frame nodes nodes' (some i) [] same c = c
Chain-frame nodes nodes' (some i) (j ∷ slots) same (e, c) = (
  e,
  subst (λ n. Chain nodes' n.left_child slots) (sym (same j (ground arith)))
      (Chain-frame nodes nodes' (nodes j).left_child slots (λ m u. same m (ground (arith, u))) c),
)

pub uses-slot : (t : Tree) → 1 ≤ uses t (slot t)
uses-slot (leaf i f) = ground arith
uses-slot (fork i l r) = ground arith
