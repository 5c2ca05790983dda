-- ===== src/Queue/Chain.antt =====
-- The nodes of a queue as a chain, and what the operations of queue.c do to it.
use tp2_so_g.Base.{
  ℕ, ◌≡◌, refl, ap, Bool, true, false, not, ◌&&◌, Option, some, List, [], ◌∷◌, ◌++◌, arith, update,
  inl, inr, Bool-cases, ==→eq,
}
use tp2_so_g.Base.{◌==◌}
use tp2_so_g.Queue.{Node, set_tail}

-- A node's address and what it holds.
pub record Cell : Type 0 where
  pub at : ℕ
  pub element : ℕ

-- The pointer to the first of the cells, or `e` when there is none.
abbrev pub head_or : List Cell → Option ℕ → Option ℕ
head_or [] e = e
head_or (c ∷ _) e = some c.at

-- The pointer to the last of the cells, or `p` when there is none.
abbrev pub last_or : Option ℕ → List Cell → Option ℕ
last_or p [] = p
last_or p (c ∷ xs) = last_or (some c.at) xs

-- The address of the last of the cells after one at `a`.
abbrev pub last_at : ℕ → List Cell → ℕ
last_at a [] = a
last_at a (c ∷ xs) = last_at c.at xs

abbrev pub absent : ℕ → List Cell → Bool
absent a [] = true
absent a (c ∷ xs) = not (a == c.at) && absent a xs

abbrev pub distinct : List Cell → Bool
distinct [] = true
distinct (c ∷ xs) = absent c.at xs && distinct xs

-- The cells lie in memory, each with the pointer to the next, the last with the pointer `e`.
abbrev pub Chain : (ℕ → Option Node) → List Cell → Option ℕ → Type 0
Chain nodes [] e = Unit
Chain nodes (c ∷ xs) e =
    (nodes c.at ≡ some (record { data_ptr = c.element; tail = head_or xs e })) × Chain nodes xs e

pub Chain-update :
    (nodes : ℕ → Option Node) (a : ℕ) (v : Option Node) (xs : List Cell) (e : Option ℕ)
    → absent a xs ≡ true
    → Chain nodes xs e
    → Chain (update nodes a v) xs e
Chain-update nodes a v [] e h ch = ch
Chain-update nodes a v (c ∷ xs) e h (n, ch) =
    (ground (arith, h, n), Chain-update nodes a v xs e (ground (arith, h)) ch)

pub Chain-append :
    (nodes : ℕ → Option Node) (xs ys : List Cell) (e : Option ℕ)
    → Chain nodes xs (head_or ys e)
    → Chain nodes ys e
    → Chain nodes (xs ++ ys) e
Chain-append nodes [] ys e l r = r
Chain-append nodes (c ∷ []) ys e (n, l) r = (n, Chain-append nodes [] ys e l r)
Chain-append nodes (c ∷ d ∷ xs) ys e (n, l) r = (n, Chain-append nodes (d ∷ xs) ys e l r)

pub Chain-split :
    (nodes : ℕ → Option Node) (xs ys : List Cell) (e : Option ℕ)
    → Chain nodes (xs ++ ys) e
    → Chain nodes xs (head_or ys e) × Chain nodes ys e
Chain-split nodes [] ys e ch = (tt, ch)
Chain-split nodes (c ∷ []) ys e (n, ch) = ((n, tt), ch)
Chain-split nodes (c ∷ d ∷ xs) ys e (n, ch) =
    let (l, r) = Chain-split nodes (d ∷ xs) ys e ch in ((n, l), r)

pub absent-append : (a : ℕ) (xs ys : List Cell) → absent a (xs ++ ys) ≡ (absent a xs && absent a ys)
absent-append a [] ys = refl
absent-append a (c ∷ xs) ys = ground (arith, absent-append a xs ys)

-- Without a cell in the middle the others are still distinct, and its address is not among them.
pub distinct-middle :
    (xs : List Cell) (c : Cell) (ys : List Cell)
    → distinct (xs ++ c ∷ ys) ≡ true
    → (absent c.at (xs ++ ys) ≡ true) × (distinct (xs ++ ys) ≡ true)
distinct-middle [] c ys h = (ground (arith, h), ground (arith, h))
distinct-middle (x ∷ xs) c ys h =
    let (a, d) = distinct-middle xs c ys (ground (arith, h)) in
    let with_c = absent-append x.at xs (c ∷ ys) in
    let without = absent-append x.at xs ys in
    (ground (arith, h, a, with_c), ground (arith, h, d, with_c, without))

pub distinct-head : (c : Cell) (xs : List Cell) → distinct (c ∷ xs) ≡ true → absent c.at xs ≡ true
distinct-head c xs d = ground (arith, d)

pub distinct-rest : (c : Cell) (xs : List Cell) → distinct (c ∷ xs) ≡ true → distinct xs ≡ true
distinct-rest c xs d = ground (arith, d)

pub absent-last : (x : Cell) (xs : List Cell) → absent (last_at x.at xs) (x ∷ xs) ≡ false
absent-last x [] = ground arith
absent-last x (y ∷ ys) = ground (arith, absent-last y ys)

pub absent-apart :
    (a b : ℕ) (xs : List Cell) → absent a xs ≡ false → absent b xs ≡ true → (a == b) ≡ false
absent-apart a b xs f t = elim (Bool-cases (a == b)) [
  | inl e ↦ absurd (ground (arith, f, t, ap (λ i. absent i xs) (==→eq a b e)))
  | inr e ↦ e
]

pub last_or-at :
    (p : Option ℕ) (x : Cell) (xs : List Cell) → last_or p (x ∷ xs) ≡ some (last_at x.at xs)
last_or-at p x [] = refl
last_or-at p x (y ∷ ys) = last_or-at (some x.at) y ys

-- The last cell's tail may be written.
pub set_tail-Chain :
    (nodes : ℕ → Option Node) (x : Cell) (xs : List Cell) (e e' : Option ℕ)
    → distinct (x ∷ xs) ≡ true
    → Chain nodes (x ∷ xs) e
    → (v : Node) × (set_tail (last_at x.at xs) e' nodes
        ≡ some (update nodes (last_at x.at xs) (some v)))
      × Chain (update nodes (last_at x.at xs) (some v)) (x ∷ xs) e'
set_tail-Chain nodes x [] e e' d (n, ch) =
    (record { data_ptr = x.element; tail = e' }, ground (arith, n), (ground arith, tt))
set_tail-Chain nodes x (y ∷ ys) e e' d (n, ch) =
    let (v, s, c) = set_tail-Chain nodes y ys e e' (distinct-rest x (y ∷ ys) d) ch in
    let apart =
      absent-apart (last_at y.at ys) x.at (y ∷ ys) (absent-last y ys)
        (distinct-head x (y ∷ ys) d) in
    (v, s, (rw apart n, c))
