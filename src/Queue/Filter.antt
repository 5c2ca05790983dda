-- ===== src/Queue/Filter.antt =====
-- removeFromQueue and freeQueue on the row of cells.
use tp2_so_g.Base.{
  ℕ, zero, suc, ◌+◌, ◌≤◌, ◌≡◌, refl, sym, ap, ◌∙◌, subst, Bool, true, false, Option, none, some,
  List, [], ◌∷◌, ◌++◌, arith, update, length, inl, inr, Bool-cases, append_assoc,
}
use tp2_so_g.Base.{if◌then◌else◌}
use tp2_so_g.Queue.{
  Node, Queue, remove_node_from_queue, remove_loop, remove_from_queue, free_loop, free_queue,
  is_queue_empty,
}
use tp2_so_g.Queue.Chain.{
  Cell, head_or, last_or, absent, distinct, Chain, Chain-update, Chain-split, distinct-head,
  distinct-rest,
}
use tp2_so_g.Queue.Fifo.{IsQueue, last_or-snoc}
use tp2_so_g.Queue.Remove.{remove_node-IsQueue}

-- What removeFromQueue leaves, and how many it takes.
abbrev pub kept : (ℕ → Bool) → List Cell → List Cell
kept matches [] = []
kept matches (c ∷ xs) = let rest = kept matches xs in if matches c.element then rest else c ∷ rest

abbrev pub matching : (ℕ → Bool) → List Cell → ℕ
matching matches [] = 0
matching matches (c ∷ xs) =
    let rest = matching matches xs in if matches c.element then suc rest else rest

loop-match :
    (matches : ℕ → Bool) (fuel removed a d : ℕ) (previous tail : Option ℕ) (q q1 : Queue)
    → q.nodes a ≡ some (record { data_ptr = d; tail = tail })
    → matches d ≡ true
    → remove_node_from_queue a previous tail q ≡ some q1
    → remove_loop (suc fuel) matches previous (some a) removed q
      ≡ remove_loop fuel matches previous tail (suc removed) q1
unfolding remove_loop
loop-match matches fuel removed a d previous tail q q1 e m r = ground (arith, e, m, r)

loop-keep :
    (matches : ℕ → Bool) (fuel removed a d : ℕ) (previous tail : Option ℕ) (q : Queue)
    → q.nodes a ≡ some (record { data_ptr = d; tail = tail })
    → matches d ≡ false
    → remove_loop (suc fuel) matches previous (some a) removed q
      ≡ remove_loop fuel matches (some a) tail removed q
unfolding remove_loop
loop-keep matches fuel removed a d previous tail q e m = ground (arith, e, m)

-- The result `r` took `n` cells out and left the row `zs`.
abbrev pub Leaves : Option (ℕ × Queue) → ℕ → List Cell → Type 0
Leaves r n zs = (q' : Queue) × (r ≡ some (n, q')) × IsQueue zs q'

loop-Leaves :
    (matches : ℕ → Bool) (fuel removed : ℕ) (xs ys : List Cell) (q : Queue)
    → length ys ≤ fuel
    → IsQueue (xs ++ ys) q
    → Leaves
        (remove_loop fuel matches (last_or none xs) (head_or ys none) removed q)
        (removed + matching matches ys)
        (xs ++ kept matches ys)
unfolding remove_loop
loop-Leaves matches fuel removed xs [] q n i = (q, ground arith, i)
loop-Leaves matches zero removed xs (c ∷ ys) q n i = absurd (omega (arith, n))
loop-Leaves matches (suc fuel) removed xs (c ∷ ys) q n i =
    let node = (Chain-split q.nodes xs (c ∷ ys) none i.chain).1.0 in
    elim (Bool-cases (matches c.element)) [
      | inl m ↦
          let (q1, r, i1) = remove_node-IsQueue xs c ys q i in
          let (q2, t, i2) = loop-Leaves matches fuel (suc removed) xs ys q1 (omega (arith, n)) i1 in
          (
            q2,
            loop-match matches fuel removed c.at c.element (last_or none xs) (head_or ys none) q q1
                  node m r
                ∙ t
                ∙ ground (arith, m),
            rw m i2,
          )
      | inr m ↦
          let i1 = subst (λ zs. IsQueue zs q) (sym (append_assoc xs (c ∷ []) ys)) i in
          let (q2, t, i2) =
            loop-Leaves matches fuel removed (xs ++ c ∷ []) ys q (omega (arith, n)) i1 in
          (
            q2,
            loop-keep matches fuel removed c.at c.element (last_or none xs) (head_or ys none) q node
                  m
                ∙ ap (λ p. remove_loop fuel matches p (head_or ys none) removed q)
                    (sym (last_or-snoc none xs c))
                ∙ t
                ∙ ground (arith, m),
            rw m (subst (λ zs. IsQueue zs q2) (append_assoc xs (c ∷ []) (kept matches ys)) i2),
          )
    ]

-- Where no cell is left the pointers are NULL already.
reset-IsQueue :
    (xs : List Cell) (q : Queue)
    → IsQueue xs q
    → IsQueue xs (if is_queue_empty q then record q { first = none; last = none } else q)
reset-IsQueue [] q i =
    subst (λ t. IsQueue [] (if t then record q { first = none; last = none } else q)) {x = true}
      (ground (arith, i.count))
      (record { first = refl; last = refl; count = i.count; chain = i.chain; apart = i.apart })
reset-IsQueue (c ∷ xs) q i =
    subst (λ t. IsQueue (c ∷ xs) (if t then record q { first = none; last = none } else q))
      {x = false} (ground (arith, i.count)) i

-- removeFromQueue takes out the elements that `compare` finds equal, keeps the others in order, and
-- returns how many it took.
pub remove_from_queue-Leaves :
    (matches : ℕ → Bool) (xs : List Cell) (q : Queue)
    → IsQueue xs q
    → Leaves (remove_from_queue matches q) (matching matches xs) (kept matches xs)
unfolding remove_from_queue
remove_from_queue-Leaves matches xs q i =
    let (q1, t, i1) = loop-Leaves matches q.count 0 [] xs q (omega (arith, i.count)) i in
    (
      if is_queue_empty q1 then record q1 { first = none; last = none } else q1,
      ends q1 (ap (λ p. remove_loop q.count matches none p 0 q) i.first ∙ t),
      reset-IsQueue (kept matches xs) q1 i1,
    )
  where
    ends :
        (q1 : Queue)
        → remove_loop q.count matches none q.first 0 q ≡ some (0 + matching matches xs, q1)
        → remove_from_queue matches q
          ≡ some (
            matching matches xs,
            if is_queue_empty q1 then record q1 { first = none; last = none } else q1,
          )
    ends q1 t = ground (arith, t)

-- The nodes after those of `xs` are freed.
abbrev pub without_cells : (ℕ → Option Node) → List Cell → ℕ → Option Node
without_cells nodes [] = nodes
without_cells nodes (c ∷ xs) = without_cells (update nodes c.at none) xs

free_loop-Chain :
    (fuel : ℕ) (nodes : ℕ → Option Node) (xs : List Cell)
    → length xs ≤ fuel
    → distinct xs ≡ true
    → Chain nodes xs none
    → free_loop fuel (head_or xs none) nodes ≡ some (without_cells nodes xs)
unfolding free_loop
free_loop-Chain fuel nodes [] n d ch = ground arith
free_loop-Chain zero nodes (c ∷ xs) n d ch = absurd (omega (arith, n))
free_loop-Chain (suc fuel) nodes (c ∷ xs) n d (e, ch) =
    let rest =
      free_loop-Chain fuel (update nodes c.at none) xs (omega (arith, n)) (distinct-rest c xs d)
        (Chain-update nodes c.at none xs none (distinct-head c xs d) ch) in
    ground (arith, e, rest)

without_cells-lookup :
    (nodes : ℕ → Option Node) (xs : List Cell) (i : ℕ)
    → without_cells nodes xs i ≡ (if absent i xs then nodes i else none)
without_cells-lookup nodes [] i = refl
without_cells-lookup nodes (c ∷ xs) i =
    ground (arith, without_cells-lookup (update nodes c.at none) xs i)

-- freeQueue frees every node of the queue and no other.
pub free_queue-frees :
    (xs : List Cell) (q : Queue)
    → IsQueue xs q
    → (nodes : ℕ → Option Node) × (free_queue q ≡ some nodes)
      × ((i : ℕ) → nodes i ≡ (if absent i xs then q.nodes i else none))
unfolding free_queue
free_queue-frees xs q i = (
  without_cells q.nodes xs,
  ap (λ p. free_loop q.count p q.nodes) i.first
      ∙ free_loop-Chain q.count q.nodes xs (omega (arith, i.count)) i.apart i.chain,
  without_cells-lookup q.nodes xs,
)
