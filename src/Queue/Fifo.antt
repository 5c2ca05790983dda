-- ===== src/Queue/Fifo.antt =====
-- queue.c against its contract: a FIFO of elements.
use tp2_so_g.Base.{
  ℕ, suc, ◌-◌, ◌≡◌, refl, sym, ap, ◌∙◌, true, Option, none, some, List, [], ◌∷◌, ◌++◌, arith,
  update, length, length-append,
}
use tp2_so_g.Base.{◌==◌, if◌then◌else◌}
use tp2_so_g.Queue.{Node, Queue, set_tail, enqueue, poll_queue}
use tp2_so_g.Queue.Chain.{
  Cell, head_or, last_or, last_at, absent, distinct, Chain, Chain-update, Chain-append,
  absent-append, distinct-head, distinct-rest, absent-last, absent-apart, last_or-at,
  set_tail-Chain,
}

-- The queue is the row of cells `xs`: the first and the last pointer, the count and the links agree.
pub record IsQueue (xs : List Cell) (q : Queue) : Type 0 where
  pub first : q.first ≡ head_or xs none
  pub last : q.last ≡ last_or none xs
  pub count : q.count ≡ length xs
  pub chain : Chain q.nodes xs none
  pub apart : distinct xs ≡ true

-- The elements, oldest first.
abbrev pub elements : List Cell → List ℕ
elements [] = []
elements (c ∷ xs) = c.element ∷ elements xs

distinct-snoc :
    (xs : List Cell) (c : Cell)
    → distinct xs ≡ true
    → absent c.at xs ≡ true
    → distinct (xs ++ c ∷ []) ≡ true
distinct-snoc [] c d a = refl
distinct-snoc (x ∷ xs) c d a = ground (
  arith,
  d,
  a,
  absent-append x.at xs (c ∷ []),
  distinct-snoc xs c (ground (arith, d)) (ground (arith, a)),
)

pub last_or-snoc : (p : Option ℕ) (xs : List Cell) (c : Cell) → last_or p (xs ++ c ∷ []) ≡ some c.at
last_or-snoc p [] c = refl
last_or-snoc p (x ∷ xs) c = last_or-snoc (some x.at) xs c

enqueue-runs :
    (a element : ℕ) (q : Queue) (l : ℕ) (nodes2 : ℕ → Option Node) (n : ℕ)
    → q.count ≡ suc n
    → q.last ≡ some l
    → set_tail l (some a) (update q.nodes a (some (record { data_ptr = element; tail = none })))
      ≡ some nodes2
    → enqueue (some a) element q
      ≡ some (true, record { first = q.first; last = some a; count = suc q.count; nodes = nodes2 })
unfolding enqueue
enqueue-runs a element q l nodes2 n c e s = ground (arith, c, e, s)

-- enqueue puts the element behind the others, when mem_alloc returns a node that is not in use.
pub enqueue-IsQueue :
    (a element : ℕ) (xs : List Cell) (q : Queue)
    → absent a xs ≡ true
    → IsQueue xs q
    → (q' : Queue) × (enqueue (some a) element q ≡ some (true, q'))
      × IsQueue (xs ++ record { at = a; element = element } ∷ []) q'
unfolding enqueue
enqueue-IsQueue a element [] q h i = (
  record {
    first = some a;
    last = some a;
    count = suc q.count;
    nodes = update q.nodes a (some (record { data_ptr = element; tail = none }));
  },
  ground (arith, i.count),
  record {
    first = refl;
    last = refl;
    count = ap suc i.count;
    chain = (ground arith, tt);
    apart = refl;
  },
)
enqueue-IsQueue a element (x ∷ xs) q h i =
    let new : Node = record { data_ptr = element; tail = none } in
    let nodes1 = update q.nodes a (some new) in
    let l = last_at x.at xs in
    let chain1 = Chain-update q.nodes a (some new) (x ∷ xs) none h i.chain in
    let (v, s, c) = set_tail-Chain nodes1 x xs none (some a) i.apart chain1 in
    let nodes2 = update nodes1 l (some v) in
    let apart = absent-apart l a (x ∷ xs) (absent-last x xs) h in
    let last : q.last ≡ some l = i.last ∙ last_or-at none x xs in
    (
      record { first = q.first; last = some a; count = suc q.count; nodes = nodes2 },
      enqueue-runs a element q l nodes2 (length xs) i.count last s,
      record {
        first = i.first;
        last = sym (last_or-snoc none (x ∷ xs) (record { at = a; element = element }));
        count =
            ground
              (arith, i.count, length-append (x ∷ xs) (record { at = a; element = element } ∷ []));
        chain =
            Chain-append nodes2 (x ∷ xs) (record { at = a; element = element } ∷ []) none c
              (rw apart (ground arith), tt);
        apart = distinct-snoc (x ∷ xs) (record { at = a; element = element }) i.apart h;
      },
    )

-- On a queue that is not empty pollQueue returns the oldest element and leaves the others.
pub poll_queue-IsQueue :
    (c : Cell) (xs : List Cell) (q : Queue)
    → IsQueue (c ∷ xs) q
    → (q' : Queue) × (poll_queue q ≡ some (some c.element, q')) × IsQueue xs q'
unfolding poll_queue
poll_queue-IsQueue c xs q i = (
  record {
    first = head_or xs none;
    last = if q.count - 1 == 0 then none else q.last;
    count = q.count - 1;
    nodes = update q.nodes c.at none;
  },
  ground (arith, i.first, i.count, i.chain.0),
  record {
    first = refl;
    last = last_left xs q.last q.count i.count i.last;
    count = omega (arith, i.count);
    chain = Chain-update q.nodes c.at none xs none (distinct-head c xs i.apart) i.chain.1;
    apart = distinct-rest c xs i.apart;
  },
)
  where
    last_left :
        (xs : List Cell) (last : Option ℕ) (n : ℕ)
        → n ≡ suc (length xs)
        → last ≡ last_or (some c.at) xs
        → (if n - 1 == 0 then none else last) ≡ last_or none xs
    last_left [] last n e f = ground (arith, e)
    last_left (d ∷ ds) last n e f = ground (arith, e, f)
