-- ===== src/Queue/Remove.antt =====
-- removeNodeFromQueue on the row of cells.
use tp2_so_g.Base.{
  ℕ, suc, ◌-◌, ◌≡◌, refl, sym, ap, subst, true, false, Option, none, some, List, [], ◌∷◌, ◌++◌,
  arith, update, length, inl, inr, Bool-cases, ==→eq, append-nil,
}
use tp2_so_g.Base.{◌==◌, if◌then◌else◌}
use tp2_so_g.Queue.{Node, Queue, set_tail, bypass, remove_node_from_queue, same_node}
use tp2_so_g.Queue.Chain.{
  Cell, head_or, last_or, last_at, absent, distinct, Chain-update, Chain-append, Chain-split,
  absent-append, distinct-middle, distinct-head, distinct-rest, absent-last, absent-apart,
  last_or-at, set_tail-Chain,
}
use tp2_so_g.Queue.Fifo.{IsQueue}

last_or-append :
    (p : Option ℕ) (xs : List Cell) (y : Cell) (ys : List Cell)
    → last_or p (xs ++ y ∷ ys) ≡ some (last_at y.at ys)
last_or-append p [] y ys = last_or-at p y ys
last_or-append p (x ∷ xs) y ys = last_or-append (some x.at) xs y ys

length-middle :
    (xs : List Cell) (c : Cell) (ys : List Cell) → length (xs ++ c ∷ ys) ≡ suc (length (xs ++ ys))
length-middle [] c ys = refl
length-middle (x ∷ xs) c ys = ap suc (length-middle xs c ys)

-- The new last pointer when the cell `c` goes.
last-without :
    (xs : List Cell) (c : Cell) (ys : List Cell) (last : Option ℕ)
    → distinct (xs ++ c ∷ ys) ≡ true
    → last ≡ last_or none (xs ++ c ∷ ys)
    → (if same_node c.at last then last_or none xs else last) ≡ last_or none (xs ++ ys)
last-without xs c [] last d e = rw (append-nil xs) (ground (arith, e, last_or-append none xs c []))
last-without xs c (y ∷ ys) last d e =
    let away = (distinct-middle xs c (y ∷ ys) d).0 in
    let here = absent-append c.at xs (y ∷ ys) in
    let apart =
      absent-apart (last_at y.at ys) c.at (y ∷ ys) (absent-last y ys)
        (absent-right xs (y ∷ ys) c.at away) in
    ground (arith, e, apart, last_or-append none xs c (y ∷ ys), last_or-append none xs y ys)
  where
    absent-right : (xs ys : List Cell) (a : ℕ) → absent a (xs ++ ys) ≡ true → absent a ys ≡ true
    absent-right xs ys a h = ground (arith, h, absent-append a xs ys)

distinct-left : (xs ys : List Cell) → distinct (xs ++ ys) ≡ true → distinct xs ≡ true
distinct-left [] ys d = refl
distinct-left (x ∷ xs) ys d =
    let rest = distinct-left xs ys (distinct-rest x (xs ++ ys) d) in
    let away = distinct-head x (xs ++ ys) d in ground (arith, rest, away, absent-append x.at xs ys)

-- What stands in the first part is absent from the second.
distinct-across :
    (xs ys : List Cell) (a : ℕ)
    → distinct (xs ++ ys) ≡ true
    → absent a xs ≡ false
    → absent a ys ≡ true
distinct-across [] ys a d h = absurd (ground (arith, h))
distinct-across (x ∷ xs) ys a d h =
    let away = distinct-head x (xs ++ ys) d in
    let both = absent-append x.at xs ys in
    elim (Bool-cases (a == x.at)) [
      | inl e ↦ subst (λ i. absent i ys ≡ true) (sym (==→eq a x.at e)) (ground (arith, away, both))
      | inr e ↦ distinct-across xs ys a (distinct-rest x (xs ++ ys) d) (ground (arith, h, e))
    ]

remove_node-runs :
    (a l : ℕ) (next : Option ℕ) (q : Queue) (nodes : ℕ → Option Node)
    → set_tail l next q.nodes ≡ some nodes
    → remove_node_from_queue a (some l) next q
      ≡ some (record {
        first = q.first;
        last = if same_node a q.last then some l else q.last;
        count = q.count - 1;
        nodes = update nodes a none;
      })
unfolding remove_node_from_queue bypass
remove_node-runs a l next q nodes s = ground (arith, s)

-- The cell `c` is unlinked and freed.
pub remove_node-IsQueue :
    (xs : List Cell) (c : Cell) (ys : List Cell) (q : Queue)
    → IsQueue (xs ++ c ∷ ys) q
    → (q' : Queue) × (remove_node_from_queue c.at (last_or none xs) (head_or ys none) q ≡ some q')
      × IsQueue (xs ++ ys) q'
unfolding remove_node_from_queue bypass
remove_node-IsQueue [] c ys q i = (
  record {
    first = head_or ys none;
    last = if same_node c.at q.last then none else q.last;
    count = q.count - 1;
    nodes = update q.nodes c.at none;
  },
  refl,
  record {
    first = refl;
    last = last-without [] c ys q.last i.apart i.last;
    count = omega (arith, i.count);
    chain = Chain-update q.nodes c.at none ys none (distinct-head c ys i.apart) i.chain.1;
    apart = distinct-rest c ys i.apart;
  },
)
remove_node-IsQueue (x ∷ xs) c ys q i =
    let (l, r) = Chain-split q.nodes (x ∷ xs) (c ∷ ys) none i.chain in
    let left = distinct-left (x ∷ xs) (c ∷ ys) i.apart in
    let (v, s, ch) = set_tail-Chain q.nodes x xs (some c.at) (head_or ys none) left l in
    let (away, apart) = distinct-middle (x ∷ xs) c ys i.apart in
    let across = distinct-across (x ∷ xs) ys (last_at x.at xs) apart (absent-last x xs) in
    let nodes = update q.nodes (last_at x.at xs) (some v) in
    let rest = Chain-update q.nodes (last_at x.at xs) (some v) ys none across r.1 in
    (
      record {
        first = q.first;
        last = if same_node c.at q.last then some (last_at x.at xs) else q.last;
        count = q.count - 1;
        nodes = update nodes c.at none;
      },
      subst
          (λ p.
            remove_node_from_queue c.at p (head_or ys none) q
            ≡ some (record {
              first = q.first;
              last = if same_node c.at q.last then some (last_at x.at xs) else q.last;
              count = q.count - 1;
              nodes = update nodes c.at none;
            }))
          (sym (last_or-at none x xs))
          (remove_node-runs c.at (last_at x.at xs) (head_or ys none) q nodes s),
      record {
        first = i.first;
        last =
            subst
              (λ p. (if same_node c.at q.last then p else q.last) ≡ last_or none ((x ∷ xs) ++ ys))
              (last_or-at none x xs) (last-without (x ∷ xs) c ys q.last i.apart i.last);
        count = omega (arith, i.count, length-middle xs c ys);
        chain =
            Chain-update nodes c.at none ((x ∷ xs) ++ ys) none away
              (Chain-append nodes (x ∷ xs) ys none ch rest);
        apart = apart;
      },
    )
