-- ===== src/Buddy/Slots.antt =====
-- createNode and splitNode of memoryManagerBuddy.c on a pool that holds a tree.
use tp2_so_g.Base.{
  ℕ, suc, ◌+◌, ◌≡◌, ◌≢◌, ◌≤◌, ◌<◌, ◌⊎◌, refl, ◌∙◌, ap, subst, Bool, true, false, Option, none, some,
  List, [], ◌∷◌, arith, inl, inr, count, update, update_self, update_ne,
}
use tp2_so_g.Buddy.{Node, Buddy, max_nodes, create_node}
use tp2_so_g.Buddy.Trees.{Tree, one_at, uses, Chain, IsPool, Chain-frame}

-- What no call changes, and that nodes are never given back to the count.
pub record Steady (b b' : Buddy) : Type 0 where
  pub root_kept : b'.root_index ≡ b.root_index
  pub start_kept : b'.min_address ≡ b.min_address
  pub top_kept : b'.max_order ≡ b.max_order
  pub size_kept : b'.total_size ≡ b.total_size
  pub grows : b.node_count ≤ b'.node_count

pub Steady-refl : (b : Buddy) → Steady b b
Steady-refl b = record {
  root_kept = refl;
  start_kept = refl;
  top_kept = refl;
  size_kept = refl;
  grows = omega arith;
}

pub Steady-trans : {a b c : Buddy} → Steady a b → Steady b c → Steady a c
Steady-trans p q = record {
  root_kept = q.root_kept ∙ p.root_kept;
  start_kept = q.start_kept ∙ p.start_kept;
  top_kept = q.top_kept ∙ p.top_kept;
  size_kept = q.size_kept ∙ p.size_kept;
  grows = omega (arith, p.grows, q.grows);
}

-- At most one slot is there to be used again.
abbrev pub is_short : Buddy → Bool
is_short b = elim b.first_free_node [
  | none ↦ true
  | some j ↦ elim (b.nodes j).left_child [ none ↦ true | some k ↦ false ]
]

-- There are not two slots for the halves of a block.
abbrev pub Spent : Buddy → Type 0
Spent b = (max_nodes ≤ b.node_count) × (is_short b ≡ true)

abbrev pub fresh_node : ℕ → ℕ → Option ℕ → Node
fresh_node order off parent = record {
  is_free = true;
  order = order;
  offset = off;
  left_child = none;
  right_child = none;
  parent = parent;
}

-- A slot that was not in use is now the fresh node.
pub record Created (others : ℕ → ℕ) (t : Tree) (n : Node) (b b' : Buddy) (j : ℕ) : Type 0 where
  pub slots : List ℕ
  pub pool : IsPool (λ m. others m + one_at j m) t slots b'
  pub node_is : b'.nodes j ≡ n
  pub rest : (m : ℕ) → j ≢ m → b'.nodes m ≡ b.nodes m
  pub unused : others j + uses t j ≡ 0
  pub steady : Steady b b'

not_twice : (x j m : ℕ) (slots : List ℕ) → x + count m (j ∷ slots) ≤ 1 → 1 ≤ count m slots → j ≢ m
not_twice x j m slots l u s = ground arith

-- From a pool with a slot to reuse, and from one without.
create_reused :
    (others : ℕ → ℕ) (t : Tree) (j : ℕ) (slots : List ℕ) (o off : ℕ) (p : Option ℕ) (b : Buddy)
    → IsPool others t (j ∷ slots) b
    → b.first_free_node ≡ some j
    → (b' : Buddy) × (create_node o off p b ≡ (some j, b'))
      × Created others t (fresh_node o off p) b b' j
unfolding create_node
create_reused others t j slots o off p b pool e =
    let chain : Chain b.nodes (some j) (j ∷ slots) =
      subst (λ f. Chain b.nodes f (j ∷ slots)) e pool.chain in
    let b' : Buddy = record b {
      nodes = update b.nodes j (fresh_node o off p);
      first_free_node = (b.nodes j).left_child;
    } in
    (
      b',
      ground (arith, e),
      record {
        slots = slots;
        pool = record {
          chain =
              Chain-frame b.nodes b'.nodes (b.nodes j).left_child slots
                (λ m u.
                  update_ne b.nodes j m (fresh_node o off p)
                    (not_twice (others m + uses t m) j m slots (pool.single m) u))
                chain.1;
          single = λ m. ground (arith, pool.single m);
          inside = λ m l. ground (arith, pool.inside m);
        };
        node_is = update_self b.nodes j (fresh_node o off p);
        rest = λ m ne. update_ne b.nodes j m (fresh_node o off p) ne;
        unused = ground (arith, pool.single j);
        steady = record {
          root_kept = refl;
          start_kept = refl;
          top_kept = refl;
          size_kept = refl;
          grows = omega arith;
        };
      },
    )

pub create_next :
    (others : ℕ → ℕ) (t : Tree) (o off : ℕ) (p : Option ℕ) (b : Buddy)
    → IsPool others t [] b
    → b.first_free_node ≡ none
    → b.node_count < max_nodes
    → (b' : Buddy) × (create_node o off p b ≡ (some b.node_count, b'))
      × Created others t (fresh_node o off p) b b' b.node_count
unfolding create_node
create_next others t o off p b pool e l =
    let j = b.node_count in
    let b' : Buddy = record b {
      nodes = update b.nodes j (fresh_node o off p);
      node_count = suc j;
    } in
    (
      b',
      ground (arith, e, l),
      record {
        slots = [];
        pool = record {
          chain = pool.chain;
          single = λ m. ground (arith, pool.single m, pool.inside j (omega arith));
          inside = λ m l. ground (arith, pool.inside m);
        };
        node_is = update_self b.nodes j (fresh_node o off p);
        rest = λ m ne. update_ne b.nodes j m (fresh_node o off p) ne;
        unused = omega (arith, pool.inside j (omega arith));
        steady = record {
          root_kept = refl;
          start_kept = refl;
          top_kept = refl;
          size_kept = refl;
          grows = omega arith;
        };
      },
    )

create_none :
    (o off : ℕ) (p : Option ℕ) (b : Buddy)
    → b.first_free_node ≡ none
    → max_nodes ≤ b.node_count
    → create_node o off p b ≡ (none, b)
unfolding create_node
create_none o off p b e l = ground (arith, e, l)

Chain-cases :
    (nodes : ℕ → Node) (first : Option ℕ) (slots : List ℕ)
    → Chain nodes first slots
    → ((first ≡ none) × (slots ≡ []))
      ⊎ ((j : ℕ) × (rest : List ℕ) × (first ≡ some j) × (slots ≡ j ∷ rest))
Chain-cases nodes none [] c = inl (refl, refl)
Chain-cases nodes none (i ∷ slots) c = absurd c
Chain-cases nodes (some i) [] c = absurd c
Chain-cases nodes (some i) (j ∷ slots) c = inr (j, slots, ap some c.0, refl)

room_left : (n m : ℕ) → (m ≤ n) ⊎ (n < m)
room_left n m = ground arith

-- createNode gives an unused slot, or the pool is full and nothing changes.
pub create_node-Created :
    (others : ℕ → ℕ) (t : Tree) (slots : List ℕ) (o off : ℕ) (p : Option ℕ) (b : Buddy)
    → IsPool others t slots b
    → ((create_node o off p b ≡ (none, b))
        × (b.first_free_node ≡ none)
        × (max_nodes ≤ b.node_count))
      ⊎ ((j : ℕ) × (b' : Buddy) × (create_node o off p b ≡ (some j, b'))
          × Created others t (fresh_node o off p) b b' j)
create_node-Created others t slots o off p b pool =
    elim (Chain-cases b.nodes b.first_free_node slots pool.chain) [
      | inl (e, s) ↦ elim (room_left b.node_count max_nodes) [
        | inl l ↦ inl (create_none o off p b e l, e, l)
        | inr l ↦
            let pool' = subst (λ x. IsPool others t x b) s pool in
            let (b', r, c) = create_next others t o off p b pool' e l in
            inr (b.node_count, b', r, c)
      ]
      | inr (j, rest, e, s) ↦
          let pool' = subst (λ x. IsPool others t x b) s pool in
          let (b', r, c) = create_reused others t j rest o off p b pool' e in inr (j, b', r, c)
    ]
