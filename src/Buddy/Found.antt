-- ===== src/Buddy/Found.antt =====
-- findAndAllocate of memoryManagerBuddy.c on a pool that holds a tree.
use tp2_so_g.Base.{
  ℕ, suc, ◌+◌, ◌^◌, ◌≡◌, ◌≢◌, ◌≤◌, ◌<◌, ◌⊎◌, refl, ◌∙◌, sym, ap, subst, Bool, true, false, Option,
  none, some, List, arith, count, ◌&&◌, update, update_self, update_ne,
}
use tp2_so_g.Buddy.{Node, Buddy, update_node_status, put_node, node_is_free}
use tp2_so_g.Buddy.Search.{try_allocate_exact_size}
use tp2_so_g.Buddy.Trees.{
  Tree, leaf, fork, slot, one_at, uses, used, hit, room, exact, IsFork, Holds, IsPool, Chain-frame,
  Holds-frame,
}
use tp2_so_g.Buddy.Slots.{Spent, Steady, fresh_node}
use tp2_so_g.Buddy.Split.{Became}

-- What a search for a block of the order wanted gives: the tree after it, and in it one block more, or
-- the tree had no free block of that size, or none of the very order and the pool of nodes is used up.
pub data Outcome (wanted o off : ℕ) (t t' : Tree) (b b' : Buddy) (found : Option ℕ) : Type 0 where
  taken :
      (r : ℕ)
      → found ≡ some r
      → 1 ≤ uses t' r
      → (b'.nodes r).left_child ≡ none
      → ((a k : ℕ) → used o off t' a k ≡ used o off t a k + hit (b'.nodes r).offset wanted a k)
      → Outcome wanted o off t t' b b' found
  refused :
      found ≡ none
      → ((a k : ℕ) → used o off t' a k ≡ used o off t a k)
      → Spent b' ⊎ ((room wanted o t ≡ 0) × (b' ≡ b))
      → exact wanted o t ≡ 0
      → Outcome wanted o off t t' b b' found

pub record Searched (others : ℕ → ℕ) (p : Option ℕ) (o off wanted : ℕ) (t : Tree) (b : Buddy)
    (out : Option ℕ × Buddy) : Type 0 where
  pub tree : Tree
  pub same_slot : slot tree ≡ slot t
  pub became : Became others p o off tree b out.1
  pub outcome : Outcome wanted o off t tree b out.1 out.0

-- The leaf is of the order wanted.
pub take_exact :
    (i wanted off : ℕ) (p : Option ℕ) (b : Buddy)
    → b.nodes i ≡ fresh_node wanted off p
    → try_allocate_exact_size i wanted b
      ≡ (some i, put_node i (record (fresh_node wanted off p) { is_free = false }) b)
unfolding try_allocate_exact_size
take_exact i wanted off p b e = ground (arith, e)

pub taken_exact :
    (others : ℕ → ℕ) (p : Option ℕ) (o off i : ℕ) (slots : List ℕ) (b : Buddy)
    → IsPool others (leaf i true) slots b
    → Holds b.nodes p o off (leaf i true)
    → Searched others p o off o
        (leaf i true)
        b
        (some i, put_node i (record (fresh_node o off p) { is_free = false }) b)
taken_exact others p o off i slots b pool h =
    let n = record (fresh_node o off p) { is_free = false } in
    let here : update b.nodes i n i ≡ n = update_self b.nodes i n in
    record {
      tree = leaf i false;
      same_slot = refl;
      became = record {
        slots = slots;
        pool = record {
          chain =
              Chain-frame b.nodes (update b.nodes i n) b.first_free_node slots
                (λ j u.
                  update_ne b.nodes i j n (not_chained (others j) i j slots (pool.single j) u))
                pool.chain;
          single = λ j. pool.single j;
          inside = λ j l. pool.inside j l;
        };
        holds = here;
        frame = λ j u.
            update_ne b.nodes i j n (not_around (count i slots) others i j (pool.single i) u);
        steady = record {
          root_kept = refl;
          start_kept = refl;
          top_kept = refl;
          size_kept = refl;
          grows = omega arith;
        };
      };
      outcome = taken i refl (ground arith) (ap (λ (x : Node). x.left_child) here) (λ a k.
          let e : (update b.nodes i n i).offset ≡ off = ap (λ (x : Node). x.offset) here in
          let moved : hit off o a k ≡ hit (update b.nodes i n i).offset o a k =
            ap (λ x. hit x o a k) (sym e) in
          omega (arith, moved));
    }
  where
    not_chained :
        (x i j : ℕ) (slots : List ℕ)
        → x + uses (leaf i true) j + count j slots ≤ 1
        → 1 ≤ count j slots
        → i ≢ j
    not_chained x i j slots e u s = ground arith

    not_around :
        (c : ℕ) (others : ℕ → ℕ) (i j : ℕ)
        → others i + uses (leaf i true) i + c ≤ 1
        → 1 ≤ others j
        → i ≢ j
    not_around c others i j e u s =
        let same : others i ≡ others j = ap others s in
        let here : uses (leaf i true) i ≡ 1 = ground arith in omega arith

-- updateNodeStatus at a fork changes its flag only.
pub status_flag :
    (i l : ℕ) (b : Buddy)
    → i < b.node_count
    → (b.nodes i).left_child ≡ some l
    → (f : Bool) × (update_node_status i b ≡ put_node i (record (b.nodes i) { is_free = f }) b)
unfolding update_node_status
status_flag i l b u e =
    ((b.nodes l).is_free && node_is_free (b.nodes i).right_child b, ground (arith, u, e))

-- The two subtrees under a fork, in the state after the searches.
pub record Forked (others : ℕ → ℕ) (p : Option ℕ) (h off i : ℕ) (l r : Tree) (b : Buddy)
    : Type 0 where
  pub slots : List ℕ
  pub pool : IsPool others (fork i l r) slots b
  pub holds : Holds b.nodes p (suc h) off (fork i l r)

pub below_count :
    (others : ℕ → ℕ) (p : Option ℕ) (h off i : ℕ) (l r : Tree) (b : Buddy)
    → Forked others p h off i l r b
    → i < b.node_count
below_count others p h off i l r b f =
    no_slot_above (others i) i l r f.slots b.node_count (f.pool.inside i)
  where
    no_slot_above :
        (x i : ℕ) (l r : Tree) (slots : List ℕ) (n : ℕ)
        → (n ≤ i → x + uses (fork i l r) i + count i slots ≡ 0)
        → i < n
    no_slot_above x i l r slots n h = ground (arith, h)

-- Slots of the subtrees differ from the slot of the fork.
pub fork_apart :
    (others : ℕ → ℕ) (i j : ℕ) (l r : Tree) (slots : List ℕ)
    → others i + uses (fork i l r) i + count i slots ≤ 1
    → 1 ≤ uses l j + uses r j + count j slots + others j
    → i ≢ j
fork_apart others i j l r slots e u s =
    let a : others i ≡ others j = ap others s in
    let b : uses l i ≡ uses l j = ap (uses l) s in
    let c : uses r i ≡ uses r j = ap (uses r) s in
    let d : count i slots ≡ count j slots = ap (λ x. count x slots) s in
    let here : one_at i i ≡ 1 = ground arith in omega arith

pub flagged :
    (others : ℕ → ℕ) (p : Option ℕ) (h off i : ℕ) (l r : Tree) (f : Bool) (b b1 : Buddy)
    → Forked others p h off i l r b1
    → ((j : ℕ) → 1 ≤ others j → b1.nodes j ≡ b.nodes j)
    → Steady b b1
    → Became others p
        (suc h)
        off
        (fork i l r)
        b
        (put_node i (record (b1.nodes i) { is_free = f }) b1)
flagged others p h off i l r f b b1 fk frame steady =
    let n = record (b1.nodes i) { is_free = f } in
    let same : (j : ℕ)
        → 1 ≤ uses l j + uses r j + count j fk.slots + others j
        → update b1.nodes i n j ≡ b1.nodes j =
      λ j u. update_ne b1.nodes i j n (fork_apart others i j l r fk.slots (fk.pool.single i) u) in
    let (node, x, y) = fk.holds in
    record {
      slots = fk.slots;
      pool = record {
        chain =
            Chain-frame b1.nodes (update b1.nodes i n) b1.first_free_node fk.slots
              (λ j u. same j (omega (arith, u))) fk.pool.chain;
        single = fk.pool.single;
        inside = fk.pool.inside;
      };
      holds = (
        subst (λ m. IsFork m p (suc h) off (slot l) (slot r)) (sym (update_self b1.nodes i n))
            (record {
              order_is = node.order_is;
              offset_is = node.offset_is;
              left_is = node.left_is;
              right_is = node.right_is;
              parent_is = node.parent_is;
            }),
        Holds-frame b1.nodes (update b1.nodes i n) (some i) h off l
            (λ j u. same j (omega (arith, u))) x,
        Holds-frame b1.nodes (update b1.nodes i n) (some i) h (off + 2 ^ h) r
            (λ j u. same j (omega (arith, u))) y,
      );
      frame = λ j u. same j (omega (arith, u)) ∙ frame j u;
      steady = record {
        root_kept = steady.root_kept;
        start_kept = steady.start_kept;
        top_kept = steady.top_kept;
        size_kept = steady.size_kept;
        grows = steady.grows;
      };
    }
