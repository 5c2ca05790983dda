-- ===== src/Buddy/Split.antt =====
-- splitNode of memoryManagerBuddy.c: a free leaf becomes two, or the pool is full.
use tp2_so_g.Base.{
  ℕ, suc, ◌+◌, ◌^◌, ◌≡◌, ◌≢◌, ◌≤◌, ◌<◌, refl, ◌∙◌, sym, ap, subst, Bool, true, false, Option, none,
  some, List, ◌∷◌, arith, inl, inr, count, update, update_self, update_ne,
}
use tp2_so_g.Buddy.{
  Node, Buddy, max_nodes, min_order, create_node, recycle, link_children, make_children, split_node,
}
use tp2_so_g.Buddy.Trees.{Tree, leaf, fork, one_at, uses, Holds, Chain, IsPool, Chain-frame}
use tp2_so_g.Buddy.Slots.{
  Spent, Steady, Steady-refl, Steady-trans, Created, fresh_node, create_node-Created,
}

-- The pool holds the tree `t` now, and what is around it is as it was.
pub record Became (others : ℕ → ℕ) (p : Option ℕ) (o off : ℕ) (t : Tree) (b b' : Buddy)
    : Type 0 where
  pub slots : List ℕ
  pub pool : IsPool others t slots b'
  pub holds : Holds b'.nodes p o off t
  pub frame : (j : ℕ) → 1 ≤ others j → b'.nodes j ≡ b.nodes j
  pub steady : Steady b b'

-- The left child is given back.
recycle_left :
    (others : ℕ → ℕ) (p : Option ℕ) (o off i l : ℕ) (n : Node) (b b1 : Buddy)
    → Holds b.nodes p o off (leaf i true)
    → Created others (leaf i true) n b b1 l
    → Became others p o off (leaf i true) b (recycle l b1)
unfolding recycle
recycle_left others p o off i l n b b1 h c =
    let m = record (b1.nodes l) { parent = none; left_child = b1.first_free_node } in
    let apart : l ≢ i = other_slot others i l c.unused in
    record {
      slots = l ∷ c.slots;
      pool = record {
        chain = (
          refl,
          subst (λ f. Chain (update b1.nodes l m) f c.slots)
              (sym (ap (λ (x : Node). x.left_child) (update_self b1.nodes l m)))
              (Chain-frame b1.nodes (update b1.nodes l m) b1.first_free_node c.slots
                (λ j u.
                  update_ne b1.nodes l j m (not_chained others i l j c.slots (c.pool.single j) u))
                c.pool.chain),
        );
        single = λ j. single_again others i l j c.slots (c.pool.single j);
        inside = λ j b. inside_again others i l j c.slots (c.pool.inside j b);
      };
      holds = update_ne b1.nodes l i m apart ∙ c.rest i apart ∙ h;
      frame = λ j u.
          let ne = not_around others i l j c.unused u in update_ne b1.nodes l j m ne ∙ c.rest j ne;
      steady = record {
        root_kept = c.steady.root_kept;
        start_kept = c.steady.start_kept;
        top_kept = c.steady.top_kept;
        size_kept = c.steady.size_kept;
        grows = c.steady.grows;
      };
    }
  where
    other_slot : (others : ℕ → ℕ) (i l : ℕ) → others l + uses (leaf i true) l ≡ 0 → l ≢ i
    other_slot others i l e s = ground arith

    not_chained :
        (others : ℕ → ℕ) (i l j : ℕ) (slots : List ℕ)
        → others j + one_at l j + uses (leaf i true) j + count j slots ≤ 1
        → 1 ≤ count j slots
        → l ≢ j
    not_chained others i l j slots e u s = ground arith

    single_again :
        (others : ℕ → ℕ) (i l j : ℕ) (slots : List ℕ)
        → others j + one_at l j + uses (leaf i true) j + count j slots ≤ 1
        → others j + uses (leaf i true) j + count j (l ∷ slots) ≤ 1
    single_again others i l j slots e = ground arith

    inside_again :
        (others : ℕ → ℕ) (i l j : ℕ) (slots : List ℕ)
        → others j + one_at l j + uses (leaf i true) j + count j slots ≡ 0
        → others j + uses (leaf i true) j + count j (l ∷ slots) ≡ 0
    inside_again others i l j slots e = ground arith

    not_around :
        (others : ℕ → ℕ) (i l j : ℕ) → others l + uses (leaf i true) l ≡ 0 → 1 ≤ others j → l ≢ j
    not_around others i l j e u s = let same : others l ≡ others j = ap others s in omega arith

-- The slots of the two children, of the node and of what is around are all different.
record Different (others : ℕ → ℕ) (i l r : ℕ) : Type 0 where
  l_i : l ≢ i
  r_i : r ≢ i
  r_l : r ≢ l
  l_around : (j : ℕ) → 1 ≤ others j → l ≢ j
  r_around : (j : ℕ) → 1 ≤ others j → r ≢ j
  i_around : (j : ℕ) → 1 ≤ others j → i ≢ j

differ :
    (others : ℕ → ℕ) (i l r : ℕ)
    → others l + uses (leaf i true) l ≡ 0
    → others r + one_at l r + uses (leaf i true) r ≡ 0
    → others i + uses (leaf i true) i ≤ 1
    → Different others i l r
differ others i l r a b c = record {
  l_i = λ s. ground arith;
  r_i = λ s. ground arith;
  r_l = λ s. ground arith;
  l_around = λ j u s. let same : others l ≡ others j = ap others s in omega arith;
  r_around = λ j u s. let same : others r ≡ others j = ap others s in omega arith;
  i_around = λ j u s.
      let same : others i ≡ others j = ap others s in
      let here : uses (leaf i true) i ≡ 1 = ground arith in omega (arith, same, u, here, c);
}

fork_single :
    (others : ℕ → ℕ) (i l r j : ℕ) (slots : List ℕ)
    → others j + one_at l j + one_at r j + uses (leaf i true) j + count j slots ≤ 1
    → others j + uses (fork i (leaf l true) (leaf r true)) j + count j slots ≤ 1
fork_single others i l r j slots e = omega (arith, e)

fork_inside :
    (others : ℕ → ℕ) (i l r j : ℕ) (slots : List ℕ)
    → others j + one_at l j + one_at r j + uses (leaf i true) j + count j slots ≡ 0
    → others j + uses (fork i (leaf l true) (leaf r true)) j + count j slots ≡ 0
fork_inside others i l r j slots e = omega (arith, e)

not_in_chain :
    (x i j : ℕ) (slots : List ℕ)
    → x + uses (leaf i true) j + count j slots ≤ 1
    → 1 ≤ count j slots
    → i ≢ j
not_in_chain x i j slots e u s = ground arith

linked :
    (others : ℕ → ℕ) (p : Option ℕ) (h off i l r : ℕ) (b b1 b2 : Buddy)
    → others i + uses (leaf i true) i ≤ 1
    → Holds b.nodes p (suc h) off (leaf i true)
    → Created others (leaf i true) (fresh_node h off (some i)) b b1 l
    → Created
        (λ m. others m + one_at l m)
        (leaf i true)
        (fresh_node h (off + 2 ^ h) (some i))
        b1
        b2
        r
    → Became others p (suc h) off (fork i (leaf l true) (leaf r true)) b (link_children i l r b2)
unfolding link_children
linked others p h off i l r b b1 b2 once at c1 c2 =
    let d = differ others i l r c1.unused c2.unused once in
    let n = record (b2.nodes i) { left_child = some l; right_child = some r } in
    let old : b2.nodes i ≡ fresh_node (suc h) off p = c2.rest i d.r_i ∙ c1.rest i d.l_i ∙ at in
    let here : update b2.nodes i n i ≡ n = update_self b2.nodes i n in
    record {
      slots = c2.slots;
      pool = record {
        chain =
            Chain-frame b2.nodes (update b2.nodes i n) b2.first_free_node c2.slots
              (λ j u. update_ne b2.nodes i j n (
                not_in_chain (others j + one_at l j + one_at r j) i j c2.slots (c2.pool.single j)
                  u))
              c2.pool.chain;
        single = λ j. fork_single others i l r j c2.slots (c2.pool.single j);
        inside = λ j b. fork_inside others i l r j c2.slots (c2.pool.inside j b);
      };
      holds = (
        record {
          order_is = ap (λ (x : Node). x.order) here ∙ ap (λ (x : Node). x.order) old;
          offset_is = ap (λ (x : Node). x.offset) here ∙ ap (λ (x : Node). x.offset) old;
          left_is = ap (λ (x : Node). x.left_child) here;
          right_is = ap (λ (x : Node). x.right_child) here;
          parent_is = ap (λ (x : Node). x.parent) here ∙ ap (λ (x : Node). x.parent) old;
        },
        update_ne b2.nodes i l n (λ s. d.l_i (sym s)) ∙ c2.rest l d.r_l ∙ c1.node_is,
        update_ne b2.nodes i r n (λ s. d.r_i (sym s)) ∙ c2.node_is,
      );
      frame = λ j u.
          update_ne b2.nodes i j n (d.i_around j u)
          ∙ c2.rest j (d.r_around j u)
          ∙ c1.rest j (d.l_around j u);
      steady =
          let s = Steady-trans c1.steady c2.steady in
          record {
            root_kept = s.root_kept;
            start_kept = s.start_kept;
            top_kept = s.top_kept;
            size_kept = s.size_kept;
            grows = s.grows;
          };
    }

-- splitNode on a free leaf above the least order.
pub data SplitOf (others : ℕ → ℕ) (p : Option ℕ) (h off i : ℕ) (b : Buddy) (out : Bool × Buddy)
    : Type 0 where
  full :
      out.0 ≡ false
      → Spent out.1
      → Became others p (suc h) off (leaf i true) b out.1
      → SplitOf others p h off i b out
  parted :
      (l r : ℕ)
      → out.0 ≡ true
      → Became others p (suc h) off (fork i (leaf l true) (leaf r true)) b out.1
      → SplitOf others p h off i b out

children_full :
    (i h off : ℕ) (p : Option ℕ) (b : Buddy)
    → b.nodes i ≡ fresh_node (suc h) off p
    → create_node h off (some i) b ≡ (none, b)
    → make_children i b ≡ (false, b)
unfolding make_children
children_full i h off p b e c = ground (arith, e, c)

children_half :
    (i h off l : ℕ) (p : Option ℕ) (b b1 : Buddy)
    → b.nodes i ≡ fresh_node (suc h) off p
    → create_node h off (some i) b ≡ (some l, b1)
    → create_node h (off + 2 ^ h) (some i) b1 ≡ (none, b1)
    → make_children i b ≡ (false, recycle l b1)
unfolding make_children
children_half i h off l p b b1 e c d = ground (arith, e, c, d)

children_both :
    (i h off l r : ℕ) (p : Option ℕ) (b b1 b2 : Buddy)
    → b.nodes i ≡ fresh_node (suc h) off p
    → create_node h off (some i) b ≡ (some l, b1)
    → create_node h (off + 2 ^ h) (some i) b1 ≡ (some r, b2)
    → make_children i b ≡ (true, link_children i l r b2)
unfolding make_children
children_both i h off l r p b b1 b2 e c d = ground (arith, e, c, d)

to_children :
    (i h off : ℕ) (p : Option ℕ) (b : Buddy)
    → b.nodes i ≡ fresh_node (suc h) off p
    → i < b.node_count
    → min_order ≤ h
    → split_node i b ≡ make_children i b
unfolding split_node
to_children i h off p b e l m = ground (arith, e, l, m)

full_before : (b : Buddy) → b.first_free_node ≡ none → max_nodes ≤ b.node_count → Spent b
full_before b e f = (f, ground (arith, e))

full_after :
    (l : ℕ) (b1 : Buddy)
    → b1.first_free_node ≡ none
    → max_nodes ≤ b1.node_count
    → Spent (recycle l b1)
unfolding recycle
full_after l b1 e f = (f, ground (arith, e))

first_half :
    (others : ℕ → ℕ) (p : Option ℕ) (h off i l : ℕ) (b b1 : Buddy)
    → others i + uses (leaf i true) i ≤ 1
    → b.nodes i ≡ fresh_node (suc h) off p
    → create_node h off (some i) b ≡ (some l, b1)
    → Created others (leaf i true) (fresh_node h off (some i)) b b1 l
    → SplitOf others p h off i b (make_children i b)
first_half others p h off i l b b1 once e r c =
    elim (create_node-Created (λ m. others m + one_at l m) (leaf i true) c.slots h (off + 2 ^ h)
      (some i) b1 c.pool) [
        | inl (r2, empty, full_now) ↦
            subst (SplitOf others p h off i b) (sym (children_half i h off l p b b1 e r r2)) (
              full refl (full_after l b1 empty full_now)
                (recycle_left others p (suc h) off i l (fresh_node h off (some i)) b b1 e c))
        | inr (k, b2, r2, c2) ↦
            subst (SplitOf others p h off i b) (sym (children_both i h off l k p b b1 b2 e r r2))
              (parted l k refl (linked others p h off i l k b b1 b2 once e c c2))
      ]

pub Became-same :
    (others : ℕ → ℕ) (p : Option ℕ) (o off : ℕ) (t : Tree) (slots : List ℕ) (b : Buddy)
    → IsPool others t slots b
    → Holds b.nodes p o off t
    → Became others p o off t b b
Became-same others p o off t slots b pool h = record {
  slots = slots;
  pool = pool;
  holds = h;
  frame = λ j u. refl;
  steady = Steady-refl b;
}

used_below : (n i count : ℕ) → (count ≤ i → n + uses (leaf i true) i + 0 ≡ 0) → i < count
used_below n i count h = ground (arith, h)

-- splitNode on a free leaf above the least order makes its two halves, unless the pool is full.
pub split_node-SplitOf :
    (others : ℕ → ℕ) (p : Option ℕ) (h off i : ℕ) (slots : List ℕ) (b : Buddy)
    → IsPool others (leaf i true) slots b
    → Holds b.nodes p (suc h) off (leaf i true)
    → min_order ≤ h
    → SplitOf others p h off i b (split_node i b)
split_node-SplitOf others p h off i slots b pool e m =
    let l : i < b.node_count =
      used_below (others i) i b.node_count (λ u. omega (arith, pool.inside i u)) in
    subst (SplitOf others p h off i b) (sym (to_children i h off p b e l m))
      (elim (create_node-Created others (leaf i true) slots h off (some i) b pool) [
        | inl (r, empty, full_now) ↦
            subst (SplitOf others p h off i b) (sym (children_full i h off p b e r)) (
              full refl (full_before b empty full_now)
                (Became-same others p (suc h) off (leaf i true) slots b pool e))
        | inr (j, b1, r, c) ↦
            first_half others p h off i j b b1 (omega (arith, pool.single i)) e r c
      ])
