-- ===== src/Buddy/Children.antt =====
-- The search below a fork in memoryManagerBuddy.c: first the left subtree, then the right one.
use tp2_so_g.Base.{
  ℕ, suc, ◌+◌, ◌^◌, ◌≡◌, ◌≢◌, ◌≤◌, ◌⊎◌, refl, ◌∙◌, sym, ap, subst, Option, none, some, List, arith,
  inl, inr, update_ne,
}
use tp2_so_g.Buddy.{Node, Buddy, update_node_status, put_node}
use tp2_so_g.Buddy.Search.{search_right, search_children}
use tp2_so_g.Buddy.Trees.{
  Tree, fork, slot, one_at, uses, used, hit, room, exact, IsFork, Holds, IsPool, Holds-frame,
}
use tp2_so_g.Buddy.Slots.{Spent, Steady, Steady-trans}
use tp2_so_g.Buddy.Split.{Became}
use tp2_so_g.Buddy.Found.{
  taken, refused, Searched, Forked, status_flag, below_count, fork_apart, flagged,
}

-- A search that finds its way in every tree of the given order.
abbrev pub Searches : (Option ℕ → Buddy → Option ℕ × Buddy) → ℕ → ℕ → Type 0
Searches search wanted h =
    (others : ℕ → ℕ) (p : Option ℕ) (off : ℕ) (t : Tree) (slots : List ℕ) (b : Buddy)
    → IsPool others t slots b
    → Holds b.nodes p h off t
    → Searched others p h off wanted t b (search (some (slot t)) b)

-- The pool, seen from one of the subtrees.
left-IsPool :
    (others : ℕ → ℕ) (i : ℕ) (l r : Tree) (slots : List ℕ) (b : Buddy)
    → IsPool others (fork i l r) slots b
    → IsPool (λ j. others j + one_at i j + uses r j) l slots b
left-IsPool others i l r slots b p = record {
  chain = p.chain;
  single = λ j. omega (arith, p.single j);
  inside = λ j u. omega (arith, p.inside j u);
}

right-IsPool :
    (others : ℕ → ℕ) (i : ℕ) (l r : Tree) (slots : List ℕ) (b : Buddy)
    → IsPool others (fork i l r) slots b
    → IsPool (λ j. others j + one_at i j + uses l j) r slots b
right-IsPool others i l r slots b p = record {
  chain = p.chain;
  single = λ j. omega (arith, p.single j);
  inside = λ j u. omega (arith, p.inside j u);
}

whole_from_left :
    (others : ℕ → ℕ) (i : ℕ) (l r : Tree) (slots : List ℕ) (b : Buddy)
    → IsPool (λ j. others j + one_at i j + uses r j) l slots b
    → IsPool others (fork i l r) slots b
whole_from_left others i l r slots b p = record {
  chain = p.chain;
  single = λ j. omega (arith, p.single j);
  inside = λ j u. omega (arith, p.inside j u);
}

whole_from_right :
    (others : ℕ → ℕ) (i : ℕ) (l r : Tree) (slots : List ℕ) (b : Buddy)
    → IsPool (λ j. others j + one_at i j + uses l j) r slots b
    → IsPool others (fork i l r) slots b
whole_from_right others i l r slots b p = record {
  chain = p.chain;
  single = λ j. omega (arith, p.single j);
  inside = λ j u. omega (arith, p.inside j u);
}

one_self : (i : ℕ) → one_at i i ≡ 1
one_self i = ground arith

-- The fork after a search in its left subtree.
after_left :
    (others : ℕ → ℕ) (p : Option ℕ) (h off i : ℕ) (l r l' : Tree) (b b1 : Buddy)
    → Holds b.nodes p (suc h) off (fork i l r)
    → slot l' ≡ slot l
    → Became (λ j. others j + one_at i j + uses r j) (some i) h off l' b b1
    → Forked others p h off i l' r b1
after_left others p h off i l r l' b b1 (n, x, y) s c = record {
  slots = c.slots;
  pool = whole_from_left others i l' r c.slots b1 c.pool;
  holds = (
    subst (λ m. IsFork m p (suc h) off (slot l') (slot r))
        (sym (c.frame i (omega (arith, one_self i))))
        (subst (λ m. IsFork (b.nodes i) p (suc h) off m (slot r)) (sym s) n),
    c.holds,
    Holds-frame b.nodes b1.nodes (some i) h (off + 2 ^ h) r (λ j u. c.frame j (omega (arith, u))) y,
  );
}

after_right :
    (others : ℕ → ℕ) (p : Option ℕ) (h off i : ℕ) (l r r' : Tree) (b b1 : Buddy)
    → Holds b.nodes p (suc h) off (fork i l r)
    → slot r' ≡ slot r
    → Became (λ j. others j + one_at i j + uses l j) (some i) h (off + 2 ^ h) r' b b1
    → Forked others p h off i l r' b1
after_right others p h off i l r r' b b1 (n, x, y) s c = record {
  slots = c.slots;
  pool = whole_from_right others i l r' c.slots b1 c.pool;
  holds = (
    subst (λ m. IsFork m p (suc h) off (slot l) (slot r'))
        (sym (c.frame i (omega (arith, one_self i))))
        (subst (λ m. IsFork (b.nodes i) p (suc h) off (slot l) m) (sym s) n),
    Holds-frame b.nodes b1.nodes (some i) h off l (λ j u. c.frame j (omega (arith, u))) x,
    c.holds,
  );
}

right_found :
    (search : Option ℕ → Buddy → Option ℕ × Buddy) (i x k : ℕ) (b : Buddy)
    → (b.nodes i).right_child ≡ some x
    → (search (some x) b).0 ≡ some k
    → search_right search i b ≡ (some k, update_node_status i (search (some x) b).1)
unfolding search_right
right_found search i x k b e f = ground (arith, e, f)

right_none :
    (search : Option ℕ → Buddy → Option ℕ × Buddy) (i x : ℕ) (b : Buddy)
    → (b.nodes i).right_child ≡ some x
    → (search (some x) b).0 ≡ none
    → search_right search i b ≡ (none, (search (some x) b).1)
unfolding search_right
right_none search i x b e f = ground (arith, e, f)

left_found :
    (search : Option ℕ → Buddy → Option ℕ × Buddy) (i x k : ℕ) (b : Buddy)
    → (b.nodes i).left_child ≡ some x
    → (search (some x) b).0 ≡ some k
    → search_children search i b ≡ (some k, update_node_status i (search (some x) b).1)
unfolding search_children
left_found search i x k b e f = ground (arith, e, f)

left_none :
    (search : Option ℕ → Buddy → Option ℕ × Buddy) (i x : ℕ) (b : Buddy)
    → (b.nodes i).left_child ≡ some x
    → (search (some x) b).0 ≡ none
    → search_children search i b ≡ search_right search i (search (some x) b).1
unfolding search_children
left_none search i x b e f = ground (arith, e, f)

-- The result of a search in one subtree, with the flag of the fork brought up to date.
finished :
    (others : ℕ → ℕ) (p : Option ℕ) (h off wanted i k : ℕ) (l r l' r' : Tree) (b b1 : Buddy)
    → Forked others p h off i l' r' b1
    → ((j : ℕ) → 1 ≤ others j → b1.nodes j ≡ b.nodes j)
    → Steady b b1
    → 1 ≤ uses l' k + uses r' k
    → (b1.nodes k).left_child ≡ none
    → ((a m : ℕ)
        → used (suc h) off (fork i l' r') a m
          ≡ used (suc h) off (fork i l r) a m + hit (b1.nodes k).offset wanted a m)
    → Searched others p (suc h) off wanted (fork i l r) b (some k, update_node_status i b1)
finished others p h off wanted i k l r l' r' b b1 fk frame steady u leaf_there more =
    let (f, e) =
      status_flag i (slot l') b1 (below_count others p h off i l' r' b1 fk) fk.holds.0.left_is in
    let b2 = put_node i (record (b1.nodes i) { is_free = f }) b1 in
    let apart : i ≢ k =
      fork_apart others i k l' r' fk.slots (fk.pool.single i) (omega (arith, u)) in
    let same : b2.nodes k ≡ b1.nodes k = update_ne b1.nodes i k _ apart in
    subst (λ b2. Searched others p (suc h) off wanted (fork i l r) b (some k, b2)) (sym e)
      (record {
        tree = fork i l' r';
        same_slot = refl;
        became = flagged others p h off i l' r' f b b1 fk frame steady;
        outcome =
            taken k refl (omega (arith, u)) (ap (λ (x : Node). x.left_child) same ∙ leaf_there)
              (λ a m.
                more a m
                ∙ ap (λ (x : Node). used (suc h) off (fork i l r) a m + hit x.offset wanted a m)
                    (sym same));
      })

-- The right subtree, after the left one gave nothing: `l0` is what the left one was before, in `b0`.
right_Searched :
    (search : Option ℕ → Buddy → Option ℕ × Buddy) (wanted h : ℕ) (others : ℕ → ℕ) (p : Option ℕ)
    (off i : ℕ) (l0 l r : Tree) (b0 b : Buddy)
    → Searches search wanted h
    → Forked others p h off i l r b
    → ((j : ℕ) → 1 ≤ others j → b.nodes j ≡ b0.nodes j)
    → Steady b0 b
    → ((a k : ℕ) → used h off l a k ≡ used h off l0 a k)
    → Spent b ⊎ ((room wanted h l0 ≡ 0) × (b ≡ b0))
    → exact wanted h l0 ≡ 0
    → Searched others p (suc h) off wanted (fork i l0 r) b0 (search_right search i b)
right_Searched search wanted h others p off i l0 l r b0 b ih fk0 frame0 steady0 same0 left_full
      left_exact =
    let (n, x, y) = fk0.holds in
    let s =
      ih (λ j. others j + one_at i j + uses l j) (some i) (off + 2 ^ h) r fk0.slots b
        (right-IsPool others i l r fk0.slots b fk0.pool) y in
    let b1 = (search (some (slot r)) b).1 in
    let fk : Forked others p h off i l s.tree b1 =
      after_right others p h off i l r s.tree b b1 (n, x, y) s.same_slot s.became in
    let frame : (j : ℕ) → 1 ≤ others j → b1.nodes j ≡ b0.nodes j =
      λ j u. s.became.frame j (omega (arith, u)) ∙ frame0 j u in
    let steady = Steady-trans steady0 s.became.steady in
    elim s.outcome [
      | taken k e u lf more ↦
          subst (Searched others p (suc h) off wanted (fork i l0 r) b0)
            (sym (right_found search i (slot r) k b n.right_is e))
            (finished others p h off wanted i k l0 r l s.tree b0 b1 fk frame steady
              (omega (arith, u)) lf (λ a m. omega (arith, more a m, same0 a m)))
      | refused e same why right_exact ↦
          subst (Searched others p (suc h) off wanted (fork i l0 r) b0)
            (sym (right_none search i (slot r) b n.right_is e))
            (record {
              tree = fork i l s.tree;
              same_slot = refl;
              became = record {
                slots = fk.slots;
                pool = fk.pool;
                holds = fk.holds;
                frame = frame;
                steady = steady;
              };
              outcome =
                  refused refl (λ a m. omega (arith, same a m, same0 a m))
                    (no_room (room wanted h l0) (room wanted h r) b0 b b1 left_full why)
                    (omega (arith, left_exact, right_exact));
            })
    ]
  where
    no_room :
        (x y : ℕ) (b0 b b1 : Buddy)
        → Spent b ⊎ ((x ≡ 0) × (b ≡ b0))
        → Spent b1 ⊎ ((y ≡ 0) × (b1 ≡ b))
        → Spent b1 ⊎ ((x + y ≡ 0) × (b1 ≡ b0))
    no_room x y b0 b b1 u (inl w) = inl w
    no_room x y b0 b b1 (inl u) (inr (w, same)) = inl (subst Spent (sym same) u)
    no_room x y b0 b b1 (inr (u, same)) (inr (w, same')) = inr (omega arith, same' ∙ same)

-- The search below a fork, where the search in its subtrees finds its way.
pub search_children-Searched :
    (search : Option ℕ → Buddy → Option ℕ × Buddy) (wanted h : ℕ) (others : ℕ → ℕ) (p : Option ℕ)
    (off i : ℕ) (l r : Tree) (slots : List ℕ) (b : Buddy)
    → Searches search wanted h
    → IsPool others (fork i l r) slots b
    → Holds b.nodes p (suc h) off (fork i l r)
    → Searched others p (suc h) off wanted (fork i l r) b (search_children search i b)
search_children-Searched search wanted h others p off i l r slots b ih pool (n, x, y) =
    let s =
      ih (λ j. others j + one_at i j + uses r j) (some i) off l slots b
        (left-IsPool others i l r slots b pool) x in
    let b1 = (search (some (slot l)) b).1 in
    let fk : Forked others p h off i s.tree r b1 =
      after_left others p h off i l r s.tree b b1 (n, x, y) s.same_slot s.became in
    let frame : (j : ℕ) → 1 ≤ others j → b1.nodes j ≡ b.nodes j =
      λ j u. s.became.frame j (omega (arith, u)) in
    elim s.outcome [
      | taken k e u lf more ↦
          subst (Searched others p (suc h) off wanted (fork i l r) b)
            (sym (left_found search i (slot l) k b n.left_is e))
            (finished others p h off wanted i k l r s.tree r b b1 fk frame s.became.steady
              (omega (arith, u)) lf (λ a m. omega (arith, more a m)))
      | refused e same why none_exact ↦
          subst (Searched others p (suc h) off wanted (fork i l r) b)
            (sym (left_none search i (slot l) b n.left_is e))
            (right_Searched search wanted h others p off i l s.tree r b b1 ih fk frame
              s.became.steady same why none_exact)
    ]
