-- ===== src/Buddy/Find.antt =====
-- findAndAllocate of memoryManagerBuddy.c finds a block wherever there is one.
use tp2_so_g.Base.{
  ℕ, zero, suc, ◌+◌, ◌≡◌, ◌≤◌, ◌<◌, ◌⊎◌, refl, ◌∙◌, sym, ap, subst, true, false, Option, none, some,
  List, arith, inl, inr, count,
}
use tp2_so_g.Buddy.{Node, Buddy, min_order, split_node, put_node}
use tp2_so_g.Buddy.Search.{
  search_children, try_allocate_exact_size, try_split_and_allocate, search_node, find_and_allocate,
}
use tp2_so_g.Buddy.Trees.{Tree, leaf, fork, slot, uses, room, exact-room, Holds, IsPool, uses-slot}
use tp2_so_g.Buddy.Slots.{Steady-trans, fresh_node}
use tp2_so_g.Buddy.Split.{Became, Became-same, SplitOf, full, parted, split_node-SplitOf}
use tp2_so_g.Buddy.Found.{taken, refused, Searched, taken_exact}
use tp2_so_g.Buddy.Children.{Searches, search_children-Searched}

room_low : (wanted o : ℕ) (t : Tree) → o < wanted → room wanted o t ≡ 0
room_low wanted o (leaf i false) l = refl
room_low wanted o (leaf i true) l = ground (arith, l)
room_low wanted zero (fork i x y) l = refl
room_low wanted (suc h) (fork i x y) l =
    omega (arith, room_low wanted h x (omega arith), room_low wanted h y (omega arith))

-- What the call comes down to in each case.
too_low :
    (n wanted i : ℕ) (b : Buddy)
    → (b.nodes i).order < wanted
    → find_and_allocate (suc n) wanted (some i) b ≡ (none, b)
unfolding find_and_allocate
too_low n wanted i b l = ground (arith, l)

to_node :
    (n wanted i : ℕ) (b : Buddy)
    → wanted ≤ (b.nodes i).order
    → i < b.node_count
    → find_and_allocate (suc n) wanted (some i) b
      ≡ search_node (find_and_allocate n wanted) i wanted b
unfolding find_and_allocate
to_node n wanted i b l m = ground (arith, l, m)

node_exact :
    (search : Option ℕ → Buddy → Option ℕ × Buddy) (i wanted off : ℕ) (p : Option ℕ) (b : Buddy)
    → b.nodes i ≡ fresh_node wanted off p
    → search_node search i wanted b
      ≡ (some i, put_node i (record (fresh_node wanted off p) { is_free = false }) b)
unfolding search_node try_allocate_exact_size
node_exact search i wanted off p b e = ground (arith, e)

node_taken :
    (search : Option ℕ → Buddy → Option ℕ × Buddy) (i wanted o off : ℕ) (p : Option ℕ) (b : Buddy)
    → b.nodes i ≡ record (fresh_node o off p) { is_free = false }
    → search_node search i wanted b ≡ (none, b)
unfolding search_node try_allocate_exact_size try_split_and_allocate
node_taken search i wanted o off p b e = ground (arith, e)

node_split :
    (search : Option ℕ → Buddy → Option ℕ × Buddy) (i wanted o off : ℕ) (p : Option ℕ) (b : Buddy)
    → b.nodes i ≡ fresh_node o off p
    → wanted < o
    → (split_node i b).0 ≡ true
    → search_node search i wanted b ≡ search_children search i (split_node i b).1
unfolding search_node try_allocate_exact_size try_split_and_allocate
node_split search i wanted o off p b e l s = ground (arith, e, l, s)

node_full :
    (search : Option ℕ → Buddy → Option ℕ × Buddy) (i wanted o off : ℕ) (p : Option ℕ) (b : Buddy)
    → b.nodes i ≡ fresh_node o off p
    → wanted < o
    → (split_node i b).0 ≡ false
    → search_node search i wanted b ≡ (none, (split_node i b).1)
unfolding search_node try_allocate_exact_size try_split_and_allocate
node_full search i wanted o off p b e l s = ground (arith, e, l, s)

node_fork :
    (search : Option ℕ → Buddy → Option ℕ × Buddy) (i wanted l : ℕ) (b : Buddy)
    → (b.nodes i).left_child ≡ some l
    → search_node search i wanted b ≡ search_children search i b
unfolding search_node try_allocate_exact_size
node_fork search i wanted l b e = ground (arith, e)

-- Nothing is found and nothing changes.
nothing :
    (others : ℕ → ℕ) (p : Option ℕ) (o off wanted : ℕ) (t : Tree) (slots : List ℕ) (b : Buddy)
    → IsPool others t slots b
    → Holds b.nodes p o off t
    → room wanted o t ≡ 0
    → Searched others p o off wanted t b (none, b)
nothing others p o off wanted t slots b pool h e = record {
  tree = t;
  same_slot = refl;
  became = Became-same others p o off t slots b pool h;
  outcome = refused refl (λ a k. refl) (inr (e, refl)) (omega (arith, e, exact-room wanted o t));
}

in_use :
    (others : ℕ → ℕ) (t : Tree) (slots : List ℕ) (b : Buddy)
    → IsPool others t slots b
    → slot t < b.node_count
in_use others t slots b pool =
    below (others (slot t)) (uses t (slot t)) (count (slot t) slots) (slot t) b.node_count
      (uses-slot t) (pool.inside (slot t))
  where
    below : (x u c i n : ℕ) → 1 ≤ u → (n ≤ i → x + u + c ≡ 0) → i < n
    below x u c i n l h = ground (arith, l, h)

-- A free leaf that is split, with the search in its halves.
split_Searched :
    (search : Option ℕ → Buddy → Option ℕ × Buddy) (wanted h : ℕ) (others : ℕ → ℕ) (p : Option ℕ)
    (off i : ℕ) (slots : List ℕ) (b : Buddy)
    → Searches search wanted h
    → IsPool others (leaf i true) slots b
    → Holds b.nodes p (suc h) off (leaf i true)
    → wanted < suc h
    → SplitOf others p h off i b (split_node i b)
    → Searched others p (suc h) off wanted (leaf i true) b (search_node search i wanted b)
split_Searched search wanted h others p off i slots b ih pool e l (full kept_whole full_now c) =
    subst (Searched others p (suc h) off wanted (leaf i true) b)
      (sym (node_full search i wanted (suc h) off p b e l kept_whole))
      (record {
        tree = leaf i true;
        same_slot = refl;
        became = c;
        outcome = refused refl (λ a k. refl) (inl full_now) (ground (arith, l));
      })
split_Searched search wanted h others p off i slots b ih pool e l (parted x y yes_split c) =
    let b1 = (split_node i b).1 in
    let s =
      search_children-Searched search wanted h others p off i (leaf x true) (leaf y true) c.slots b1
        ih c.pool c.holds in
    let after : Became others p (suc h) off s.tree b (search_children search i b1).1 = record {
      slots = s.became.slots;
      pool = s.became.pool;
      holds = s.became.holds;
      frame = λ j u. s.became.frame j u ∙ c.frame j u;
      steady = Steady-trans c.steady s.became.steady;
    } in
    subst (Searched others p (suc h) off wanted (leaf i true) b)
      (sym (node_split search i wanted (suc h) off p b e l yes_split))
      (record {
        tree = s.tree;
        same_slot = s.same_slot;
        became = after;
        outcome = elim s.outcome [
          | taken k f u lf more ↦ taken k f u lf more
          | refused f same why none_exact ↦
              refused f same
                (elim why [
                  | inl full_now ↦ inl full_now
                  | inr (none_left, unchanged) ↦ absurd (halves_fit wanted h x y l none_left)
                ])
                (ground (arith, l))
        ];
      })
  where
    halves_fit :
        (wanted h x y : ℕ)
        → wanted < suc h
        → room wanted (suc h) (fork 0 (leaf x true) (leaf y true)) ≡ 0
        → ⊥
    halves_fit wanted h x y l e = ground (arith, l, e)

order_of :
    (nodes : ℕ → Node) (p : Option ℕ) (o off : ℕ) (t : Tree)
    → Holds nodes p o off t
    → (nodes (slot t)).order ≡ o
order_of nodes p o off (leaf i f) h = ap (λ (x : Node). x.order) h
order_of nodes p zero off (fork i l r) h = absurd h
order_of nodes p (suc o) off (fork i l r) h = h.0.order_is

-- What is done at a node of at least the order wanted.
node_Searched :
    (search : Option ℕ → Buddy → Option ℕ × Buddy) (wanted o : ℕ) (others : ℕ → ℕ) (p : Option ℕ)
    (off : ℕ) (t : Tree) (slots : List ℕ) (b : Buddy)
    → ((h : ℕ) → o ≡ suc h → Searches search wanted h)
    → min_order ≤ wanted
    → wanted ≤ o
    → IsPool others t slots b
    → Holds b.nodes p o off t
    → Searched others p o off wanted t b (search_node search (slot t) wanted b)
node_Searched search wanted o others p off (leaf i false) slots b ih m l pool e =
    subst (Searched others p o off wanted (leaf i false) b)
      (sym (node_taken search i wanted o off p b e))
      (nothing others p o off wanted (leaf i false) slots b pool e refl)
node_Searched search wanted zero others p off (leaf i true) slots b ih m l pool e =
    absurd (omega (arith, m, l))
node_Searched search wanted (suc h) others p off (leaf i true) slots b ih m l pool e =
    elim (exact_or_more wanted h l) [
      | inl same ↦
          subst (λ w. Searched others p (suc h) off w (leaf i true) b (search_node search i w b))
            same
            (subst (Searched others p (suc h) off (suc h) (leaf i true) b)
              (sym (node_exact search i (suc h) off p b e))
              (taken_exact others p (suc h) off i slots b pool e))
      | inr more ↦
          split_Searched search wanted h others p off i slots b (ih h refl) pool e more
            (split_node-SplitOf others p h off i slots b pool e (omega (arith, m, more)))
    ]
  where
    exact_or_more : (wanted h : ℕ) → wanted ≤ suc h → (suc h ≡ wanted) ⊎ (wanted < suc h)
    exact_or_more wanted h l = ground (arith, l)
node_Searched search wanted zero others p off (fork i x y) slots b ih m l pool e = absurd e
node_Searched search wanted (suc h) others p off (fork i x y) slots b ih m l pool e =
    subst (Searched others p (suc h) off wanted (fork i x y) b)
      (sym (node_fork search i wanted (slot x) b e.0.left_is))
      (search_children-Searched search wanted h others p off i x y slots b (ih h refl) pool e)

low_or_enough : (o wanted : ℕ) → (o < wanted) ⊎ (wanted ≤ o)
low_or_enough o wanted = ground arith

-- With a round of fuel for each level below, the search finds a free block of the order wanted where the
-- tree has one, takes it and nothing else, unless the pool of nodes is used up.
pub find_and_allocate-Searched :
    (n wanted o : ℕ) → min_order ≤ wanted → o < n → Searches (find_and_allocate n wanted) wanted o
find_and_allocate-Searched zero wanted o m l = absurd (omega (arith, l))
find_and_allocate-Searched (suc n) wanted o m l = λ others p off t slots b pool h.
    let at = order_of b.nodes p o off t h in
    elim (low_or_enough o wanted) [
      | inl low ↦
          subst (Searched others p o off wanted t b)
            (sym (too_low n wanted (slot t) b (omega (arith, at, low))))
            (nothing others p o off wanted t slots b pool h (room_low wanted o t low))
      | inr enough ↦
          subst (Searched others p o off wanted t b)
            (sym (
              to_node n wanted (slot t) b (omega (arith, at, enough))
                (in_use others t slots b pool)))
            (node_Searched (find_and_allocate n wanted) wanted o others p off t slots b
              (λ h e. find_and_allocate-Searched n wanted h m (omega (arith, e, l))) m enough pool
              h)
    ]
