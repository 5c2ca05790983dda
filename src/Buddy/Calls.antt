-- ===== src/Buddy/Calls.antt =====
-- mem_init and mem_alloc of memoryManagerBuddy.c.
use tp2_so_g.Base.{
  ℕ, suc, ◌+◌, ◌^◌, ◌≡◌, ◌≤◌, ◌<◌, ◌⊎◌, refl, ◌∙◌, sym, ap, subst, true, Option, none, some, List,
  [], arith, inl, inr,
}
use tp2_so_g.Buddy.{Node, Buddy, min_order, mem_init, get_order}
use tp2_so_g.Buddy.Search.{find_and_allocate, mem_alloc}
use tp2_so_g.Buddy.Trees.{Tree, leaf, slot, used, hit, room, exact, Holds, IsPool}
use tp2_so_g.Buddy.Slots.{Spent}
use tp2_so_g.Buddy.Orders.{get_order-IsOrder, top_order-bounds}
use tp2_so_g.Buddy.Found.{taken, refused, Searched}
use tp2_so_g.Buddy.Find.{find_and_allocate-Searched}
use tp2_so_g.Buddy.Blocks.{IsInside, used-IsInside, used-AreApart, used_once}

-- The pool holds the tree `t` of the whole memory.
pub record IsHeap (b : Buddy) (t : Tree) : Type 0 where
  pub root : b.root_index ≡ some (slot t)
  pub slots : List ℕ
  pub pool : IsPool (λ j. 0) t slots b
  pub holds : Holds b.nodes none b.max_order 0 t
  pub low : min_order ≤ b.max_order
  pub high : b.max_order ≤ 63

-- Block of order `k` at offset `a` in the tree after the call, next to those before it.
pub record IsNew (o : ℕ) (t : Tree) (a k : ℕ) : Type 0 where
  pub inside : IsInside 0 o a k
  pub was_free : used o 0 t a k ≡ 0
  pub apart : (x m : ℕ) → 1 ≤ used o 0 t x m → (a + 2 ^ k ≤ x) ⊎ (x + 2 ^ m ≤ a)

-- What a request gives: a new block, or nothing.
pub data Granted (min top k : ℕ) (t t' : Tree) (b' : Buddy) (out : Option ℕ) : Type 0 where
  given :
      (a : ℕ)
      → out ≡ some (min + a)
      → IsNew top t a k
      → ((x m : ℕ) → used top 0 t' x m ≡ used top 0 t x m + hit a k x m)
      → Granted min top k t t' b' out
  denied :
      out ≡ none
      → ((x m : ℕ) → used top 0 t' x m ≡ used top 0 t x m)
      → Spent b' ⊎ (room k top t ≡ 0)
      → exact k top t ≡ 0
      → Granted min top k t t' b' out

hit_self : (a k : ℕ) → hit a k a k ≡ 1
hit_self a k = ground arith

is_new :
    (top : ℕ) (t t' : Tree) (a k : ℕ)
    → ((x m : ℕ) → used top 0 t' x m ≡ used top 0 t x m + hit a k x m)
    → IsNew top t a k
is_new top t t' a k more =
    let free : used top 0 t a k ≡ 0 =
      omega (arith, more a k, hit_self a k, used_once top 0 t' a k) in
    let here : 1 ≤ used top 0 t' a k = omega (arith, more a k, hit_self a k) in
    record {
      inside = used-IsInside top 0 t' a k here;
      was_free = free;
      apart = λ x m u. elim (used-AreApart top 0 t' a k x m here (omega (arith, more x m, u))) [
        | inl (e, f) ↦
            let same : used top 0 t a k ≡ used top 0 t x m =
              ap (λ y. used top 0 t y k) e ∙ ap (used top 0 t x) f in
            absurd (omega (arith, same, free, u))
        | inr apart ↦ apart
      ];
    }

alloc_found :
    (bytes r i : ℕ) (b : Buddy)
    → 1 ≤ bytes
    → b.root_index ≡ some r
    → (find_and_allocate (suc b.max_order) (get_order bytes b) (some r) b).0 ≡ some i
    → mem_alloc bytes b ≡ (
      some (
          (find_and_allocate (suc b.max_order) (get_order bytes b) (some r) b).1.min_address
          + ((find_and_allocate (suc b.max_order) (get_order bytes b) (some r) b).1.nodes
              i).offset),
      (find_and_allocate (suc b.max_order) (get_order bytes b) (some r) b).1,
    )
unfolding mem_alloc
alloc_found bytes r i b l e f = ground (arith, l, e, f)

alloc_none :
    (bytes r : ℕ) (b : Buddy)
    → 1 ≤ bytes
    → b.root_index ≡ some r
    → (find_and_allocate (suc b.max_order) (get_order bytes b) (some r) b).0 ≡ none
    → mem_alloc bytes b
      ≡ (none, (find_and_allocate (suc b.max_order) (get_order bytes b) (some r) b).1)
unfolding mem_alloc
alloc_none bytes r b l e f = ground (arith, l, e, f)

why_denied : (x : ℕ) (b b' : Buddy) → Spent b' ⊎ ((x ≡ 0) × (b' ≡ b)) → Spent b' ⊎ (x ≡ 0)
why_denied x b b' (inl s) = inl s
why_denied x b b' (inr (e, same)) = inr e

-- mem_alloc of the buddy system on a pool that holds a tree: it returns a block of the order of
-- getOrder that lies in the memory and overlaps no allocated block, which is then allocated and the
-- only change; or it returns NULL and the allocated blocks stay. It returns NULL only where no free block
-- is of that very order, and where no larger one is free either or the nodes for its halves are missing:
-- all 8192 have been handed out and at most one of them is there to be used again. The pool holds a tree
-- afterwards.
pub mem_alloc-Granted :
    (bytes : ℕ) (b : Buddy) (t : Tree)
    → IsHeap b t
    → 1 ≤ bytes
    → (t' : Tree) × IsHeap (mem_alloc bytes b).1 t'
      × Granted b.min_address b.max_order
          (get_order bytes b)
          t
          t'
          (mem_alloc bytes b).1
          (mem_alloc bytes b).0
mem_alloc-Granted bytes b t h l =
    let k = get_order bytes b in
    let order = get_order-IsOrder bytes b h.low h.high in
    let s : Searched (λ j. 0) none b.max_order 0 k t b
        (find_and_allocate (suc b.max_order) k (some (slot t)) b) =
      find_and_allocate-Searched (suc b.max_order) k b.max_order order.above (omega arith) (λ j. 0)
        none 0 t h.slots b h.pool h.holds in
    let b' = (find_and_allocate (suc b.max_order) k (some (slot t)) b).1 in
    let top : b'.max_order ≡ b.max_order = s.became.steady.top_kept in
    let heap : IsHeap b' s.tree = record {
      root = s.became.steady.root_kept ∙ h.root ∙ ap some (sym s.same_slot);
      slots = s.became.slots;
      pool = s.became.pool;
      holds = subst (λ o. Holds b'.nodes none o 0 s.tree) (sym top) s.became.holds;
      low = omega (arith, top, h.low);
      high = omega (arith, top, h.high);
    } in
    elim s.outcome [
      | taken i e u lf more ↦
          subst
            (λ (out : Option ℕ × Buddy).
              (t' : Tree) × IsHeap out.1 t' × Granted b.min_address b.max_order k t t' out.1 out.0)
            (sym (alloc_found bytes (slot t) i b l h.root e))
            (
              s.tree,
              heap,
              given (b'.nodes i).offset
                  (ap (λ m. some (m + (b'.nodes i).offset)) s.became.steady.start_kept)
                  (is_new b.max_order t s.tree (b'.nodes i).offset k more) more,
            )
      | refused e same why none_exact ↦
          subst
            (λ (out : Option ℕ × Buddy).
              (t' : Tree) × IsHeap out.1 t' × Granted b.min_address b.max_order k t t' out.1 out.0)
            (sym (alloc_none bytes (slot t) b l h.root e))
            (s.tree, heap, denied refl same (why_denied (room k b.max_order t) b b' why) none_exact)
    ]

-- mem_init makes of a memory of at least 16 bytes one free block.
pub mem_init-IsHeap :
    (start size : ℕ) (old : ℕ → Node)
    → 2 ^ 4 ≤ size
    → size < 2 ^ 63
    → IsHeap (mem_init start size old) (leaf 0 true)
unfolding mem_init
mem_init-IsHeap start size old l u =
    let (a, b) = top_order-bounds size l u in
    record {
      root = refl;
      slots = [];
      pool = record { chain = tt; single = λ j. ground arith; inside = λ j l. ground arith };
      holds = refl;
      low = a;
      high = b;
    }
