-- ===== src/Tests/Buddies.antt =====
-- The buddy system on 64 bytes.
use tp2_so_g.Base.{ℕ, ◌≡◌, refl, false, none, some}
use tp2_so_g.Base.{true, arith}
use tp2_so_g.Buddy.{Node, Buddy, mem_init, get_order}
use tp2_so_g.Buddy.Trees.{Tree, leaf}
use tp2_so_g.Buddy.Orders.{IsOrder, get_order-IsOrder}
use tp2_so_g.Buddy.Calls.{IsHeap, Granted, mem_init-IsHeap, mem_alloc-Granted}
use tp2_so_g.Buddy.Search.{mem_alloc, mem_free, mem_status}

abbrev blank : ℕ → Node
blank i = record {
  is_free = false;
  order = 0;
  offset = 0;
  left_child = none;
  right_child = none;
  parent = none;
}

small : Buddy
unfolding mem_init
small = mem_init 4096 64 blank

first_two : (mem_alloc 10 small).0 ≡ some 4096
unfolding small mem_alloc
first_two = refl

second : (mem_alloc 20 (mem_alloc 10 small).1).0 ≡ some 4128
unfolding small mem_alloc
second = refl

third : (mem_alloc 3 (mem_alloc 20 (mem_alloc 10 small).1).1).0 ≡ some 4112
unfolding small mem_alloc
third = refl

all_back :
    mem_status (mem_free (some 4128) (mem_free (some 4096) (mem_alloc 20 (mem_alloc 10 small).1).1))
    ≡ record { total = 64; occupied = 0; free = 64; fragments = 1 }
unfolding small mem_alloc mem_free mem_status
all_back = refl

-- More than the whole memory is granted.
too_much : (mem_alloc 1000 small).0 ≡ some 4096
unfolding small mem_alloc
too_much = refl

abbrev start : Buddy
start = mem_init 4096 64 blank

mem_alloc-Granted_example :
    (t' : Tree) × IsHeap (mem_alloc 10 start).1 t'
    × Granted start.min_address start.max_order
        (get_order 10 start)
        (leaf 0 true)
        t'
        (mem_alloc 10 start).1
        (mem_alloc 10 start).0
mem_alloc-Granted_example =
    mem_alloc-Granted 10 start (leaf 0 true)
      (mem_init-IsHeap 4096 64 blank (omega arith) (omega arith)) (omega arith)

get_order-IsOrder_example : IsOrder 4 20 start.max_order (get_order 20 start)
get_order-IsOrder_example =
    let h = mem_init-IsHeap 4096 64 blank (omega arith) (omega arith) in
    get_order-IsOrder 20 start h.low h.high
