-- ===== src/Tests/Queues.antt =====
-- A queue of two pids.
use tp2_so_g.Base.{ℕ, refl, Option, none, some, List, [], ◌∷◌, ◌==◌, if◌then◌else◌}
use tp2_so_g.Queue.{Node, Queue, remove_from_queue}
use tp2_so_g.Queue.Chain.{Cell}
use tp2_so_g.Queue.Fifo.{IsQueue}
use tp2_so_g.Queue.Filter.{Leaves, kept, matching, remove_from_queue-Leaves}

-- 7 at the address 100, and then 9 at 200.
abbrev two_nodes : ℕ → Option Node
two_nodes i =
    if i == 100
    then some (record { data_ptr = 7; tail = some 200 })
    else (if i == 200 then some (record { data_ptr = 9; tail = none }) else none)

abbrev pair : Queue
pair = record { first = some 100; last = some 200; count = 2; nodes = two_nodes }

abbrev cells : List Cell
cells = record { at = 100; element = 7 } ∷ record { at = 200; element = 9 } ∷ []

pair-IsQueue : IsQueue cells pair
pair-IsQueue = record {
  first = refl;
  last = refl;
  count = refl;
  chain = (refl, (refl, tt));
  apart = refl;
}

remove_from_queue-Leaves_example :
    Leaves
      (remove_from_queue (λ d. d == 9) pair)
      (matching (λ d. d == 9) cells)
      (kept (λ d. d == 9) cells)
remove_from_queue-Leaves_example = remove_from_queue-Leaves (λ d. d == 9) cells pair pair-IsQueue
