-- ===== src/Queue.antt =====
-- queue.c: the linked list behind the ready queue and every other queue of the kernel.
--
-- A node is named by its address and NULL is `none`; the table of nodes holds `none` where no node is
-- allocated. An operation that would follow NULL or a freed node has no result.
pub mod Chain
pub mod Fifo
pub mod Remove
pub mod Filter
use tp2_so_g.Base.{
  ℕ, zero, suc, ◌+◌, ◌-◌, Bool, true, false, Option, none, some, List, [], ◌∷◌, update,
}
use tp2_so_g.Base.{◌==◌, if◌then◌else◌}

-- `struct node`
pub record Node : Type 0 where
  pub data_ptr : ℕ
  pub tail : Option ℕ

-- `queueCDT`, and the nodes in memory.
pub record Queue : Type 0 where
  pub first : Option ℕ
  pub last : Option ℕ
  pub count : ℕ
  pub nodes : ℕ → Option Node

-- `queue->first = queue->last = NULL`, the queue object being there.
abbrev pub new_queue : (ℕ → Option Node) → Queue
new_queue nodes = record { first = none; last = none; count = 0; nodes = nodes }

abbrev pub get_queue_size : Queue → ℕ
get_queue_size q = q.count

abbrev pub is_queue_empty : Queue → Bool
is_queue_empty q = get_queue_size q == 0

-- `node->tail = tail`
abbrev pub set_tail : ℕ → Option ℕ → (ℕ → Option Node) → Option (ℕ → Option Node)
set_tail a tail nodes = elim (nodes a) [
  | none ↦ none
  | some n ↦ some (update nodes a (some (record n { tail = tail })))
]

-- The node goes behind the last one.
unfoldable pub append_node : ℕ → Queue → Option Queue
append_node a q = elim q.last [
  | none ↦ none
  | some l ↦ elim (set_tail l (some a) q.nodes) [
    | none ↦ none
    | some nodes ↦ some (record q { last = some a; nodes = nodes })
  ]
]

-- `address` is what mem_alloc returns for the node.
unfoldable pub enqueue : Option ℕ → ℕ → Queue → Option (Bool × Queue)
unfolding append_node
enqueue none element q = some (false, q)
enqueue (some a) element q =
    let nodes = update q.nodes a (some (record { data_ptr = element; tail = none })) in
    let q1 = record q { nodes = nodes } in
    let linked =
      if is_queue_empty q1
      then some (record q1 { first = some a; last = some a })
      else append_node a q1 in
    elim linked [ none ↦ none | some q2 ↦ some (true, record q2 { count = suc q2.count }) ]

-- `none` inside is the NULL of an empty queue.
unfoldable pub poll_queue : Queue → Option (Option ℕ × Queue)
poll_queue q =
    let empty = is_queue_empty q in
    if empty then some (none, q) else elim q.first [
      | none ↦ none
      | some a ↦ elim (q.nodes a) [
        | none ↦ none
        | some n ↦
            let left = q.count - 1 in
            some (
              some n.data_ptr,
              record {
                first = n.tail;
                last = if left == 0 then none else q.last;
                count = left;
                nodes = update q.nodes a none;
              },
            )
      ]
    ]

abbrev pub same_node : ℕ → Option ℕ → Bool
same_node a none = false
same_node a (some b) = a == b

-- The link to the node that goes: the head of the queue, or the tail of the node before.
unfoldable pub bypass : Option ℕ → Option ℕ → Queue → Option Queue
bypass none next q = some (record q { first = next })
bypass (some p) next q = elim (set_tail p next q.nodes) [
  | none ↦ none
  | some nodes ↦ some (record q { nodes = nodes })
]

unfoldable pub remove_node_from_queue : ℕ → Option ℕ → Option ℕ → Queue → Option Queue
unfolding bypass
remove_node_from_queue a previous next q = elim (bypass previous next q) [
  | none ↦ none
  | some q1 ↦ some (record {
    first = q1.first;
    last = if same_node a q1.last then previous else q1.last;
    count = q1.count - 1;
    nodes = update q1.nodes a none;
  })
]

-- The loop of removeFromQueue; `matches` says where `compare` returns 0.
unfoldable pub remove_loop : ℕ → (ℕ → Bool) → Option ℕ → Option ℕ → ℕ → Queue → Option (ℕ × Queue)
unfolding remove_node_from_queue
remove_loop fuel matches previous none removed q = some (removed, q)
remove_loop zero matches previous (some a) removed q = none
remove_loop (suc fuel) matches previous (some a) removed q = elim (q.nodes a) [
  | none ↦ none
  | some n ↦
      if matches n.data_ptr
      then elim (remove_node_from_queue a previous n.tail q) [
        | none ↦ none
        | some q1 ↦ remove_loop fuel matches previous n.tail (suc removed) q1
      ]
      else remove_loop fuel matches (some a) n.tail removed q
]

-- One step of fuel for each node.
unfoldable pub remove_from_queue : (ℕ → Bool) → Queue → Option (ℕ × Queue)
unfolding remove_loop
remove_from_queue matches q = elim (remove_loop q.count matches none q.first 0 q) [
  | none ↦ none
  | some (removed, q1) ↦
      some (removed, if is_queue_empty q1 then record q1 { first = none; last = none } else q1)
]

-- The loop of freeQueue.
unfoldable pub free_loop : ℕ → Option ℕ → (ℕ → Option Node) → Option (ℕ → Option Node)
free_loop fuel none nodes = some nodes
free_loop zero (some a) nodes = none
free_loop (suc fuel) (some a) nodes = elim (nodes a) [
  | none ↦ none
  | some n ↦ free_loop fuel n.tail (update nodes a none)
]

unfoldable pub free_queue : Queue → Option (ℕ → Option Node)
unfolding free_loop
free_queue q = free_loop q.count q.first q.nodes
