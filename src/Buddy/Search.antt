-- ===== src/Buddy/Search.antt =====
-- findAndAllocate, mem_alloc, mem_free and mem_status of memoryManagerBuddy.c. A walk down or up the tree
-- takes one round of fuel for each level.
use tp2_so_g.Base.{
  ℕ, zero, suc, ◌+◌, ◌-◌, ◌^◌, ◌&&◌, ◌||◌, not, Bool, true, false, Option, none, some, ltb, leb,
  ◌==◌, if◌then◌else◌,
}
use tp2_so_g.Heap.{MemoryInfo}
use tp2_so_g.Buddy.{Buddy, put_node, is_none, split_node, get_order, update_node_status, recycle}

-- The node is of the order wanted and a free leaf: it is taken.
unfoldable pub try_allocate_exact_size : ℕ → ℕ → Buddy → Option ℕ × Buddy
try_allocate_exact_size i wanted b =
    let n = b.nodes i in
    if (n.order == wanted) && is_none n.left_child && n.is_free
    then (some i, put_node i (record n { is_free = false }) b)
    else (none, b)

-- First the left child, then the right one; the node that was found brings its parent up to date.
unfoldable pub search_right : (Option ℕ → Buddy → Option ℕ × Buddy) → ℕ → Buddy → Option ℕ × Buddy
unfolding update_node_status
search_right search i b =
    let (found, b1) = search (b.nodes i).right_child b in
    elim found [ none ↦ (none, b1) | some r ↦ (some r, update_node_status i b1) ]

unfoldable pub search_children :
    (Option ℕ → Buddy → Option ℕ × Buddy) → ℕ → Buddy → Option ℕ × Buddy
unfolding update_node_status search_right
search_children search i b =
    let (found, b1) = search (b.nodes i).left_child b in
    elim found [ none ↦ search_right search i b1 | some r ↦ (some r, update_node_status i b1) ]

unfoldable pub try_split_and_allocate :
    (Option ℕ → Buddy → Option ℕ × Buddy) → ℕ → Buddy → Option ℕ × Buddy
unfolding split_node search_children
try_split_and_allocate search i b =
    if not (b.nodes i).is_free
    then (none, b)
    else (let (done, b1) = split_node i b in
        if done then search_children search i b1 else (none, b1))

-- What is done at a node whose order is large enough.
unfoldable pub search_node :
    (Option ℕ → Buddy → Option ℕ × Buddy) → ℕ → ℕ → Buddy → Option ℕ × Buddy
unfolding try_allocate_exact_size try_split_and_allocate search_children
search_node search i wanted b =
    let (exact, b1) = try_allocate_exact_size i wanted b in
    elim exact [
      | some r ↦ (some r, b1)
      | none ↦
          if is_none (b.nodes i).left_child
          then try_split_and_allocate search i b
          else search_children search i b
    ]

unfoldable pub find_and_allocate : ℕ → ℕ → Option ℕ → Buddy → Option ℕ × Buddy
unfolding search_node
find_and_allocate zero wanted o b = (none, b)
find_and_allocate (suc fuel) wanted none b = (none, b)
find_and_allocate (suc fuel) wanted (some i) b =
    if leb b.node_count i || ltb (b.nodes i).order wanted
    then (none, b)
    else search_node (find_and_allocate fuel wanted) i wanted b

-- NULL is `none`.
unfoldable pub mem_alloc : ℕ → Buddy → Option ℕ × Buddy
unfolding get_order find_and_allocate
mem_alloc bytes b =
    if bytes == 0
    then (none, b)
    else (let (found, b1) =
          find_and_allocate (suc b.max_order) (get_order bytes b) b.root_index b in
        elim found [
          | none ↦ (none, b1)
          | some i ↦ (some (b1.min_address + (b1.nodes i).offset), b1)
        ])

-- The scan for the allocated leaf, over the `n` nodes from `i` on.
unfoldable pub find_from : ℕ → ℕ → ℕ → Buddy → Option ℕ
find_from zero i offset b = none
find_from (suc n) i offset b =
    let next = find_from n (suc i) offset b in
    if ((b.nodes i).offset == offset) && not (b.nodes i).is_free && is_none (b.nodes i).left_child
    then some i
    else next

unfoldable pub find_node_by_address : ℕ → Buddy → Option ℕ
unfolding find_from
find_node_by_address address b =
    if ltb address b.min_address || leb (b.min_address + b.total_size) address
    then none
    else find_from b.node_count 0 (address - b.min_address) b

unfoldable pub recycle_child_nodes : ℕ → ℕ → Buddy → Buddy
unfolding recycle
recycle_child_nodes l r b = recycle r (recycle l b)

-- Two free leaves become their parent, which is then a leaf.
unfoldable pub join : ℕ → ℕ → ℕ → Buddy → Buddy
unfolding recycle_child_nodes
join p l r b =
    let b1 = recycle_child_nodes l r (put_node p (record (b.nodes p) { is_free = true }) b) in
    put_node p (record (b1.nodes p) { left_child = none; right_child = none }) b1

abbrev pub can_merge : ℕ → ℕ → Buddy → Bool
can_merge l r b =
    (b.nodes l).is_free
    && (b.nodes r).is_free
    && is_none (b.nodes l).left_child
    && is_none (b.nodes r).left_child

unfoldable pub try_merge : ℕ → ℕ → Buddy → Buddy
unfolding join
try_merge zero i b = b
try_merge (suc fuel) i b = if leb b.node_count i then b else elim (b.nodes i).parent [
  | none ↦ b
  | some p ↦ elim (b.nodes p).left_child [
    | none ↦ b
    | some l ↦ elim (b.nodes p).right_child [
      | none ↦ b
      | some r ↦ let up = try_merge fuel p (join p l r b) in if can_merge l r b then up else b
    ]
  ]
]

unfoldable pub mem_free : Option ℕ → Buddy → Buddy
unfolding find_node_by_address update_node_status try_merge
mem_free none b = b
mem_free (some address) b = elim (find_node_by_address address b) [
  | none ↦ b
  | some i ↦
      let b1 = put_node i (record (b.nodes i) { is_free = true }) b in
      let b2 : Buddy = elim (b1.nodes i).parent [ none ↦ b1 | some p ↦ update_node_status p b1 ] in
      try_merge (suc b.max_order) i b2
]

-- allocatedMemory, freeCount and freeMemory; the count of allocated blocks is not read.
unfoldable pub count_leaf_nodes : ℕ → Option ℕ → Buddy → ℕ × ℕ × ℕ
count_leaf_nodes zero o b = (0, 0, 0)
count_leaf_nodes (suc fuel) none b = (0, 0, 0)
count_leaf_nodes (suc fuel) (some i) b =
    let n = b.nodes i in
    let (a, f, m) = count_leaf_nodes fuel n.left_child b in
    let (a', f', m') = count_leaf_nodes fuel n.right_child b in
    let orphan = is_none n.parent && not (elim b.root_index [ none ↦ false | some r ↦ r == i ]) in
    if leb b.node_count i || orphan
    then (0, 0, 0)
    else (if is_none n.left_child
        then (if n.is_free then (0, 1, 2 ^ n.order) else (2 ^ n.order, 0, 0))
        else (a + a', f + f', m + m'))

unfoldable pub mem_status : Buddy → MemoryInfo
unfolding count_leaf_nodes
mem_status b =
    let (a, f, m) = count_leaf_nodes (suc b.max_order) b.root_index b in
    record { total = b.total_size; occupied = a; free = m; fragments = f }
