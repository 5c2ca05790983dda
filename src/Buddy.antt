-- ===== src/Buddy.antt =====
-- Kernel/memory/memoryManagerBuddy.c: the pool of nodes and the tree of blocks in it. An index is an
-- Option, whose `none` is -1. Sizes are below 2^63, so that no shift leaves the word.
pub mod Orders
pub mod Search
pub mod Children
pub mod Blocks
pub mod Calls
pub mod Find
pub mod Found
pub mod Slots
pub mod Split
pub mod Trees
use tp2_so_g.Base.{
  ℕ, zero, suc, ◌+◌, ◌-◌, ◌*◌, ◌/◌, ◌%◌, ◌^◌, ◌&&◌, ◌||◌, not, Bool, true, false, Option, none,
  some, update, ltb, leb, ◌==◌, if◌then◌else◌,
}

abbrev pub min_order : ℕ
min_order = 4

abbrev pub max_nodes : ℕ
max_nodes = 8192

-- `BuddyNode`
pub record Node : Type 0 where
  pub is_free : Bool
  pub order : ℕ
  pub offset : ℕ
  pub left_child : Option ℕ
  pub right_child : Option ℕ
  pub parent : Option ℕ

-- The globals of the file.
pub record Buddy : Type 0 where
  pub min_address : ℕ
  pub total_size : ℕ
  pub max_order : ℕ
  pub nodes : ℕ → Node
  pub node_count : ℕ
  pub root_index : Option ℕ
  pub first_free_node : Option ℕ

-- The loop of log2Int takes at most one round for each bit.
unfoldable pub log2_loop : ℕ → ℕ → ℕ
log2_loop zero n = 0
log2_loop (suc fuel) n = let rest = log2_loop fuel (n / 2) in if leb 2 n then suc rest else 0

unfoldable pub log2_int : ℕ → ℕ
unfolding log2_loop
log2_int n = log2_loop 64 n

abbrev pub put_node : ℕ → Node → Buddy → Buddy
put_node i n b = record b { nodes = update b.nodes i n }

-- `nodeIdx < 0 || nodeIdx >= nodeCount`
abbrev pub bad_index : Option ℕ → Buddy → Bool
bad_index none b = true
bad_index (some i) b = leb b.node_count i

abbrev pub is_none : Option ℕ → Bool
is_none none = true
is_none (some i) = false

-- The slot that createNode takes: a recycled one where there is one.
unfoldable pub take_slot : Buddy → Option ℕ × Buddy
take_slot b = elim b.first_free_node [
  | some i ↦ (some i, record b { first_free_node = (b.nodes i).left_child })
  | none ↦
      if leb max_nodes b.node_count
      then (none, b)
      else (some b.node_count, record b { node_count = suc b.node_count })
]

unfoldable pub create_node : ℕ → ℕ → Option ℕ → Buddy → Option ℕ × Buddy
unfolding take_slot
create_node order offset parent b =
    let (slot, b1) = take_slot b in
    elim slot [
      | none ↦ (none, b1)
      | some i ↦ (
        some i,
        put_node i
            (record {
              is_free = true;
              order = order;
              offset = offset;
              left_child = none;
              right_child = none;
              parent = parent;
            })
            b1,
      )
    ]

-- A slot goes back to the pool.
unfoldable pub recycle : ℕ → Buddy → Buddy
recycle i b =
    record (put_node i (record (b.nodes i) { parent = none; left_child = b.first_free_node }) b) {
      first_free_node = some i;
    }

unfoldable pub link_children : ℕ → ℕ → ℕ → Buddy → Buddy
link_children i l r b =
    put_node i (record (b.nodes i) { left_child = some l; right_child = some r }) b

-- The two children of a leaf that is split; true where it succeeds.
unfoldable pub make_children : ℕ → Buddy → Bool × Buddy
unfolding create_node recycle link_children
make_children i b =
    let half = (b.nodes i).order - 1 in
    let at = (b.nodes i).offset in
    let (left, b1) = create_node half at (some i) b in
    elim left [
      | none ↦ (false, b1)
      | some l ↦
          let (right, b2) = create_node half (at + 2 ^ half) (some i) b1 in
          elim right [ none ↦ (false, recycle l b2) | some r ↦ (true, link_children i l r b2) ]
    ]

unfoldable pub split_node : ℕ → Buddy → Bool × Buddy
unfolding make_children
split_node i b =
    if leb b.node_count i || leb (b.nodes i).order min_order
    then (false, b)
    else elim (b.nodes i).left_child [ some l ↦ (true, b) | none ↦ make_children i b ]

-- The loop of mem_init that looks for the greatest order.
unfoldable pub raise_order : ℕ → ℕ → ℕ → ℕ → ℕ
raise_order zero order size capacity = order
raise_order (suc fuel) order size capacity =
    let next = raise_order fuel (suc order) size capacity in
    if leb (2 ^ suc order) size && ltb order capacity then next else order

unfoldable pub mem_init : ℕ → ℕ → (ℕ → Node) → Buddy
unfolding create_node raise_order log2_int
mem_init start size old =
    let top = raise_order 64 min_order size (log2_int size) in
    let empty : Buddy = record {
      min_address = start;
      total_size = size;
      max_order = top;
      nodes = old;
      node_count = 0;
      root_index = none;
      first_free_node = none;
    } in
    let (root, b) = create_node top 0 none empty in record b { root_index = root }

-- The loop of getOrder.
unfoldable pub order_loop : ℕ → ℕ → ℕ → ℕ → ℕ
order_loop zero order size top = order
order_loop (suc fuel) order size top =
    let next = order_loop fuel (suc order) size top in
    if ltb (2 ^ order) size && ltb order top then next else order

unfoldable pub get_order : ℕ → Buddy → ℕ
unfolding order_loop
get_order size b = order_loop 64 min_order size b.max_order

abbrev pub node_is_free : Option ℕ → Buddy → Bool
node_is_free none b = false
node_is_free (some i) b = (b.nodes i).is_free

unfoldable pub update_node_status : ℕ → Buddy → Buddy
update_node_status i b = if leb b.node_count i then b else elim (b.nodes i).left_child [
  | none ↦ b
  | some l ↦
      let free = (b.nodes l).is_free && node_is_free (b.nodes i).right_child b in
      put_node i (record (b.nodes i) { is_free = free }) b
]
