-- ===== src/Heap.antt =====
-- memory/memoryManager.c: the first-fit allocator that the default build takes.
--
-- The headers of the blocks are a table by address, so a pointer to a Block is its address and NULL
-- is `none`; HEADER_SIZE is the 32 bytes of struct Block. A walk along `next` takes fuel: one step
-- for each byte of the heap, which is more than there are blocks.
pub mod Layout
pub mod Fit
pub mod Release
pub mod Freed
pub mod Pieces
pub mod Returns
pub mod Calls
pub mod Status
use tp2_so_g.Base.{
  ℕ, zero, suc, ◌+◌, ◌-◌, ◌*◌, ◌/◌, ◌%◌, ◌^◌, Bool, true, false, not, ◌||◌, Option, none, some,
  update,
}
use tp2_so_g.Base.{ltb, leb, ◌==◌, if◌then◌else◌}

-- `struct Block`
pub record Block : Type 0 where
  pub size : ℕ
  pub free : Bool
  pub prev : Option ℕ
  pub next : Option ℕ

-- The memory of the heap and the two globals.
pub record Heap : Type 0 where
  pub memory : ℕ → Block
  pub base_block : Option ℕ
  pub total_bytes : ℕ

-- `MemoryInfo`
pub record MemoryInfo : Type 0 where
  pub total : ℕ
  pub occupied : ℕ
  pub free : ℕ
  pub fragments : ℕ

abbrev pub header_size : ℕ
header_size = 32

abbrev pub alignment : ℕ
alignment = 8

-- The addition in `uint64_t` comes round before the mask is taken.
abbrev pub align_up : ℕ → ℕ
align_up n = (n + (alignment - 1)) % 2 ^ 64 / alignment * alignment

unfoldable pub mem_init : ℕ → ℕ → Heap → Heap
mem_init start size h = record {
  memory = update h.memory start (record {
    size = (size + (2 ^ 64 - header_size)) % 2 ^ 64;
    free = true;
    prev = none;
    next = none;
  });
  base_block = some start;
  total_bytes = size;
}

-- `if (b->next) b->next->prev = ...`
unfoldable pub set_prev : Option ℕ → Option ℕ → (ℕ → Block) → ℕ → Block
set_prev next prev m = elim next [ none ↦ m | some c ↦ update m c (record (m c) { prev = prev }) ]

-- The block `b` is cut after `size` bytes.
unfoldable pub split_block : (ℕ → Block) → ℕ → ℕ → ℕ → Block
unfolding set_prev
split_block m b size =
    let split = b + header_size + size in
    let m1 = update m split (record {
      size = (m b).size - size - header_size;
      free = true;
      prev = some b;
      next = (m b).next;
    }) in
    let m2 = set_prev (m b).next (some split) m1 in
    update m2 b (record (m2 b) { next = some split; size = size })

unfoldable pub take_block : (ℕ → Block) → ℕ → ℕ → ℕ → Block
unfolding split_block
take_block m b size =
    let m1 =
      if leb ((size + header_size + alignment) % 2 ^ 64) (m b).size
      then split_block m b size
      else m in
    update m1 b (record (m1 b) { free = false })

-- The loop of mem_alloc from block `b` on.
unfoldable pub first_fit : ℕ → (ℕ → Block) → ℕ → Option ℕ → Option ℕ × (ℕ → Block)
unfolding take_block
first_fit zero m size b = (none, m)
first_fit (suc fuel) m size none = (none, m)
first_fit (suc fuel) m size (some b) =
    let rest = first_fit fuel m size (m b).next in
    if not (m b).free || ltb (m b).size size
    then rest
    else (some (b + header_size), take_block m b size)

unfoldable pub mem_alloc : ℕ → Heap → Option ℕ × Heap
unfolding first_fit
mem_alloc size h = elim h.base_block [
  | none ↦ (none, h)
  | some b ↦
      let (ptr, m) = first_fit h.total_bytes h.memory (align_up size) (some b) in
      if size == 0 then (none, h) else (ptr, record h { memory = m })
]

-- `b` takes in the block `c`.
unfoldable pub absorb : (ℕ → Block) → ℕ → ℕ → ℕ → Block
unfolding set_prev
absorb m b c =
    let m1 = update m b (record (m b) {
      size = ((m b).size + (header_size + (m c).size)) % 2 ^ 64;
      next = (m c).next;
    }) in
    set_prev (m c).next (some b) m1

unfoldable pub merge_next : (ℕ → Block) → ℕ → ℕ → Block
unfolding absorb
merge_next m b = elim (m b).next [ none ↦ m | some c ↦ if (m c).free then absorb m b c else m ]

unfoldable pub merge_prev : (ℕ → Block) → ℕ → ℕ → Block
unfolding absorb
merge_prev m b = elim (m b).prev [ none ↦ m | some c ↦ if (m c).free then absorb m c b else m ]

unfoldable pub mem_free : Option ℕ → Heap → Heap
unfolding merge_next merge_prev
mem_free none h = h
mem_free (some ptr) h =
    let b = ptr - header_size in
    let m = update h.memory b (record (h.memory b) { free = true }) in
    record h { memory = merge_prev (merge_next m b) b }

-- The loop of mem_status, from block `b` on.
unfoldable pub sum_free : ℕ → (ℕ → Block) → Option ℕ → ℕ → ℕ → ℕ × ℕ
sum_free zero m b free fragments = (free, fragments)
sum_free (suc fuel) m none free fragments = (free, fragments)
sum_free (suc fuel) m (some b) free fragments =
    let counted = sum_free fuel m (m b).next ((free + (m b).size) % 2 ^ 64) (fragments + 1) in
    let passed = sum_free fuel m (m b).next free fragments in if (m b).free then counted else passed

unfoldable pub mem_status : Heap → MemoryInfo
unfolding sum_free
mem_status h =
    let (free, fragments) = sum_free h.total_bytes h.memory h.base_block 0 0 in
    record {
      total = h.total_bytes;
      free = free;
      fragments = fragments;
      occupied = (h.total_bytes + (2 ^ 64 - free)) % 2 ^ 64;
    }
