-- ===== src/Buffer.antt =====
-- circularBuffer.c. A `CircularBuffer` that is NULL is `none`; a byte is a number.
pub mod Valid
pub mod Fifo
use tp2_so_g.Base.{ℕ, ◌+◌, ◌-◌, ◌%◌, ◌^◌, Bool, true, false, Option, none, some, List, get_or, set}
use tp2_so_g.Base.{ltb, ◌==◌, if◌then◌else◌}
use tp2_so_g.Kernel.{Kernel, mem_alloc}
pub use tp2_so_g.Kernel.{Buffer}

-- `uint64_t` increment
abbrev pub inc64 : ℕ → ℕ
inc64 n = (n + 1) % 2 ^ 64

-- The macro EOF of circularBuffer.h.
abbrev pub eof : ℕ
eof = 0

-- `fresh` is what the memory of the array holds.
unfoldable pub new_buffer : List ℕ → ℕ → Kernel → Option Buffer × Kernel
unfolding mem_alloc
new_buffer fresh max_size k =
    let (object, k1) = mem_alloc k in
    let (array, k2) = mem_alloc k1 in
    if max_size == 0 then (none, k) else elim object [
      | none ↦ (none, k1)
      | some o ↦ elim array [
        | none ↦ (none, k2)
        | some a ↦ (
          some (record {
            contents = fresh;
            max_size = max_size;
            read_idx = 0;
            write_idx = 0;
            count = 0;
          }),
          k2,
        )
      ]
    ]

abbrev pub buffer_is_full : Buffer → Bool
buffer_is_full b = b.count == b.max_size

abbrev pub buffer_has_data : Buffer → Bool
buffer_has_data b = ltb 0 b.count

unfoldable pub buffer_write : Buffer → ℕ → Bool × Buffer
buffer_write b byte = if buffer_is_full b then (false, b) else (
  true,
  record b {
    contents = set b.contents b.write_idx byte;
    write_idx = inc64 b.write_idx % b.max_size;
    count = inc64 b.count;
  },
)

unfoldable pub buffer_read : Buffer → ℕ × Buffer
buffer_read b =
    if buffer_has_data b
    then (
      get_or b.contents b.read_idx 0,
      record b { read_idx = inc64 b.read_idx % b.max_size; count = b.count - 1 },
    )
    else (eof, b)
