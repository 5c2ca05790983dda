-- ===== src/Buffer/Valid.antt =====
-- The representation invariant of the circular buffer, which every operation keeps.
use tp2_so_g.Base.{
  ℕ, ◌+◌, ◌-◌, ◌%◌, ◌^◌, ◌≤◌, ◌<◌, ◌≡◌, some, List, arith, length, length-set, if◌then◌else◌, ltb,
}
use native.Mathlib.Nat.{mod-eq_of_lt, mod-eq-sub-mod}
use native.Mathlib.Decide.{dec_lt}
use tp2_so_g.Kernel.{Kernel}
use tp2_so_g.Buffer.{Buffer, new_buffer, buffer_write, buffer_read}

pub record IsValid (b : Buffer) : Type 0 where
  pub positive : 0 < b.max_size
  pub word : b.max_size < 2 ^ 64
  pub storage : b.max_size ≤ length b.contents
  pub read_in : b.read_idx < b.max_size
  pub write_in : b.write_idx < b.max_size
  pub count_in : b.count ≤ b.max_size
  pub written : b.write_idx ≡ (b.read_idx + b.count) % b.max_size

-- The remainder of a number below twice the divisor.
pub mod_twice : (x m : ℕ) → 0 < m → x < m + m → x % m ≡ (if ltb x m then x else x - m)
mod_twice x m p h = elim (dec_lt x m) [
  | yes lt ↦ ground (arith, mod-eq_of_lt lt)
  | no ge ↦ ground (
    arith,
    mod-eq-sub-mod {n = x} {m = m} (omega arith),
    mod-eq_of_lt {n = x - m} {m = m} (omega arith),
  )
]

-- What newBuffer returns is valid and empty, if the array has the size asked for.
pub new_buffer-IsValid :
    (fresh : List ℕ) (max_size : ℕ) (k : Kernel) {b : Buffer}
    → length fresh ≡ max_size
    → max_size < 2 ^ 64
    → (new_buffer fresh max_size k).0 ≡ some b
    → IsValid b × (b.count ≡ 0) × (b.max_size ≡ max_size)
unfolding new_buffer
new_buffer-IsValid fresh max_size k h w e = ground (arith, mod-eq_of_lt {n = 0} {m = max_size})

module _ {b : Buffer} (v : IsValid b) where
  written_cases : b.write_idx ≡ (
      if ltb (b.read_idx + b.count) b.max_size
      then b.read_idx + b.count
      else b.read_idx + b.count - b.max_size)
  written_cases = ground (arith, v.written, mod_twice (b.read_idx + b.count) b.max_size)

  pub buffer_write-IsValid : (x : ℕ) → IsValid (buffer_write b x).1
  unfolding buffer_write
  buffer_write-IsValid x = ground (
    arith,
    written_cases,
    length-set b.contents b.write_idx x,
    mod_twice (b.write_idx + 1) b.max_size,
    mod_twice (b.read_idx + (b.count + 1)) b.max_size,
  )

  pub buffer_read-IsValid : IsValid (buffer_read b).1
  unfolding buffer_read
  buffer_read-IsValid = ground (
    arith,
    written_cases,
    mod_twice (b.read_idx + 1) b.max_size,
    mod_twice ((b.read_idx + 1) % b.max_size + (b.count - 1)) b.max_size,
  )
