-- ===== src/Stream/Space.antt =====
-- The space of a pipe and the signal that there is data.
use tp2_so_g.Base.{
  ℕ, zero, suc, ◌+◌, ◌≡◌, refl, sym, ap, subst, Bool, true, List, [], ◌∷◌, arith, inl, inr, length,
  length-append, leb,
}
use tp2_so_g.Pipe.{pipe_buf_size}
use tp2_so_g.Stream.{
  Phase, outside, wants_data, has_data, reads, wants_now, reads_now, wants_write, writes, has_space,
  Stream, drained, left_over, goes, Step, call_read, take_data, lock_read, finish_read, end_of_file,
  wait_again, call_read_now, lock_read_now, finish_read_now, call_write, lock_write, finish_write,
  would_block, take_space, write_byte, buffer_refuses, open_writer, drop_writer,
}
use tp2_so_g.Stream.Locks.{Lock, keep-Lock, take-Lock, drop-Lock, Lock-alone}
use tp2_so_g.Stream.Order.{in_write, keeps_space, WriteLock}

-- `spare` is 1 unless a writer has a unit of freeSpaces for a byte that it has not put yet.
pub record IsSpaced (m : Stream) : Type 0 where
  pub spare : ℕ
  pub lock : Lock keeps_space spare m.process
  pub total : length m.contents + m.free_units + 1 ≡ pipe_buf_size + spare

length_left :
    (n : ℕ) (bytes : List ℕ) → length (left_over n bytes) + length (drained n bytes) ≡ length bytes
length_left zero bytes = omega arith
length_left (suc n) [] = refl
length_left (suc n) (b ∷ bytes) = omega (arith, length_left n bytes)

-- A step of a process that neither had nor gets a unit of its own.
stays-IsSpaced :
    (w : ℕ) (p q : Phase) (m m' : Stream)
    → m.process w ≡ p
    → keeps_space p ≡ keeps_space q
    → m'.process ≡ goes w q m
    → length m'.contents + m'.free_units ≡ length m.contents + m.free_units
    → IsSpaced m
    → IsSpaced m'
stays-IsSpaced w p q m m' e same moved sum i = record {
  spare = i.spare;
  lock =
      subst (Lock keeps_space i.spare) (sym moved)
        (keep-Lock keeps_space i.spare m.process w p q e same i.lock);
  total = omega (arith, i.total, sum);
}

drain_sum :
    (n : ℕ) (m : Stream)
    → length (left_over n m.contents) + (m.free_units + length (drained n m.contents))
      ≡ length m.contents + m.free_units
drain_sum n m = omega (arith, length_left n m.contents)

-- The writer that takes a unit is the only one that could have one.
nobody_has :
    (w : ℕ) (m : Stream) (nb : Bool) (bytes : List ℕ) (u : ℕ)
    → m.process w ≡ writes nb bytes
    → WriteLock m
    → Lock keeps_space u m.process
    → u ≡ 1
nobody_has w m nb bytes u e k (inl (x, h)) = x
nobody_has w m nb bytes u e k (inr (o, x, h)) =
    let there : keeps_space (m.process o) ≡ true = ground (arith, h o) in
    let same : o ≡ w =
      Lock-alone in_write m.write_units m.process o w k (in_section (m.process o) there)
        (ground (arith, e)) in
    absurd (ground (arith, there, e, ap m.process same))
  where
    in_section : (p : Phase) → keeps_space p ≡ true → in_write p ≡ true
    in_section (has_space nb b bytes) k = refl
    in_section outside k = absurd (ground (arith, k))
    in_section (wants_data n) k = absurd (ground (arith, k))
    in_section (has_data n) k = absurd (ground (arith, k))
    in_section (reads n) k = absurd (ground (arith, k))
    in_section (wants_now n) k = absurd (ground (arith, k))
    in_section (reads_now n) k = absurd (ground (arith, k))
    in_section (wants_write nb bytes) k = absurd (ground (arith, k))
    in_section (writes nb bytes) k = absurd (ground (arith, k))

holder_has :
    (w : ℕ) (m : Stream) (nb : Bool) (b : ℕ) (bytes : List ℕ) (u : ℕ)
    → m.process w ≡ has_space nb b bytes
    → Lock keeps_space u m.process
    → u ≡ 0
holder_has w m nb b bytes u e (inl (x, h)) = absurd (ground (arith, e, h w))
holder_has w m nb b bytes u e (inr (o, x, h)) = x

pub Step-IsSpaced : (w : ℕ) {m m' : Stream} → Step w m m' → WriteLock m → IsSpaced m → IsSpaced m'
Step-IsSpaced w {m} {m'} (call_read count e d) k i =
    stays-IsSpaced w outside (wants_data (suc count)) m m' e refl refl refl i
Step-IsSpaced w {m} {m'} (take_data count n e d) k i =
    stays-IsSpaced w (wants_data count) (has_data count) m m' e refl refl refl i
Step-IsSpaced w {m} {m'} (lock_read count n e d) k i =
    stays-IsSpaced w (has_data count) (reads count) m m' e refl refl refl i
Step-IsSpaced w {m} {m'} (finish_read count e d) k i =
    stays-IsSpaced w (reads count) outside m m' e refl refl (drain_sum count m) i
Step-IsSpaced w {m} {m'} (end_of_file count e d x) k i =
    stays-IsSpaced w (reads count) outside m m' e refl refl refl i
Step-IsSpaced w {m} {m'} (wait_again count n e d x) k i =
    stays-IsSpaced w (reads count) (wants_data count) m m' e refl refl refl i
Step-IsSpaced w {m} {m'} (call_read_now count e d) k i =
    stays-IsSpaced w outside (wants_now (suc count)) m m' e refl refl refl i
Step-IsSpaced w {m} {m'} (lock_read_now count n e d) k i =
    stays-IsSpaced w (wants_now count) (reads_now count) m m' e refl refl refl i
Step-IsSpaced w {m} {m'} (finish_read_now count e) k i =
    stays-IsSpaced w (reads_now count) outside m m' e refl refl (drain_sum count m) i
Step-IsSpaced w {m} {m'} (call_write nb bytes e) k i =
    stays-IsSpaced w outside (wants_write nb bytes) m m' e refl refl refl i
Step-IsSpaced w {m} {m'} (lock_write nb bytes n e d) k i =
    stays-IsSpaced w (wants_write nb bytes) (writes nb bytes) m m' e refl refl refl i
Step-IsSpaced w {m} {m'} (finish_write nb e) k i =
    stays-IsSpaced w (writes nb []) outside m m' e refl refl refl i
Step-IsSpaced w {m} {m'} (would_block b bytes e d) k i =
    stays-IsSpaced w (writes true (b ∷ bytes)) outside m m' e refl refl refl i
Step-IsSpaced w {m} {m'} (open_writer e) k i = record {
  spare = i.spare;
  lock = i.lock;
  total = i.total;
}
Step-IsSpaced w {m} {m'} (drop_writer n e d) k i = record {
  spare = i.spare;
  lock = i.lock;
  total = i.total;
}
Step-IsSpaced w {m} {m'} (take_space nb b bytes n e d x) k i =
    let one : i.spare ≡ 1 = nobody_has w m nb (b ∷ bytes) i.spare e k i.lock in
    record {
      spare = 0;
      lock = take-Lock keeps_space i.spare 0 m.process w (has_space nb b bytes) one refl i.lock;
      total = omega (arith, i.total, one, x);
    }
Step-IsSpaced w {m} {m'} (write_byte nb b bytes e d) k i =
    let none_left = holder_has w m nb b bytes i.spare e i.lock in
    record {
      spare = 1;
      lock =
          subst (λ u. Lock keeps_space u (goes w (writes nb bytes) m)) (ap suc none_left)
            (drop-Lock keeps_space i.spare m.process w (has_space nb b bytes) (writes nb bytes) e
              refl refl i.lock);
      total = omega (arith, i.total, none_left, length-append m.contents (b ∷ []));
    }
Step-IsSpaced w {m} {m'} (buffer_refuses nb b bytes e d) k i =
    let none_left = holder_has w m nb b bytes i.spare e i.lock in
    absurd (too_full (length m.contents) m.free_units i.spare d i.total none_left)
  where
    too_full : (x y u : ℕ) → leb pipe_buf_size x ≡ true → x + y + 1 ≡ pipe_buf_size + u → u ≡ 0 → ⊥
    too_full x y u d t z = ground (arith, d, t, z)
