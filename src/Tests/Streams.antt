-- ===== src/Tests/Streams.antt =====
-- A writer and a blocked reader on a new pipe.
use tp2_so_g.Base.{ℕ, ◌≡◌, ◌≤◌, refl, true, false, [], ◌∷◌, ◌++◌, length}
use tp2_so_g.Pipe.{pipe_buf_size}
use tp2_so_g.Stream.{
  Stream, call_read, call_write, lock_write, take_space, write_byte, open_writer, Run, stay, go,
  new_stream,
}
use tp2_so_g.Stream.Order.{in_read, in_write}
use tp2_so_g.Stream.Reached.{Run-carries, Run-reads, ReaderSteps}

-- Process 1 opens the pipe to write, process 2 reads, and process 1 writes `A`.
has_byte : (m : Stream) × Run new_stream m
has_byte = (
  _,
  go 1
      (go 1
        (go 1
          (go 1 (go 2 (go 1 stay (open_writer refl)) (call_read 9 refl refl))
            (call_write false (b'A' ∷ []) refl))
          (lock_write false (b'A' ∷ []) 0 refl refl))
        (take_space false b'A' [] 1023 refl refl refl))
      (write_byte false b'A' [] refl refl),
)

Run-carries_example :
    let m = has_byte.0 in
    (m.written ≡ m.taken ++ m.contents)
    × (length m.contents ≤ pipe_buf_size)
    × ((v w : ℕ) → in_read (m.process v) ≡ true → in_read (m.process w) ≡ true → v ≡ w)
    × ((v w : ℕ) → in_write (m.process v) ≡ true → in_write (m.process w) ≡ true → v ≡ w)
Run-carries_example = Run-carries has_byte.1

Run-reads_example : ReaderSteps has_byte.0
unfolding has_byte
Run-reads_example = Run-reads 2 10 has_byte.1 refl refl
