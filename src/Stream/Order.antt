-- ===== src/Stream/Order.antt =====
-- What holds in every state that the readers and writers of a pipe reach.
use tp2_so_g.Base.{
  ℕ, zero, suc, ◌≡◌, refl, ◌∙◌, sym, ap, Bool, true, false, List, [], ◌∷◌, ◌++◌, append_assoc,
}
use tp2_so_g.Stream.{
  Phase, outside, wants_data, has_data, reads, wants_now, reads_now, wants_write, writes, has_space,
  Stream, drained, left_over, drain, Step, call_read, take_data, lock_read, finish_read,
  end_of_file, wait_again, call_read_now, lock_read_now, finish_read_now, call_write, lock_write,
  finish_write, would_block, take_space, write_byte, buffer_refuses, open_writer, drop_writer,
}
use tp2_so_g.Stream.Locks.{Lock, keep-Lock, take-Lock, drop-Lock}

-- Who holds the read lock, the write lock, and a unit of freeSpaces not yet used.
abbrev pub in_read : Phase → Bool
in_read (reads count) = true
in_read (reads_now count) = true
in_read _ = false

abbrev pub in_write : Phase → Bool
in_write (writes nb bytes) = true
in_write (has_space nb b bytes) = true
in_write _ = false

abbrev pub keeps_space : Phase → Bool
keeps_space (has_space nb b bytes) = true
keeps_space _ = false

-- Who has taken a unit of dataAvailable and will look at the buffer.
abbrev pub will_look : Phase → Bool
will_look (has_data count) = true
will_look (reads count) = true
will_look _ = false

drained-left : (n : ℕ) (bytes : List ℕ) → drained n bytes ++ left_over n bytes ≡ bytes
drained-left zero bytes = refl
drained-left (suc n) [] = refl
drained-left (suc n) (b ∷ bytes) = ap (λ x. b ∷ x) (drained-left n bytes)

abbrev pub IsKept : Stream → Type 0
IsKept m = m.written ≡ m.taken ++ m.contents

drain-IsKept : (n : ℕ) (m : Stream) → IsKept m → IsKept (drain n m)
drain-IsKept n m k =
    k
    ∙ ap (λ x. m.taken ++ x) (sym (drained-left n m.contents))
    ∙ sym (append_assoc m.taken (drained n m.contents) (left_over n m.contents))

pub Step-IsKept : (w : ℕ) {m m' : Stream} → Step w m m' → IsKept m → IsKept m'
Step-IsKept w {m} (finish_read count e d) k = drain-IsKept count m k
Step-IsKept w {m} (finish_read_now count e) k = drain-IsKept count m k
Step-IsKept w {m} (write_byte nb b bytes e f) k =
    ap (λ x. x ++ b ∷ []) k ∙ append_assoc m.taken m.contents (b ∷ [])
Step-IsKept w {m} (call_read count e d) k = k
Step-IsKept w {m} (take_data count n e d) k = k
Step-IsKept w {m} (lock_read count n e d) k = k
Step-IsKept w {m} (end_of_file count e d x) k = k
Step-IsKept w {m} (wait_again count n e d x) k = k
Step-IsKept w {m} (call_read_now count e d) k = k
Step-IsKept w {m} (lock_read_now count n e d) k = k
Step-IsKept w {m} (call_write nb bytes e) k = k
Step-IsKept w {m} (lock_write nb bytes n e d) k = k
Step-IsKept w {m} (finish_write nb e) k = k
Step-IsKept w {m} (would_block b bytes e d) k = k
Step-IsKept w {m} (take_space nb b bytes n e d x) k = k
Step-IsKept w {m} (buffer_refuses nb b bytes e d) k = k
Step-IsKept w {m} (open_writer e) k = k
Step-IsKept w {m} (drop_writer n e d) k = k

abbrev pub ReadLock : Stream → Type 0
ReadLock m = Lock in_read m.read_units m.process

pub Step-ReadLock : (w : ℕ) {m m' : Stream} → Step w m m' → ReadLock m → ReadLock m'
Step-ReadLock w {m} (call_read count e d) k =
    keep-Lock in_read m.read_units m.process w outside (wants_data (suc count)) e refl k
Step-ReadLock w {m} (take_data count n e d) k =
    keep-Lock in_read m.read_units m.process w (wants_data count) (has_data count) e refl k
Step-ReadLock w {m} (lock_read count n e d) k =
    take-Lock in_read m.read_units n m.process w (reads count) d refl k
Step-ReadLock w {m} (finish_read count e d) k =
    drop-Lock in_read m.read_units m.process w (reads count) outside e refl refl k
Step-ReadLock w {m} (end_of_file count e d x) k =
    drop-Lock in_read m.read_units m.process w (reads count) outside e refl refl k
Step-ReadLock w {m} (wait_again count n e d x) k =
    drop-Lock in_read m.read_units m.process w (reads count) (wants_data count) e refl refl k
Step-ReadLock w {m} (call_read_now count e d) k =
    keep-Lock in_read m.read_units m.process w outside (wants_now (suc count)) e refl k
Step-ReadLock w {m} (lock_read_now count n e d) k =
    take-Lock in_read m.read_units n m.process w (reads_now count) d refl k
Step-ReadLock w {m} (finish_read_now count e) k =
    drop-Lock in_read m.read_units m.process w (reads_now count) outside e refl refl k
Step-ReadLock w {m} (call_write nb bytes e) k =
    keep-Lock in_read m.read_units m.process w outside (wants_write nb bytes) e refl k
Step-ReadLock w {m} (lock_write nb bytes n e d) k =
    keep-Lock in_read m.read_units m.process w (wants_write nb bytes) (writes nb bytes) e refl k
Step-ReadLock w {m} (finish_write nb e) k =
    keep-Lock in_read m.read_units m.process w (writes nb []) outside e refl k
Step-ReadLock w {m} (would_block b bytes e d) k =
    keep-Lock in_read m.read_units m.process w (writes true (b ∷ bytes)) outside e refl k
Step-ReadLock w {m} (take_space nb b bytes n e d x) k =
    keep-Lock in_read m.read_units m.process w (writes nb (b ∷ bytes)) (has_space nb b bytes) e refl
      k
Step-ReadLock w {m} (write_byte nb b bytes e d) k =
    keep-Lock in_read m.read_units m.process w (has_space nb b bytes) (writes nb bytes) e refl k
Step-ReadLock w {m} (buffer_refuses nb b bytes e d) k =
    keep-Lock in_read m.read_units m.process w (has_space nb b bytes) (writes nb (b ∷ bytes)) e refl
      k
Step-ReadLock w {m} (open_writer e) k = k
Step-ReadLock w {m} (drop_writer n e d) k = k

abbrev pub WriteLock : Stream → Type 0
WriteLock m = Lock in_write m.write_units m.process

pub Step-WriteLock : (w : ℕ) {m m' : Stream} → Step w m m' → WriteLock m → WriteLock m'
Step-WriteLock w {m} (call_read count e d) k =
    keep-Lock in_write m.write_units m.process w outside (wants_data (suc count)) e refl k
Step-WriteLock w {m} (take_data count n e d) k =
    keep-Lock in_write m.write_units m.process w (wants_data count) (has_data count) e refl k
Step-WriteLock w {m} (lock_read count n e d) k =
    keep-Lock in_write m.write_units m.process w (has_data count) (reads count) e refl k
Step-WriteLock w {m} (finish_read count e d) k =
    keep-Lock in_write m.write_units m.process w (reads count) outside e refl k
Step-WriteLock w {m} (end_of_file count e d x) k =
    keep-Lock in_write m.write_units m.process w (reads count) outside e refl k
Step-WriteLock w {m} (wait_again count n e d x) k =
    keep-Lock in_write m.write_units m.process w (reads count) (wants_data count) e refl k
Step-WriteLock w {m} (call_read_now count e d) k =
    keep-Lock in_write m.write_units m.process w outside (wants_now (suc count)) e refl k
Step-WriteLock w {m} (lock_read_now count n e d) k =
    keep-Lock in_write m.write_units m.process w (wants_now count) (reads_now count) e refl k
Step-WriteLock w {m} (finish_read_now count e) k =
    keep-Lock in_write m.write_units m.process w (reads_now count) outside e refl k
Step-WriteLock w {m} (call_write nb bytes e) k =
    keep-Lock in_write m.write_units m.process w outside (wants_write nb bytes) e refl k
Step-WriteLock w {m} (lock_write nb bytes n e d) k =
    take-Lock in_write m.write_units n m.process w (writes nb bytes) d refl k
Step-WriteLock w {m} (finish_write nb e) k =
    drop-Lock in_write m.write_units m.process w (writes nb []) outside e refl refl k
Step-WriteLock w {m} (would_block b bytes e d) k =
    drop-Lock in_write m.write_units m.process w (writes true (b ∷ bytes)) outside e refl refl k
Step-WriteLock w {m} (take_space nb b bytes n e d x) k =
    keep-Lock in_write m.write_units m.process w (writes nb (b ∷ bytes)) (has_space nb b bytes) e
      refl k
Step-WriteLock w {m} (write_byte nb b bytes e d) k =
    keep-Lock in_write m.write_units m.process w (has_space nb b bytes) (writes nb bytes) e refl k
Step-WriteLock w {m} (buffer_refuses nb b bytes e d) k =
    keep-Lock in_write m.write_units m.process w (has_space nb b bytes) (writes nb (b ∷ bytes)) e
      refl k
Step-WriteLock w {m} (open_writer e) k = k
Step-WriteLock w {m} (drop_writer n e d) k = k
