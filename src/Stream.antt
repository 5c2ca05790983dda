-- ===== src/Stream.antt =====
-- The reading and writing of IPC/pipe.c as steps of the processes that share a pipe.
--
-- A process is where it stands in pipeRead or pipeWrite. A step goes from one semWait to the next: what
-- lies between runs with interrupts off. A semaphore counts its units: semWait goes on when there is one,
-- as Semaphore/Wait and Semaphore/Post say of the kernel. A process that is killed inside a call, and the
-- wake-ups of forceWakeOnPipe, are not among the steps. `written` and `taken` record the bytes.
pub mod Locks
pub mod Order
pub mod Reached
pub mod Signal
pub mod Space
use tp2_so_g.Base.{
  ℕ, zero, suc, ◌+◌, ◌≡◌, ◌<◌, ◌&&◌, Bool, true, false, not, List, [], ◌∷◌, ◌++◌, update,
  if◌then◌else◌, length, leb,
}
use tp2_so_g.Kernel.{max_processes}
use tp2_so_g.Pipe.{pipe_buf_size}

-- `count` is the number of bytes that a reader asks for; the flag of a writer is `nonblocking`.
pub data Phase : Type 0 where
  outside : Phase
  wants_data : (count : ℕ) → Phase
  has_data : (count : ℕ) → Phase
  reads : (count : ℕ) → Phase
  wants_now : (count : ℕ) → Phase
  reads_now : (count : ℕ) → Phase
  wants_write : (nonblocking : Bool) → List ℕ → Phase
  writes : (nonblocking : Bool) → List ℕ → Phase
  has_space : (nonblocking : Bool) → ℕ → List ℕ → Phase

pub record Stream : Type 0 where
  pub contents : List ℕ
  pub data_units : ℕ
  pub free_units : ℕ
  pub read_units : ℕ
  pub write_units : ℕ
  pub writers : ℕ
  pub process : ℕ → Phase
  pub written : List ℕ
  pub taken : List ℕ

abbrev pub is_empty : List ℕ → Bool
is_empty [] = true
is_empty (x ∷ xs) = false

abbrev pub is_full : Stream → Bool
is_full m = leb pipe_buf_size (length m.contents)

-- `drainBuffer`: the bytes that a reader gets, and those that stay.
abbrev pub drained : ℕ → List ℕ → List ℕ
drained zero bytes = []
drained (suc n) [] = []
drained (suc n) (b ∷ bytes) = b ∷ drained n bytes

abbrev pub left_over : ℕ → List ℕ → List ℕ
left_over zero bytes = bytes
left_over (suc n) [] = []
left_over (suc n) (b ∷ bytes) = left_over n bytes

abbrev pub goes : ℕ → Phase → Stream → ℕ → Phase
goes w p m = update m.process w p

-- drainBuffer posts freeSpaces once for each byte.
abbrev pub drain : ℕ → Stream → Stream
drain count m = record m {
  contents = left_over count m.contents;
  free_units = m.free_units + length (drained count m.contents);
  taken = m.taken ++ drained count m.contents;
}

-- The reader has the lock and there is data.
abbrev pub read_bytes : ℕ → ℕ → Stream → Stream
read_bytes w count m =
    let d = drain count m in
    record d {
      data_units = m.data_units + (if is_empty d.contents then 0 else 1);
      read_units = suc m.read_units;
      process = goes w outside m;
    }

abbrev pub read_now : ℕ → ℕ → Stream → Stream
read_now w count m = record (drain count m) {
  read_units = suc m.read_units;
  process = goes w outside m;
}

abbrev pub put_byte : ℕ → Bool → ℕ → List ℕ → Stream → Stream
put_byte w nonblocking b bytes m = record m {
  contents = m.contents ++ b ∷ [];
  data_units = m.data_units + (if is_empty m.contents then 1 else 0);
  process = goes w (writes nonblocking bytes) m;
  written = m.written ++ b ∷ [];
}

-- `removePipeWriter`, where `n` writers stay.
abbrev pub close_writer : ℕ → Stream → Stream
close_writer n m = record m {
  writers = n;
  data_units = m.data_units + (if leb n 0 then max_processes else 0);
}

-- One step of process `w`; `n` is what a semaphore is left with by a wait.
pub data Step (w : ℕ) : Stream → Stream → Type 0 where
  call_read :
      {m : Stream} (count : ℕ)
      → m.process w ≡ outside
      → (is_empty m.contents && leb m.writers 0) ≡ false
      → Step w m (record m { process = goes w (wants_data (suc count)) m })
  take_data :
      {m : Stream} (count n : ℕ)
      → m.process w ≡ wants_data count
      → m.data_units ≡ suc n
      → Step w m (record m { data_units = n; process = goes w (has_data count) m })
  lock_read :
      {m : Stream} (count n : ℕ)
      → m.process w ≡ has_data count
      → m.read_units ≡ suc n
      → Step w m (record m { read_units = n; process = goes w (reads count) m })
  finish_read :
      {m : Stream} (count : ℕ)
      → m.process w ≡ reads count
      → is_empty m.contents ≡ false
      → Step w m (read_bytes w count m)
  end_of_file :
      {m : Stream} (count : ℕ)
      → m.process w ≡ reads count
      → is_empty m.contents ≡ true
      → m.writers ≡ 0
      → Step w m (record m { read_units = suc m.read_units; process = goes w outside m })
  wait_again :
      {m : Stream} (count n : ℕ)
      → m.process w ≡ reads count
      → is_empty m.contents ≡ true
      → m.writers ≡ suc n
      → Step w m (record m { read_units = suc m.read_units; process = goes w (wants_data count) m })
  call_read_now :
      {m : Stream} (count : ℕ)
      → m.process w ≡ outside
      → is_empty m.contents ≡ false
      → Step w m (record m { process = goes w (wants_now (suc count)) m })
  lock_read_now :
      {m : Stream} (count n : ℕ)
      → m.process w ≡ wants_now count
      → m.read_units ≡ suc n
      → Step w m (record m { read_units = n; process = goes w (reads_now count) m })
  finish_read_now :
      {m : Stream} (count : ℕ) → m.process w ≡ reads_now count → Step w m (read_now w count m)
  call_write :
      {m : Stream} (nonblocking : Bool) (bytes : List ℕ)
      → m.process w ≡ outside
      → Step w m (record m { process = goes w (wants_write nonblocking bytes) m })
  lock_write :
      {m : Stream} (nonblocking : Bool) (bytes : List ℕ) (n : ℕ)
      → m.process w ≡ wants_write nonblocking bytes
      → m.write_units ≡ suc n
      → Step w m (record m { write_units = n; process = goes w (writes nonblocking bytes) m })
  finish_write :
      {m : Stream} (nonblocking : Bool)
      → m.process w ≡ writes nonblocking []
      → Step w m (record m { write_units = suc m.write_units; process = goes w outside m })
  would_block :
      {m : Stream} (b : ℕ) (bytes : List ℕ)
      → m.process w ≡ writes true (b ∷ bytes)
      → is_full m ≡ true
      → Step w m (record m { write_units = suc m.write_units; process = goes w outside m })
  take_space :
      {m : Stream} (nonblocking : Bool) (b : ℕ) (bytes : List ℕ) (n : ℕ)
      → m.process w ≡ writes nonblocking (b ∷ bytes)
      → (nonblocking && is_full m) ≡ false
      → m.free_units ≡ suc n
      → Step w m (record m { free_units = n; process = goes w (has_space nonblocking b bytes) m })
  write_byte :
      {m : Stream} (nonblocking : Bool) (b : ℕ) (bytes : List ℕ)
      → m.process w ≡ has_space nonblocking b bytes
      → is_full m ≡ false
      → Step w m (put_byte w nonblocking b bytes m)
  -- bufferWrite refuses the byte, and it is tried again
  buffer_refuses :
      {m : Stream} (nonblocking : Bool) (b : ℕ) (bytes : List ℕ)
      → m.process w ≡ has_space nonblocking b bytes
      → is_full m ≡ true
      → Step w m (record m { process = goes w (writes nonblocking (b ∷ bytes)) m })
  open_writer :
      {m : Stream} → m.process w ≡ outside → Step w m (record m { writers = suc m.writers })
  drop_writer :
      {m : Stream} (n : ℕ) → m.process w ≡ outside → m.writers ≡ suc n → Step w m (close_writer n m)

-- Any number of steps of any processes.
pub data Run : Stream → Stream → Type 0 where
  stay : {m : Stream} → Run m m
  go : {m m' m'' : Stream} (w : ℕ) → Run m m' → Step w m' m'' → Run m m''

-- What newPipe makes.
abbrev pub new_stream : Stream
new_stream = record {
  contents = [];
  data_units = 0;
  free_units = pipe_buf_size;
  read_units = 1;
  write_units = 1;
  writers = 0;
  process = λ w. outside;
  written = [];
  taken = [];
}
