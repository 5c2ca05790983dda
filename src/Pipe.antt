-- ===== src/Pipe.antt =====
-- IPC/pipe.c: the objects and their two counts. A pipe is named by its address; NULL is `none`.
pub mod Counts
pub mod Eof
pub mod Refs
pub mod Wake
use tp2_so_g.Base.{ℕ, zero, suc, ◌&&◌, ◌||◌, not, Bool, true, false, Option, none, some, List}
use tp2_so_g.Base.{if◌then◌else◌}
use tp2_so_g.Base.Int.{ℤ, pos, inc, dec, is_positive}
use tp2_so_g.Kernel.{Kernel, Pipe, Buffer, mem_alloc, max_processes}
use tp2_so_g.Kernel.Action.{Action, pure, ◌>>=◌, ◌>>◌, change, lift, try, put_pipe, at_pipe}
use tp2_so_g.Buffer.{new_buffer, buffer_has_data, buffer_is_full}
use tp2_so_g.Semaphore.{new_semaphore, sem_post, free_semaphore}

abbrev pub pipe_buf_size : ℕ
pipe_buf_size = 1024

-- `for (int i = 0; i < count; i++) semPost(p->dataAvailable);`
unfoldable pub post_times : ℕ → ℕ → Action (Unit {0})
unfolding sem_post
post_times zero sem = pure tt
post_times (suc n) sem = do sem_post (some sem); post_times n sem

unfoldable pub force_readers_wake_up : Option ℕ → ℕ → Action (Unit {0})
unfolding post_times
force_readers_wake_up none count = pure tt
force_readers_wake_up (some p) count = at_pipe p λ q. post_times count q.data_available

-- freeBuffer gives back memory only.
unfoldable pub free_pipe : Option ℕ → Action (Unit {0})
unfolding free_semaphore
free_pipe none = pure tt
free_pipe (some p) = at_pipe p λ q. do
  try (free_semaphore (some q.data_available))
  try (free_semaphore (some q.free_spaces))
  try (free_semaphore (some q.read_mutex))
  try (free_semaphore (some q.write_mutex))
  change (put_pipe p none)

-- What newPipe makes of its parts: where one is NULL, freePipe gives the others back.
unfoldable pub make_pipe :
    ℕ → Option Buffer → Option ℕ → Option ℕ → Option ℕ → Option ℕ → Action (Option ℕ)
unfolding free_semaphore
make_pipe p (some b) (some d) (some f) (some r) (some w) = do
  change (
      put_pipe p (
        some (record {
          buffer = b;
          data_available = d;
          free_spaces = f;
          read_mutex = r;
          write_mutex = w;
          ref_count = pos 0;
          writer_count = pos 0;
        })))
  pure (some p)
make_pipe p b d f r w = do
  try (free_semaphore d)
  try (free_semaphore f)
  try (free_semaphore r)
  try (free_semaphore w)
  pure none

-- `fresh` is what the memory of the buffer holds.
unfoldable pub new_pipe : List ℕ → Action (Option ℕ)
unfolding mem_alloc new_buffer new_semaphore make_pipe
new_pipe fresh = do
  object ← lift mem_alloc
  elim object [
    | none ↦ pure none
    | some p ↦ do
      b ← lift (new_buffer fresh pipe_buf_size)
      d ← lift (new_semaphore (pos 0))
      f ← lift (new_semaphore (pos pipe_buf_size))
      r ← lift (new_semaphore (pos 1))
      w ← lift (new_semaphore (pos 1))
      make_pipe p b d f r w
  ]

unfoldable pub add_pipe_ref : Option ℕ → Action (Unit {0})
add_pipe_ref none = pure tt
add_pipe_ref (some p) =
    at_pipe p λ q. change (put_pipe p (some (record q { ref_count = inc q.ref_count })))

unfoldable pub add_pipe_writer : Option ℕ → Action (Unit {0})
add_pipe_writer none = pure tt
add_pipe_writer (some p) =
    at_pipe p λ q. change (put_pipe p (some (record q { writer_count = inc q.writer_count })))

unfoldable pub remove_pipe_ref : Option ℕ → Action (Unit {0})
unfolding free_pipe
remove_pipe_ref none = pure tt
remove_pipe_ref (some p) = at_pipe p λ q. do
  change (put_pipe p (some (record q { ref_count = dec q.ref_count })))
  if is_positive (dec q.ref_count) then pure tt else free_pipe (some p)

unfoldable pub remove_pipe_writer : Option ℕ → Action (Unit {0})
unfolding force_readers_wake_up
remove_pipe_writer none = pure tt
remove_pipe_writer (some p) = at_pipe p λ q. do
  change (put_pipe p (some (record q { writer_count = dec q.writer_count })))
  if is_positive (dec q.writer_count) then pure tt else force_readers_wake_up (some p) max_processes

abbrev pub pipe_has_data : Pipe → Bool
pipe_has_data q = buffer_has_data q.buffer

abbrev pub pipe_is_full : Pipe → Bool
pipe_is_full q = buffer_is_full q.buffer
