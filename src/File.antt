-- ===== src/File.antt =====
-- IPC/fileAccess.c: a reference to a pipe with flags and a count. A FileAccess is named by its
-- address; NULL is `none`.
pub mod Counts
pub mod Holders
use tp2_so_g.Base.{ℕ, ◌/◌, ◌%◌, ◌-◌, ◌+◌, Bool, true, false, Option, none, some}
use tp2_so_g.Base.{◌==◌, if◌then◌else◌}
use tp2_so_g.Base.Int.{ℤ, pos, inc, dec, is_positive}
use tp2_so_g.Kernel.{Kernel, File, mem_alloc}
use tp2_so_g.Kernel.Action.{Action, pure, ◌>>=◌, ◌>>◌, change, lift, put_file, at_file}
use tp2_so_g.Pipe.{
  add_pipe_ref, add_pipe_writer, remove_pipe_ref, remove_pipe_writer, force_readers_wake_up,
}

-- FILE_READ, FILE_WRITE and FILE_NONBLOCK are the three lowest bits.
abbrev pub can_read : ℕ → Bool
can_read flags = flags % 2 == 1

abbrev pub can_write : ℕ → Bool
can_write flags = flags / 2 % 2 == 1

abbrev pub does_not_block : ℕ → Bool
does_not_block flags = flags / 4 % 2 == 1

abbrev pub has_flag : (ℕ → Bool) → Option ℕ → Kernel → Bool
has_flag bit none k = false
has_flag bit (some f) k = elim (k.files f) [ none ↦ false | some x ↦ bit x.flags ]

abbrev pub is_readable : Option ℕ → Kernel → Bool
is_readable f k = has_flag can_read f k

abbrev pub is_writable : Option ℕ → Kernel → Bool
is_writable f k = has_flag can_write f k

abbrev pub is_nonblocking : Option ℕ → Kernel → Bool
is_nonblocking f k = has_flag does_not_block f k

unfoldable pub new_file_access : Option ℕ → ℕ → Action (Option ℕ)
unfolding mem_alloc add_pipe_ref add_pipe_writer
new_file_access pipe flags = do
  object ← lift mem_alloc
  elim object [
    | none ↦ pure none
    | some f ↦ do
      change (put_file f (some (record { pipe = pipe; flags = flags; ref_count = pos 0 })))
      add_pipe_ref pipe
      if can_write flags then add_pipe_writer pipe else pure tt
      pure (some f)
  ]

unfoldable pub add_file_ref : Option ℕ → Action (Unit {0})
add_file_ref none = pure tt
add_file_ref (some f) =
    at_file f λ x. change (put_file f (some (record x { ref_count = inc x.ref_count })))

unfoldable pub free_file_access : Option ℕ → Action (Unit {0})
unfolding remove_pipe_writer remove_pipe_ref
free_file_access none = pure tt
free_file_access (some f) = at_file f λ x. do
  if can_write x.flags then remove_pipe_writer x.pipe else pure tt
  remove_pipe_ref x.pipe
  change (put_file f none)

unfoldable pub remove_file_ref : Option ℕ → Action (Unit {0})
unfolding free_file_access
remove_file_ref none = pure tt
remove_file_ref (some f) = at_file f λ x. do
  change (put_file f (some (record x { ref_count = dec x.ref_count })))
  if is_positive (dec x.ref_count) then pure tt else free_file_access (some f)

unfoldable pub set_file_flags : Option ℕ → ℕ → Action (Unit {0})
set_file_flags none flags = pure tt
set_file_flags (some f) flags =
    at_file f λ x. change (put_file f (some (record x { flags = flags })))

unfoldable pub clone_file : Option ℕ → Action (Option ℕ)
unfolding new_file_access
clone_file none = pure none
clone_file (some f) = at_file f λ x. new_file_access x.pipe x.flags

abbrev pub get_file_pipe : Option ℕ → Kernel → Option ℕ
get_file_pipe none k = none
get_file_pipe (some f) k = elim (k.files f) [ none ↦ none | some x ↦ x.pipe ]

unfoldable pub force_wake_on_pipe : Option ℕ → ℕ → Action (Unit {0})
unfolding force_readers_wake_up
force_wake_on_pipe none count = pure tt
force_wake_on_pipe (some f) count = at_file f λ x. force_readers_wake_up x.pipe count
