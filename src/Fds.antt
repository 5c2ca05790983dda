-- ===== src/Fds.antt =====
-- The file descriptors of process.c, and the calls of scheduler.c on them. A descriptor is an `int` as
-- its pattern, so that a negative one is not below MAX_FDS. The process is the one in a slot of the
-- process table, and an empty slot is NULL. A call that returns -1 for a descriptor gives `none`.
pub mod Calls
pub mod Dup
pub mod Tables
pub mod Wired
use tp2_so_g.Base.{
  ℕ, zero, suc, ◌+◌, ◌&&◌, ◌||◌, not, Bool, true, false, Option, none, some, update,
}
use tp2_so_g.Base.{ltb, ◌==◌, if◌then◌else◌}
use tp2_so_g.Kernel.{Kernel, Process, Code, done, failed, bad_pid, modify}
use tp2_so_g.Kernel.Action.{Action, pure, ◌>>=◌, ◌>>◌, change, gets}
use tp2_so_g.File.{add_file_ref, remove_file_ref, clone_file}

abbrev pub max_fds : ℕ
max_fds = 16

abbrev pub is_valid_fd : ℕ → Bool
is_valid_fd fd = ltb fd max_fds

abbrev pub fd_of : ℕ → Option Process → Option ℕ
fd_of fd none = none
fd_of fd (some p) = p.fd_table fd

-- `getFd`
abbrev pub get_fd : ℕ → ℕ → Kernel → Option ℕ
get_fd i fd k = if is_valid_fd fd then fd_of fd (k.table i) else none

abbrev pub is_open : Option ℕ → Bool
is_open none = false
is_open (some f) = true

abbrev pub set_fd : ℕ → Option ℕ → Process → Process
set_fd fd file p = record p {
  fd_table = update p.fd_table fd file;
  eof_requests = update p.eof_requests fd false;
}

abbrev pub has_process : ℕ → Kernel → Bool
has_process i k = elim (k.table i) [ none ↦ false | some p ↦ true ]

-- The body of openFd where the slot is free.
unfoldable pub install_fd : ℕ → ℕ → ℕ → Action (Option ℕ)
unfolding add_file_ref
install_fd i file fd = do
  change (modify i (set_fd fd (some file)))
  add_file_ref (some file)
  pure (some fd)

unfoldable pub open_fd : ℕ → Option ℕ → ℕ → Action (Option ℕ)
unfolding install_fd
open_fd i none fd = pure none
open_fd i (some file) fd = do
  refused ← gets (λ k. not (has_process i k) || not (is_valid_fd fd) || is_open (get_fd i fd k))
  if refused then pure none else install_fd i file fd

-- The first closed descriptor among the `n` from `fd` on.
abbrev pub closed_from : ℕ → ℕ → (ℕ → Option ℕ) → Option ℕ
closed_from zero fd table = none
closed_from (suc n) fd table =
    let rest = closed_from n (suc fd) table in if is_open (table fd) then rest else some fd

unfoldable pub add_fd : ℕ → Option ℕ → Action (Option ℕ)
unfolding open_fd
add_fd i file = do
  fd ← gets (λ k. elim (k.table i) [ none ↦ none | some p ↦ closed_from max_fds 0 p.fd_table ])
  elim fd [ none ↦ pure none | some n ↦ open_fd i file n ]

unfoldable pub close_fd : ℕ → ℕ → Action Code
unfolding remove_file_ref
close_fd i fd = do
  file ← gets (get_fd i fd)
  elim file [
    | none ↦ pure failed
    | some f ↦ do change (modify i (set_fd fd none)); remove_file_ref (some f); pure done
  ]

unfoldable pub dup_fd : ℕ → ℕ → ℕ → Action (Option ℕ)
unfolding close_fd install_fd
dup_fd i old new = do
  refused ← gets (λ k. not (has_process i k) || not (is_valid_fd new))
  file ← gets (get_fd i old)
  if refused
      then pure none
      else (if old == new then pure (some new) else elim file [
        | none ↦ do close_fd i new; pure (some new)
        | some f ↦ do close_fd i new; install_fd i f new
      ])

unfoldable pub reopen_fd : ℕ → ℕ → Action (Option ℕ)
unfolding clone_file add_fd remove_file_ref
reopen_fd i fd = do
  file ← gets (get_fd i fd)
  elim file [
    | none ↦ pure none
    | some f ↦ do
      clone ← clone_file (some f)
      elim clone [
        | none ↦ pure none
        | some c ↦ do
          n ← add_fd i (some c)
          elim n [ none ↦ do remove_file_ref (some c); pure none | some m ↦ pure (some m) ]
      ]
  ]

abbrev pub set_eof : ℕ → Process → Process
set_eof fd p = record p { eof_requests = update p.eof_requests fd true }

unfoldable pub request_eof_of : ℕ → ℕ → Action Code
request_eof_of i fd = do
  open_there ← gets (λ k. is_open (get_fd i fd k))
  if open_there then (do change (modify i (set_eof fd)); pure done) else pure failed

-- The loops over the table, on the `n` descriptors from `fd` on.
unfoldable pub close_from : ℕ → ℕ → ℕ → Action (Unit {0})
unfolding close_fd
close_from zero fd i = pure tt
close_from (suc n) fd i = do close_fd i fd; close_from n (suc fd) i

unfoldable pub close_all_fds : ℕ → Action (Unit {0})
unfolding close_from
close_all_fds i = close_from max_fds 0 i

unfoldable pub copy_from : ℕ → ℕ → ℕ → ℕ → Action (Unit {0})
unfolding close_fd open_fd
copy_from zero fd target source = pure tt
copy_from (suc n) fd target source = do
  close_fd target fd
  file ← gets (get_fd source fd)
  open_fd target file fd
  copy_from n (suc fd) target source

unfoldable pub copy_fd_table : ℕ → ℕ → Action (Unit {0})
unfolding copy_from
copy_fd_table target source = do
  there ← gets (λ k. has_process target k && has_process source k)
  if there then copy_from max_fds 0 target source else pure tt

-- The calls on a pid, and on the current process.
abbrev pub on_pid : {A : Type 0} → A → (ℕ → Action A) → ℕ → Action A
on_pid refused call pid = if bad_pid pid then pure refused else call pid

abbrev pub on_current : {A : Type 0} → A → (ℕ → Action A) → Action A
on_current refused call k = elim k.current [ none ↦ some (refused, k) | some c ↦ call c k ]

unfoldable pub close_fd_on_pid : ℕ → ℕ → Action Code
unfolding close_fd
close_fd_on_pid pid fd = on_pid failed (λ i. close_fd i fd) pid

unfoldable pub dup_fd_on_pid : ℕ → ℕ → ℕ → Action (Option ℕ)
unfolding dup_fd
dup_fd_on_pid pid old new = on_pid none (λ i. dup_fd i old new) pid

unfoldable pub add_fd_to_pid : ℕ → Option ℕ → Action (Option ℕ)
unfolding add_fd
add_fd_to_pid pid file = on_pid none (λ i. add_fd i file) pid

unfoldable pub request_eof_on_pid : ℕ → ℕ → Action Code
unfolding request_eof_of
request_eof_on_pid pid fd = on_pid failed (λ i. request_eof_of i fd) pid

unfoldable pub get_fd_on_pid : ℕ → ℕ → Kernel → Option ℕ
get_fd_on_pid pid fd k = if bad_pid pid then none else get_fd pid fd k

unfoldable pub close_fds_of : ℕ → Action (Unit {0})
unfolding close_all_fds
close_fds_of pid = on_pid tt close_all_fds pid

unfoldable pub get_current_fd : ℕ → Kernel → Option ℕ
get_current_fd fd k = elim k.current [ none ↦ none | some c ↦ get_fd c fd k ]

unfoldable pub add_current_fd : Option ℕ → Action (Option ℕ)
unfolding add_fd
add_current_fd file = on_current none (λ c. add_fd c file)

unfoldable pub open_current_fd : Option ℕ → ℕ → Action (Option ℕ)
unfolding open_fd
open_current_fd file fd = on_current none (λ c. open_fd c file fd)

unfoldable pub close_current_fd : ℕ → Action Code
unfolding close_fd
close_current_fd fd = on_current failed (λ c. close_fd c fd)

unfoldable pub dup_current_fd : ℕ → ℕ → Action (Option ℕ)
unfolding dup_fd
dup_current_fd old new = on_current none (λ c. dup_fd c old new)

unfoldable pub reopen_current_fd : ℕ → Action (Option ℕ)
unfolding reopen_fd
reopen_current_fd fd = on_current none (λ c. reopen_fd c fd)
