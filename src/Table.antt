-- ===== src/Table.antt =====
-- The process table of scheduler.c: free slots, the list of the processes, priorities, and the
-- foreground set.
pub mod Free
pub mod Info
use tp2_so_g.Base.{
  ℕ, zero, suc, ◌+◌, Bool, true, false, not, ◌||◌, Option, none, some, List, [], ◌∷◌, update,
}
use tp2_so_g.Base.{◌==◌, if◌then◌else◌, ltb}
use tp2_so_g.Kernel.{
  Kernel, Process, Code, done, failed, State, max_processes, no_pid, bad_pid, modify, set_priority,
}

abbrev pub is_used : ℕ → Kernel → Bool
is_used i k = elim (k.table i) [ none ↦ false | some p ↦ true ]

-- The loops go through `n` slots from `i` on.
unfoldable pub free_from : ℕ → ℕ → Kernel → ℕ
free_from zero i k = no_pid
free_from (suc n) i k = let rest = free_from n (suc i) k in if is_used i k then rest else i

unfoldable pub find_free_pid : Kernel → ℕ
find_free_pid k = free_from max_processes 0 k

unfoldable pub count_from : ℕ → ℕ → Kernel → ℕ
count_from zero i k = 0
count_from (suc n) i k = let rest = count_from n (suc i) k in if is_used i k then suc rest else rest

unfoldable pub get_processes_count : Kernel → ℕ
get_processes_count k = count_from max_processes 0 k

-- `ProcessInfo`
pub record ProcessInfo : Type 0 where
  pub pid : ℕ
  pub ppid : ℕ
  pub state : State
  pub name : List ℕ
  pub priority : ℕ
  pub in_foreground : Bool
  pub rsp : ℕ
  pub stack_base : ℕ

abbrev pub info_of : ℕ → Process → Kernel → ProcessInfo
info_of i p k = record {
  pid = p.pid;
  ppid = p.ppid;
  state = p.state;
  name = p.name;
  priority = p.priority_level;
  in_foreground = k.foreground i;
  rsp = p.rsp;
  stack_base = p.stack_base;
}

-- `left` is what is left of maxCount, 0 for a negative one.
unfoldable pub info_from : ℕ → ℕ → ℕ → Kernel → List ProcessInfo
info_from zero i left k = []
info_from (suc n) i zero k = []
info_from (suc n) i (suc left) k = elim (k.table i) [
  | none ↦ info_from n (suc i) (suc left) k
  | some p ↦ info_of i p k ∷ info_from n (suc i) left k
]

-- What getProcessInfo writes into the buffer; it returns how many.
unfoldable pub get_process_info : ℕ → Kernel → List ProcessInfo
get_process_info max_count k = info_from max_processes 0 max_count k

unfoldable pub set_priority_on_pid : ℕ → ℕ → Kernel → Code × Kernel
set_priority_on_pid pid priority k =
    if bad_pid pid
    then (failed, k)
    else (if not (is_used pid k) || priority == 0
        then (failed, k)
        else (done, modify pid (set_priority priority) k))

unfoldable pub add_to_fg : ℕ → Kernel → Code × Kernel
add_to_fg pid k =
    if bad_pid pid
    then (failed, k)
    else (if not (is_used pid k) || k.foreground pid
        then (failed, k)
        else (done, record k { foreground = update k.foreground pid true }))

unfoldable pub remove_from_fg : ℕ → Kernel → Code × Kernel
remove_from_fg pid k =
    if bad_pid pid
    then (failed, k)
    else (if not (k.foreground pid)
        then (failed, k)
        else (done, record k { foreground = update k.foreground pid false }))

unfoldable pub is_in_fg : ℕ → Kernel → Bool
is_in_fg pid k = if bad_pid pid then false else k.foreground pid
