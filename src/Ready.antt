-- ===== src/Ready.antt =====
-- The ready queue of scheduler.c and the operations that block a process and make it ready.
pub mod Sound
use tp2_so_g.Base.{
  ℕ, Bool, true, false, not, ◌&&◌, Option, none, some, List, [], ◌∷◌, ◌++◌, without,
}
use tp2_so_g.Base.{if◌then◌else◌}
use tp2_so_g.Kernel.{
  Kernel, Process, Code, done, failed, State, ready, running, blocked, zombie, bad_pid,
  is_unkillable, state_eq, mem_alloc, modify, set_state, no_pid,
}

-- `enqueue(readyQueue, pid)`: the node comes from mem_alloc, and no caller looks at the result.
unfoldable pub enqueue_ready : ℕ → Kernel → Kernel
unfolding mem_alloc
enqueue_ready p k =
    let (node, k') = mem_alloc k in
    elim node [ none ↦ k' | some a ↦ record k' { ready_queue = k.ready_queue ++ p ∷ [] } ]

-- `removeFromQueue(readyQueue, pid, comparePIDs)`
unfoldable pub remove_ready : ℕ → Kernel → Kernel
remove_ready p k = record k { ready_queue = without p k.ready_queue }

-- `getPID(currentProcess)`, -1 where nothing runs.
unfoldable pub get_current_pid : Kernel → ℕ
get_current_pid k = elim k.current [
  | none ↦ no_pid
  | some c ↦ elim (k.table c) [ none ↦ no_pid | some p ↦ p.pid ]
]

unfoldable pub set_current_blocked : Kernel → Kernel
set_current_blocked k = elim k.current [ none ↦ k | some c ↦ modify c (set_state blocked) k ]

block_process : ℕ → Process → Kernel → Code × Kernel
unfolding remove_ready
block_process pid p k =
    if not (state_eq p.state running) && not (state_eq p.state ready) then (failed, k) else (
      done,
      modify pid (set_state blocked) (if state_eq p.state ready then remove_ready pid k else k),
    )

unfoldable pub set_blocked : ℕ → Kernel → Code × Kernel
unfolding block_process
set_blocked pid k = if bad_pid pid then (failed, k) else elim (k.table pid) [
  | none ↦ (failed, k)
  | some p ↦ if is_unkillable pid then (failed, k) else block_process pid p k
]

unfoldable pub set_ready : ℕ → Kernel → Code × Kernel
unfolding enqueue_ready
set_ready pid k = if bad_pid pid then (failed, k) else elim (k.table pid) [
  | none ↦ (failed, k)
  | some p ↦
      if not (state_eq p.state blocked)
      then (failed, k)
      else (done, modify pid (set_state ready) (enqueue_ready pid k))
]
