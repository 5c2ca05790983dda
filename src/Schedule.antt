-- ===== src/Schedule.antt =====
-- schedule and getNextPID of scheduler.c, timer_handler of timer.c, and the forced timer interrupt.
-- The stack pointer of a process is a number. `none` is a NULL process that the code writes through.
pub mod Sound
pub mod Turns
pub mod Fair
pub mod Fairness
pub mod Rotation
use tp2_so_g.Base.{
  ℕ, zero, suc, Bool, true, false, Option, none, some, List, [], ◌∷◌, if◌then◌else◌, update,
}
use tp2_so_g.Kernel.{
  Kernel, Process, State, ready, running, state_eq, modify, set_state, set_rsp, has_quantums,
  use_quantum, reset_quantums, idle_pid,
}
use tp2_so_g.Ready.{enqueue_ready}

-- `isSoundPlaying()` touches the sound driver only.
unfoldable pub timer_handler : Kernel → Kernel
timer_handler k = record k { ticks = suc k.ticks }

-- `isQueueEmpty(readyQueue) ? IDLE_PID : pollQueue(readyQueue)`
unfoldable pub get_next_pid : Kernel → ℕ × Kernel
get_next_pid k = elim k.ready_queue [
  | [] ↦ (idle_pid, k)
  | p ∷ rest ↦ (p, record k { ready_queue = rest })
]

-- The process in the slot becomes the current one, RUNNING with a fresh quantum less one.
abbrev pub start_run : Process → Process
start_run p = use_quantum (reset_quantums (set_state running p))

unfoldable pub dispatch : Kernel → Option (ℕ × Kernel)
unfolding get_next_pid
dispatch k =
    let (next, k') = get_next_pid k in
    elim (k'.table next) [
      | none ↦ none
      | some p ↦ some (
        p.rsp,
        record k' { table = update k'.table next (some (start_run p)); current = some next },
      )
    ]

-- `setState(currentProcess, READY); enqueue(readyQueue, getPID(currentProcess));`
unfoldable pub preempt : ℕ → ℕ → Kernel → Kernel
unfolding enqueue_ready
preempt c pid k = enqueue_ready pid (modify c (set_state ready) k)

schedule_current : ℕ → ℕ → Process → Kernel → Option (ℕ × Kernel)
unfolding preempt dispatch
schedule_current prev_rsp c p k =
    if state_eq p.state running
    then if has_quantums p
      then some (prev_rsp, modify c use_quantum k)
      else dispatch (preempt c p.pid k)
    else dispatch k

-- `k` is the state after timer_handler.
schedule_enabled : ℕ → Kernel → Option (ℕ × Kernel)
unfolding schedule_current dispatch
schedule_enabled prev_rsp k = elim k.current [
  | none ↦ dispatch k
  | some c ↦ elim (k.table c) [
    | none ↦ none
    | some p ↦ schedule_current prev_rsp c p (modify c (set_rsp prev_rsp) k)
  ]
]

unfoldable pub schedule : ℕ → Kernel → Option (ℕ × Kernel)
unfolding timer_handler schedule_enabled
schedule prev_rsp k =
    let k' = timer_handler k in
    if k'.enabled then schedule_enabled prev_rsp k' else some (prev_rsp, k')

-- `n` timer interrupts; `frame` is where the stack stands when one comes, and `between i` is what the
-- kernel is made to do after the i-th of them.
unfoldable pub run_ticks : ℕ → (ℕ → Kernel → Kernel) → (Kernel → ℕ) → Kernel → Option Kernel
run_ticks zero between frame k = some k
run_ticks (suc n) between frame k = elim (schedule (frame k) k) [
  | none ↦ none
  | some (rsp, k') ↦ run_ticks n (λ i. between (suc i)) frame (between 0 k')
]
