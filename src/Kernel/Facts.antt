-- ===== src/Kernel/Facts.antt =====
-- What is counted and kept of the process table and the ready queue of scheduler.c.
use tp2_so_g.Base.Int.{neg_part}
use tp2_so_g.Base.{length, false, ℕ, ◌≤◌, ◌≡◌, ◌⊎◌, true, Option, none, some, count}
use tp2_so_g.Kernel.{Semaphore, Kernel, Process, State, ready, running, idle_pid, max_processes}

abbrev pub ready_bit : Option Process → ℕ
ready_bit none = 0
ready_bit (some p) = elim p.state [ State.ready ↦ 1 | _ ↦ 0 ]

abbrev pub OwnsSlot : ℕ → Option Process → Type 0
OwnsSlot i none = Unit
OwnsSlot i (some p) = p.pid ≡ i

abbrev pub IsRunning : Option Process → Type 0
IsRunning none = ⊥
IsRunning (some p) = p.state ≡ running

abbrev pub IsUp : Option Process → Type 0
IsUp none = ⊥
IsUp (some p) = (p.state ≡ ready) ⊎ (p.state ≡ running)

-- The scheduler's accounts are in order.
pub record IsSound (k : Kernel) : Type 0 where
  -- the ready queue holds the pid of every READY process once, and nothing else
  pub exact : (i : ℕ) → count i k.ready_queue ≡ ready_bit (k.table i)
  pub owned : (i : ℕ) → OwnsSlot i (k.table i)
  pub inside : (i : ℕ) → max_processes ≤ i → k.table i ≡ none
  -- nobody but the current process is RUNNING
  pub alone : (i : ℕ) → IsRunning (k.table i) → k.current ≡ some i
  pub idle_up : IsUp (k.table idle_pid)

-- Every later request for memory is granted.
abbrev pub HasMemory : Kernel → Type 0
HasMemory k = (n : ℕ) → k.asked ≤ n → k.grants n ≡ true

-- A semaphore at rest: its lock is free and as many processes wait as its value is below zero.
abbrev pub AtRest : Option Semaphore → Type 0
AtRest none = Unit
AtRest (some s) = (length s.blocked_queue ≡ neg_part s.value) × (s.lock ≡ false)

abbrev pub SemsAtRest : Kernel → Type 0
SemsAtRest k = (a : ℕ) → AtRest (k.sems a)

-- The kernel between two calls.
pub record InOrder (k : Kernel) : Type 0 where
  pub sound : IsSound k
  pub memory : HasMemory k
  pub at_rest : SemsAtRest k
