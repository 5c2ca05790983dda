-- ===== src/Tests/Demo.antt =====
-- A small system: idle (0) and process 4 wait in the ready queue, process 2 runs, process 3 is blocked
-- on the semaphore at 9, whose queue also holds the pid 7 of a process that is gone.
use tp2_so_g.Base.{◌*◌, ◌+◌, ℕ, refl, true, false, none, some, [], ◌∷◌, arith, update}
use tp2_so_g.Base.Int.{pos, negsuc}
use tp2_so_g.Kernel.{Kernel, Process, Semaphore, State, ready, running, blocked}
use tp2_so_g.Kernel.Facts.{IsSound, InOrder}

abbrev pub process : ℕ → State → ℕ → Process
process pid state quantums = record {
  pid = pid;
  stack_base = 4096 * pid;
  stack_size = 0x8000;
  rsp = 4096 * pid + 0x8000;
  rip = 0;
  state = state;
  name = [];
  priority_level = 2;
  remaining_quantums = quantums;
  ppid = 1;
  children = some [];
  terminated_children = some [];
  terminated = none;
  child_terminated = none;
  argc = 0;
  argv = none;
  fd_table = λ i. none;
  eof_requests = λ i. false;
}

abbrev pub waiting : Semaphore
waiting = record { value = negsuc 1; blocked_queue = 7 ∷ 3 ∷ []; lock = false }

abbrev pub available : Semaphore
available = record { value = pos 1; blocked_queue = []; lock = false }

abbrev pub demo : Kernel
demo = record {
  table =
      update
        (update
          (update (update (λ i. none) 0 (some (process 0 ready 2))) 2 (some (process 2 running 1)))
          3 (some (process 3 blocked 0)))
        4 (some (process 4 ready 2));
  foreground = λ i. false;
  current = some 2;
  ready_queue = 0 ∷ 4 ∷ [];
  enabled = true;
  ticks = 5;
  sems = update (update (λ a. none) 9 (some waiting)) 8 (some available);
  pipes = λ a. none;
  files = λ a. none;
  grants = λ n. true;
  asked = 20;
}

pub demo-IsSound : IsSound demo
demo-IsSound = record {
  exact = λ i. ground arith;
  owned = λ i. ground arith;
  inside = λ i h. ground arith;
  alone = λ i. ground arith;
  idle_up = ground arith;
}

pub demo-InOrder : InOrder demo
demo-InOrder = record { sound = demo-IsSound; memory = λ n h. refl; at_rest = λ a. ground arith }
