-- ===== src/Ready/Sound.antt =====
-- Blocking and waking keep the scheduler's accounts.
use tp2_so_g.Base.{false, count, ℕ, ◌≡◌, ◌≢◌, some, [], ◌∷◌, arith, count-append, count-without}
use tp2_so_g.Kernel.{blocked, set_state, Process, done, ready, Kernel, idle_pid}
use tp2_so_g.Kernel.Facts.{IsRunning, IsSound, HasMemory}
use tp2_so_g.Ready.{set_current_blocked, set_blocked, set_ready}

-- setReady of any pid keeps the accounts of the scheduler, as long as memory is left.
pub set_ready-IsSound : (p : ℕ) {k : Kernel} → HasMemory k → IsSound k → IsSound (set_ready p k).1
unfolding set_ready
set_ready-IsSound p {k} mem s = record {
  exact = λ i. ground (arith, s.exact i, mem k.asked, count-append i k.ready_queue (p ∷ []));
  owned = λ i. ground (arith, s.owned i);
  inside = λ i h. ground (arith, s.inside i h);
  alone = λ i. ground (arith, s.alone i);
  idle_up = ground (arith, s.idle_up);
}

-- setBlocked of any pid keeps the accounts of the scheduler.
pub set_blocked-IsSound : (p : ℕ) {k : Kernel} → IsSound k → IsSound (set_blocked p k).1
unfolding set_blocked
set_blocked-IsSound p {k} s = record {
  exact = λ i. ground (arith, s.exact i, count-without i p k.ready_queue);
  owned = λ i. ground (arith, s.owned i);
  inside = λ i h. ground (arith, s.inside i h);
  alone = λ i. ground (arith, s.alone i);
  idle_up = ground (arith, s.idle_up);
}

-- A process that runs, and is not the idle one, may block itself.
pub set_current_blocked-IsSound :
    {k : Kernel} (c : ℕ)
    → k.current ≡ some c
    → IsRunning (k.table c)
    → c ≢ idle_pid
    → IsSound k
    → IsSound (set_current_blocked k)
unfolding set_current_blocked
set_current_blocked-IsSound {k} c e r ne s = record {
  exact = λ i. ground (arith, s.exact i);
  owned = λ i. ground (arith, s.owned i);
  inside = λ i h. ground (arith, s.inside i h, s.inside c);
  alone = λ i. ground (arith, s.alone i);
  idle_up = ground (arith, s.idle_up);
}

-- When the node of the ready queue is not granted, setReady still returns 0 and marks the process
-- READY, but the process is nowhere in the queue.
pub set_ready-lost :
    (p : ℕ) (k : Kernel) (pr : Process)
    → IsSound k
    → k.grants k.asked ≡ false
    → k.table p ≡ some pr
    → pr.state ≡ blocked
    → let (code, k') = set_ready p k in
      (code ≡ done) × (k'.table p ≡ some (set_state ready pr)) × (count p k'.ready_queue ≡ 0)
unfolding set_ready
set_ready-lost p k pr s refused f b = ground (arith, s.exact p, s.inside p)
