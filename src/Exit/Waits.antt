-- ===== src/Exit/Waits.antt =====
-- wait_pid, wait_any and reap_zombies of scheduler.c.
use tp2_so_g.Base.{ℕ, zero, suc, ◌||◌, not, Bool, true, false, Option, none, some, if◌then◌else◌}
use tp2_so_g.Kernel.{Kernel, done, failed, bad_pid}
use tp2_so_g.Kernel.Action.{Action, pure, ◌>>=◌, ◌>>◌, gets, change}
use tp2_so_g.Schedule.{schedule}
use tp2_so_g.Semaphore.{sem_try_wait, wait_section}
use tp2_so_g.Fds.{has_process}
use tp2_so_g.Spawn.{at_process}
use tp2_so_g.Exit.{reap_process, poll_terminated, remove_child, forget_terminated, parent_of}

-- What a call that may give up the processor gives: it is over, or `rest` is left of it.
pub data Progress : Type 0 where
  over : Progress
  later : (Kernel → Option (Unit {0} × Kernel)) → Progress

-- `semWait(sem)` with what follows; -1 on NULL, which no caller here looks at.
unfoldable pub wait_then : Option ℕ → ℕ → Action (Unit {0}) → Action Progress
unfolding wait_section schedule
wait_then none frame rest k = (do rest; pure over) k
wait_then (some a) frame rest k = elim (wait_section a k) [
  | none ↦ none
  | some (must_block, k') ↦
      if must_block
      then elim (schedule frame k') [ none ↦ none | some (rsp, k2) ↦ some (later rest, k2) ]
      else (do rest; pure over) k'
]

unfoldable pub leave_parent : Option ℕ → ℕ → Action (Unit {0})
unfolding sem_try_wait remove_child forget_terminated
leave_parent none pid = pure tt
leave_parent (some i) pid = at_process i λ p. do
  sem_try_wait p.child_terminated
  change (forget_terminated i pid)
  change (remove_child i pid)

-- What wait_pid does after its semWait; the parent is the one from before.
unfoldable pub after_wait : Option ℕ → ℕ → Action (Unit {0})
unfolding leave_parent reap_process
after_wait parent pid = do leave_parent parent pid; reap_process pid

unfoldable pub wait_pid : ℕ → ℕ → Action Progress
unfolding wait_then after_wait
wait_pid pid frame = do
  there ← gets (has_process pid)
  parent ← gets (parent_of pid)
  if bad_pid pid || not there
      then pure over
      else at_process pid λ p. wait_then p.terminated frame (after_wait parent pid)

-- The reaping of the child that is polled.
unfoldable pub reap_next : ℕ → Action (Unit {0})
unfolding poll_terminated remove_child reap_process
reap_next c = do
  pid ← poll_terminated c
  if bad_pid pid then pure tt else (do change (remove_child c pid); reap_process pid)

unfoldable pub wait_any : ℕ → Action Progress
unfolding wait_then reap_next
wait_any frame k = elim k.current [
  | none ↦ some (over, k)
  | some c ↦ at_process c (λ p. wait_then p.child_terminated frame (reap_next c)) k
]

-- The loop of reap_zombies, at most `n` rounds; the flag tells whether it came to its end.
unfoldable pub reap_loop : ℕ → ℕ → Action Bool
unfolding sem_try_wait reap_next
reap_loop zero c = pure false
reap_loop (suc n) c = at_process c λ p. do
  code ← sem_try_wait p.child_terminated
  elim code [ failed ↦ pure true | done ↦ do reap_next c; reap_loop n c ]

unfoldable pub reap_zombies : ℕ → Action Bool
unfolding reap_loop
reap_zombies n k = elim k.current [ none ↦ some (true, k) | some c ↦ reap_loop n c k ]
