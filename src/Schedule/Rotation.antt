-- ===== src/Schedule/Rotation.antt =====
-- What one call of schedule does to the ready queue and to the processes.
use tp2_so_g.Base.{
  ℕ, ◌-◌, ◌≡◌, refl, ◌≢◌, ◌⊎◌, ◌∙◌, sym, ap, true, false, Bool, Option, some, List, [], ◌∷◌, ◌++◌,
  arith, append-nil, if◌then◌else◌, ◌==◌,
}
use tp2_so_g.Kernel.{Kernel, Process, ready, running, state_eq}
use tp2_so_g.Kernel.Facts.{IsSound, HasMemory}
use tp2_so_g.Schedule.{schedule, preempt}
use tp2_so_g.Schedule.Sound.{dispatched}
use tp2_so_g.Schedule.Turns.{yielded, schedule-Switched, ready_queue-yielded}

-- The process that gives way: its stack pointer is stored, and it is READY if it was RUNNING.
abbrev pub outgoing : ℕ → Process → Process
outgoing prev p = record p {
  rsp = prev;
  state = if state_eq p.state running then ready else p.state;
}

-- The processes when the next one is picked.
abbrev pub at_pick : ℕ → ℕ → Process → Kernel → ℕ → Option Process
at_pick prev c p k j = if j == c then some (outgoing prev p) else k.table j

abbrev pub picked : Process → Process
picked p = record p { state = running; remaining_quantums = p.priority_level - 1 }

-- The head of the queue runs, where a RUNNING process that gives way is behind all others.
pub record Rotated (prev c : ℕ) (p : Process) (k : Kernel) (result : Option (ℕ × Kernel))
    : Type 0 where
  pub next : ℕ
  pub process : Process
  pub after : Kernel
  pub result_is : result ≡ some (process.rsp, after)
  pub current_is : after.current ≡ some next
  pub queue :
      next ∷ after.ready_queue ≡ k.ready_queue ++ (if state_eq p.state running then c ∷ [] else [])
  pub found : at_pick prev c p k next ≡ some process
  pub processes :
      (j : ℕ) → after.table j ≡ (if j == next then some (picked process) else at_pick prev c p k j)
  pub sound : IsSound after

table_yielded :
    (prev c : ℕ) (p : Process) (k : Kernel) (j : ℕ)
    → HasMemory k
    → k.table c ≡ some p
    → (yielded prev c p k).table j ≡ at_pick prev c p k j
unfolding preempt
table_yielded prev c p k j mem here = ground (arith, mem k.asked, here)

queue_yielded :
    (prev c : ℕ) (p : Process) (k : Kernel)
    → HasMemory k
    → k.table c ≡ some p
    → (yielded prev c p k).ready_queue
      ≡ k.ready_queue ++ (if state_eq p.state running then c ∷ [] else [])
queue_yielded prev c p k mem here =
    ready_queue-yielded k prev c p mem here ∙ moved (state_eq p.state running)
  where
    moved :
        (b : Bool)
        → (if b then k.ready_queue ++ c ∷ [] else k.ready_queue)
          ≡ k.ready_queue ++ (if b then c ∷ [] else [])
    moved true = refl
    moved false = sym (append-nil k.ready_queue)

table_dispatched :
    (next : ℕ) (rest : List ℕ) (pr : Process) (k : Kernel) (j : ℕ)
    → (dispatched next rest pr k).table j ≡ (if j == next then some (picked pr) else k.table j)
unfolding dispatched
table_dispatched next rest pr k j = ground arith

-- With the scheduler on, its accounts in order and memory left, where the current process is not RUNNING
-- or has no quantum left, schedule returns to the stored stack pointer of the oldest process in the ready
-- queue. That process leaves the queue and is RUNNING with a fresh quantum less one. The process that
-- gives way has its stack pointer stored; if it was RUNNING it is READY and the last in the queue, else it
-- stays as it is and out of the queue. The order of the queue and every other process stay.
pub schedule-Rotated :
    {k : Kernel} (prev c : ℕ) (p : Process)
    → IsSound k
    → HasMemory k
    → k.enabled ≡ true
    → k.current ≡ some c
    → k.table c ≡ some p
    → (p.state ≢ running) ⊎ (p.remaining_quantums ≡ 0)
    → Rotated prev c p k (schedule prev k)
schedule-Rotated {k} prev c p s mem on cur here out =
    let w = schedule-Switched prev c p s on cur here mem out in
    let y = yielded prev c p k in
    record {
      next = w.next;
      process = w.process;
      after = w.after;
      result_is = w.result_is;
      current_is = w.current_is;
      queue = ap (λ q. w.next ∷ q) w.left ∙ sym w.queued ∙ queue_yielded prev c p k mem here;
      found = sym (table_yielded prev c p k w.next mem here) ∙ w.found;
      processes = λ j.
          ap (λ x. x.table j) w.after_is
          ∙ table_dispatched w.next w.rest w.process y j
          ∙ ap (λ o. if j == w.next then some (picked w.process) else o)
              (table_yielded prev c p k j mem here);
      sound = w.sound;
    }
