-- ===== src/Schedule/Turns.antt =====
-- One call of schedule, branch by branch.
use tp2_so_g.Base.{
  ℕ, zero, suc, ◌<◌, ◌≡◌, ◌≢◌, refl, true, Option, some, [], ◌∷◌, ◌++◌, arith, if◌then◌else◌,
  Bool-cases, inl, inr, ◌⊎◌,
}
use tp2_so_g.Kernel.{
  Kernel, Process, State, ready, running, blocked, zombie, modify, set_rsp, use_quantum, state_eq,
}
use tp2_so_g.Kernel.Facts.{IsSound, HasMemory}
use tp2_so_g.Schedule.{schedule, dispatch, preempt, start_run}
use tp2_so_g.Schedule.Sound.{NoneRuns, Switched, dispatch-Switched, preempt-IsSound}

-- The tick is counted and the outgoing stack pointer is stored.
abbrev pub saved : ℕ → ℕ → Kernel → Kernel
saved prev c k = modify c (set_rsp prev) (record k { ticks = suc k.ticks })

-- What is dispatched from: the outgoing process is queued again if it was RUNNING.
abbrev pub yielded : ℕ → ℕ → Process → Kernel → Kernel
yielded prev c p k =
    if state_eq p.state running then preempt c c (saved prev c k) else saved prev c k

module _ {k : Kernel} (prev c : ℕ) (p : Process) (s : IsSound k) (on : k.enabled ≡ true)
    (cur : k.current ≡ some c) (here : k.table c ≡ some p) where
  pub saved-IsSound : IsSound (saved prev c k)
  saved-IsSound = record {
    exact = λ i. ground (arith, s.exact i);
    owned = λ i. ground (arith, s.owned i);
    inside = λ i h. ground (arith, s.inside i h);
    alone = λ i. ground (arith, s.alone i);
    idle_up = ground (arith, s.idle_up);
  }

  -- With quantums left the process goes on, one quantum the poorer.
  pub schedule-keeps :
      p.state ≡ running
      → 0 < p.remaining_quantums
      → schedule prev k ≡ some (prev, modify c use_quantum (saved prev c k))
  unfolding schedule
  schedule-keeps st q = ground arith

  schedule-dispatch :
      (p.state ≢ running) ⊎ (p.remaining_quantums ≡ 0)
      → schedule prev k ≡ dispatch (yielded prev c p k)
  unfolding schedule
  schedule-dispatch out = ground (arith, s.owned c)

  yielded-IsSound : HasMemory k → IsSound (yielded prev c p k) × NoneRuns (yielded prev c p k)
  yielded-IsSound mem = elim (Bool-cases (state_eq p.state running)) [
    | inl y ↦ rw y (
        preempt-IsSound {k = saved prev c k} c (set_rsp prev p) (λ n h. ground (arith, mem n))
          saved-IsSound (ground arith) (ground arith))
    | inr n ↦ rw n (saved-IsSound, λ i. ground (arith, s.alone i))
  ]

  -- The process is dispatched from the queue that preempt leaves.
  pub schedule-Switched :
      HasMemory k
      → (p.state ≢ running) ⊎ (p.remaining_quantums ≡ 0)
      → Switched (yielded prev c p k) (schedule prev k)
  schedule-Switched mem out =
      let (sound, quiet) = yielded-IsSound mem in
      rw (schedule-dispatch out) (dispatch-Switched sound quiet)

-- The queue that is dispatched from.
pub ready_queue-yielded :
    (k : Kernel) (prev c : ℕ) (p : Process)
    → HasMemory k
    → k.table c ≡ some p
    → (yielded prev c p k).ready_queue
      ≡ (if state_eq p.state running then k.ready_queue ++ c ∷ [] else k.ready_queue)
unfolding preempt
ready_queue-yielded k prev c p mem here = ground (arith, mem k.asked)

-- What holds after a call: the accounts are in order and the process that runs is RUNNING.
pub record Runs (k : Kernel) : Type 0 where
  pub pid : ℕ
  pub process : Process
  pub current_is : k.current ≡ some pid
  pub found : k.table pid ≡ some process
  pub is_running : process.state ≡ running
  pub sound : IsSound k

-- The process goes on: it is the current one, with its memory of quantums.
pub kept-Runs :
    {k : Kernel} (prev c : ℕ) (p : Process)
    → IsSound k
    → k.current ≡ some c
    → k.table c ≡ some p
    → p.state ≡ running
    → Runs (modify c use_quantum (saved prev c k))
kept-Runs {k} prev c p s cur here st = record {
  pid = c;
  process = use_quantum (set_rsp prev p);
  current_is = ground arith;
  found = ground arith;
  is_running = st;
  sound = record {
    exact = λ i. ground (arith, s.exact i);
    owned = λ i. ground (arith, s.owned i);
    inside = λ i h. ground (arith, s.inside i h);
    alone = λ i. ground (arith, s.alone i);
    idle_up = ground (arith, s.idle_up);
  };
}

pub Switched-Runs : {k : Kernel} {r : Option (ℕ × Kernel)} → (w : Switched k r) → Runs w.after
Switched-Runs w = record {
  pid = w.next;
  process = start_run w.process;
  current_is = w.current_is;
  found = w.runs;
  is_running = refl;
  sound = w.sound;
}

pub quantum_cases : (st : State) (q : ℕ) → ((st ≡ running) × (0 < q)) ⊎ ((st ≢ running) ⊎ (q ≡ 0))
quantum_cases running zero = inr (inr refl)
quantum_cases running (suc q) = inl (refl, omega arith)
quantum_cases ready q = inr (inl (λ e. cc))
quantum_cases blocked q = inr (inl (λ e. cc))
quantum_cases zombie q = inr (inl (λ e. cc))

-- With the scheduler enabled, its accounts in order, memory left and a current process in the table, in
-- whatever state that is, schedule returns, the accounts stay in order and the process that it returns to is RUNNING.
pub schedule-Runs :
    {k : Kernel} (prev c : ℕ) (p : Process)
    → IsSound k
    → HasMemory k
    → k.enabled ≡ true
    → k.current ≡ some c
    → k.table c ≡ some p
    → (rsp : ℕ) × (after : Kernel) × (schedule prev k ≡ some (rsp, after)) × Runs after
schedule-Runs prev c p s mem on cur here = elim (quantum_cases p.state p.remaining_quantums) [
  | inl (st, q) ↦
      (_, _, schedule-keeps prev c p s on cur here st q, kept-Runs prev c p s cur here st)
  | inr out ↦
      let w = schedule-Switched prev c p s on cur here mem out in
      (_, _, w.result_is, Switched-Runs w)
]
