-- ===== src/Schedule/Sound.antt =====
-- The scheduler returns a process that runs, and keeps its accounts.
use tp2_so_g.Base.{
  ◌≢◌, ℕ, ◌≡◌, ◌≢◌, refl, Option, some, inl, inr, List, [], ◌∷◌, arith, count-append, update,
  Option-cases,
}
use tp2_so_g.Kernel.{Kernel, Process, ready, running, idle_pid}
use tp2_so_g.Kernel.Facts.{IsRunning, IsSound, HasMemory}
use tp2_so_g.Schedule.{dispatch, preempt, start_run}

-- Nobody runs, so the current process may be given up.
abbrev pub NoneRuns : Kernel → Type 0
NoneRuns k = (i : ℕ) → IsRunning (k.table i) → ⊥

-- A process at the head of the queue is in the table, and READY.
pub head_ready :
    {k : Kernel} (p : ℕ) (rest : List ℕ)
    → IsSound k
    → k.ready_queue ≡ p ∷ rest
    → (pr : Process) × (k.table p ≡ some pr) × (pr.state ≡ ready)
head_ready {k} p rest s e = elim (Option-cases (k.table p)) [
  | inl h ↦ absurd (ground (arith, s.exact p))
  | inr (pr, h) ↦ (pr, h, ground (arith, s.exact p))
]

-- The queue is empty only while somebody runs: idle would be in it.
pub ready_queue_of_NoneRuns : {k : Kernel} → IsSound k → NoneRuns k → k.ready_queue ≢ []
ready_queue_of_NoneRuns {k} s quiet e = ground (arith, s.exact idle_pid, s.idle_up, quiet idle_pid)

-- The state once `pr`, in slot `p`, has been picked from the head of the queue.
unfoldable pub dispatched : ℕ → List ℕ → Process → Kernel → Kernel
dispatched p rest pr k = record k {
  ready_queue = rest;
  table = update k.table p (some (start_run pr));
  current = some p;
}

-- What `dispatch` does: the oldest ready process runs next, with its own stack.
pub record Switched (k : Kernel) (result : Option (ℕ × Kernel)) : Type 0 where
  pub next : ℕ
  pub rest : List ℕ
  pub process : Process
  pub after : Kernel
  pub after_is : after ≡ dispatched next rest process k
  pub queued : k.ready_queue ≡ next ∷ rest
  pub found : k.table next ≡ some process
  pub result_is : result ≡ some (process.rsp, after)
  pub current_is : after.current ≡ some next
  pub runs : after.table next ≡ some (start_run process)
  pub left : after.ready_queue ≡ rest
  pub sound : IsSound after

dispatched-IsSound :
    {k : Kernel} (p : ℕ) (rest : List ℕ) (pr : Process)
    → IsSound k
    → NoneRuns k
    → k.ready_queue ≡ p ∷ rest
    → k.table p ≡ some pr
    → IsSound (dispatched p rest pr k)
unfolding dispatched
dispatched-IsSound {k} p rest pr s quiet e f = record {
  exact = λ i. ground (arith, s.exact i);
  owned = λ i. ground (arith, s.owned i);
  inside = λ i h. ground (arith, s.inside i h);
  alone = λ i. ground (arith, quiet i);
  idle_up = ground (arith, s.idle_up);
}

pub dispatch-Switched : {k : Kernel} → IsSound k → NoneRuns k → Switched k (dispatch k)
dispatch-Switched {k} s quiet = start k.ready_queue refl
  where
    start : (xs : List ℕ) → k.ready_queue ≡ xs → Switched k (dispatch k)
    start [] e = absurd (ready_queue_of_NoneRuns s quiet e)
    start (p ∷ rest) e =
        let (pr, f, st) = head_ready p rest s e in
        record {
          next = p;
          rest = rest;
          process = pr;
          after = dispatched p rest pr k;
          after_is = refl;
          queued = e;
          found = f;
          result_is = unfold dispatch dispatched in ground arith;
          current_is = unfold dispatched in refl;
          runs = unfold dispatched in ground arith;
          left = unfold dispatched in refl;
          sound = dispatched-IsSound p rest pr s quiet e f;
        }

pub preempt-IsSound :
    {k : Kernel} (c : ℕ) (p : Process)
    → HasMemory k
    → IsSound k
    → k.table c ≡ some p
    → p.state ≡ running
    → IsSound (preempt c c k) × NoneRuns (preempt c c k)
unfolding preempt
preempt-IsSound {k} c p mem s f st = (
  record {
    exact = λ i. ground (arith, s.exact i, mem k.asked, count-append i k.ready_queue (c ∷ []));
    owned = λ i. ground (arith, s.owned i);
    inside = λ i h. ground (arith, s.inside i h);
    alone = λ i. ground (arith, s.alone i);
    idle_up = ground (arith, s.idle_up);
  },
  λ i. ground (arith, s.alone i, s.alone c),
)
