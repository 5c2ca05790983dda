-- ===== src/Schedule/Fair.antt =====
-- setReady between two ticks does not delay those who wait already.
use tp2_so_g.Base.{
  ℕ, ◌≡◌, ◌≤◌, refl, sym, ◌∙◌, ap, true, some, List, [], ◌∷◌, ◌++◌, arith, inl, inr, append-nil,
}
use tp2_so_g.Kernel.{Kernel, Process, done, failed, running}
use tp2_so_g.Ready.{set_ready}
use tp2_so_g.Ready.Sound.{set_ready-IsSound}
use tp2_so_g.Semaphore.Loop.{Code-cases}
use tp2_so_g.Schedule.Fairness.{Live, Behaved, Byte}

set_ready_same : (q : ℕ) (k : Kernel) → (set_ready q k).0 ≡ failed → (set_ready q k).1 ≡ k
unfolding set_ready
set_ready_same q k e = ground (arith, e)

set_ready_last :
    (q : ℕ) (k : Kernel)
    → k.grants k.asked ≡ true
    → (set_ready q k).0 ≡ done
    → (set_ready q k).1.ready_queue ≡ k.ready_queue ++ q ∷ []
unfolding set_ready
set_ready_last q k g e = ground (arith, e, g)

newcomer :
    (q : ℕ) (k : Kernel)
    → k.grants k.asked ≡ true
    → (new : List ℕ) × ((set_ready q k).1.ready_queue ≡ k.ready_queue ++ new)
newcomer q k g = elim (Code-cases (set_ready q k).0) [
  | inl d ↦ (q ∷ [], set_ready_last q k g d)
  | inr f ↦ ([], ap (λ x. x.ready_queue) (set_ready_same q k f) ∙ sym (append-nil k.ready_queue))
]

runner_kept :
    (q c : ℕ) (p : Process) (k : Kernel)
    → k.table c ≡ some p
    → p.state ≡ running
    → (set_ready q k).1.table c ≡ some p
unfolding set_ready
runner_kept q c p k e r = ground (arith, e, r)

rest_kept :
    (q : ℕ) (k : Kernel)
    → ((set_ready q k).1.current ≡ k.current)
      × ((set_ready q k).1.enabled ≡ k.enabled)
      × ((set_ready q k).1.grants ≡ k.grants)
      × (k.asked ≤ (set_ready q k).1.asked)
unfolding set_ready
rest_kept q k = (ground arith, ground arith, ground arith, ground arith)

bytes_kept : (q i : ℕ) (k : Kernel) → Byte (k.table i) → Byte ((set_ready q k).1.table i)
unfolding set_ready
bytes_kept q i k b = ground (arith, b)

pub set_ready-Behaved : (q : ℕ) (k : Kernel) (l : Live k) → Behaved k (set_ready q k).1 l
set_ready-Behaved q k l =
    let (cur, on, same, more) = rest_kept q k in
    let (new, queue) = newcomer q k (l.memory k.asked (omega arith)) in
    record {
      live = record {
        runs = record {
          pid = l.runs.pid;
          process = l.runs.process;
          current_is = cur ∙ l.runs.current_is;
          found = runner_kept q l.runs.pid l.runs.process k l.runs.found l.runs.is_running;
          is_running = l.runs.is_running;
          sound = set_ready-IsSound q l.memory l.runs.sound;
        };
        memory = λ n h. ap (λ g. g n) same ∙ l.memory n (omega (arith, more, h));
        on = on ∙ l.on;
        bytes = λ i. bytes_kept q i k (l.bytes i);
      };
      same_pid = refl;
      quantums = omega arith;
      newcomers = new;
      queue = queue;
    }
