-- ===== src/Schedule/Fairness.antt =====
-- No starvation: a process in the ready queue is dispatched within a bounded number of ticks.
use tp2_so_g.Base.{
  ℕ, zero, suc, ◌+◌, ◌*◌, ◌≤◌, ◌<◌, ◌≡◌, true, Option, none, some, List, [], ◌∷◌, ◌++◌, arith,
  length, inl, inr, ◌⊎◌, append_assoc, ap, ◌∙◌,
}
use tp2_so_g.Kernel.{Kernel, Process, modify, use_quantum}
use tp2_so_g.Kernel.Facts.{HasMemory}
use tp2_so_g.Schedule.{schedule, run_ticks, preempt}
use tp2_so_g.Schedule.Sound.{Switched, dispatched}
use tp2_so_g.Schedule.Turns.{
  saved, yielded, schedule-keeps, schedule-Switched, ready_queue-yielded, Runs, kept-Runs,
  Switched-Runs, quantum_cases,
}

-- Priorities and quantums are `uint8_t`.
abbrev pub Byte : Option Process → Type 0
Byte none = Unit
Byte (some p) = (p.priority_level < 256) × (p.remaining_quantums < 256)

abbrev pub Bytes : Kernel → Type 0
Bytes k = (i : ℕ) → Byte (k.table i)

-- The scheduler is on, somebody runs and memory is left.
pub record Live (k : Kernel) : Type 0 where
  pub runs : Runs k
  pub memory : HasMemory k
  pub on : k.enabled ≡ true
  pub bytes : Bytes k

-- What one tick does to a live kernel.
record Tick (k : Kernel) (l : Live k) (prev : ℕ) : Type 0 where
  rsp : ℕ
  after : Kernel
  returns : schedule prev k ≡ some (rsp, after)
  live : Live after
  moves :
      ((after.ready_queue ≡ k.ready_queue)
        × (live.runs.process.remaining_quantums + 1 ≡ l.runs.process.remaining_quantums))
      ⊎ (live.runs.pid ∷ after.ready_queue ≡ k.ready_queue ++ l.runs.pid ∷ [])

module _ {k : Kernel} (l : Live k) (prev : ℕ) where
  open l.runs use {pid as c, process as p, sound as s, current_is as cur, found as here}

  switched-Live : {r : Option (ℕ × Kernel)} (w : Switched (yielded prev c p k) r) → Live w.after
  unfolding dispatched preempt
  switched-Live w = record {
    runs = Switched-Runs w;
    memory = λ n h. ground (arith, w.after_is, l.memory n);
    on = ground (arith, w.after_is, l.on);
    bytes = λ i. ground (arith, w.after_is, w.found, l.bytes i, l.bytes w.next);
  }

  tick : Tick k l prev
  tick = elim (quantum_cases p.state p.remaining_quantums) [
    | inl (st, q) ↦ record {
      rsp = prev;
      after = modify c use_quantum (saved prev c k);
      returns = schedule-keeps prev c p s l.on cur here st q;
      live = record {
        runs = kept-Runs prev c p s cur here st;
        memory = λ n h. ground (arith, l.memory n);
        on = ground (arith, l.on);
        bytes = λ i. ground (arith, l.bytes i);
      };
      moves = inl (ground arith, ground arith);
    }
    | inr out ↦
        let w = schedule-Switched prev c p s l.on cur here l.memory out in
        record {
          rsp = w.process.rsp;
          after = w.after;
          returns = w.result_is;
          live = switched-Live w;
          moves = inr (
              ground (
                arith,
                w.left,
                w.queued,
                l.runs.is_running,
                ready_queue-yielded k prev c p l.memory here,
              ));
        }
  ]

-- What is done between two ticks leaves a live kernel, lets the same process run with no more quantums,
-- and lets processes into the ready queue at its end only.
pub record Behaved (k k' : Kernel) (l : Live k) : Type 0 where
  pub live : Live k'
  pub same_pid : live.runs.pid ≡ l.runs.pid
  pub quantums : live.runs.process.remaining_quantums ≤ l.runs.process.remaining_quantums
  pub newcomers : List ℕ
  pub queue : k'.ready_queue ≡ k.ready_queue ++ newcomers

abbrev pub IsFair : (ℕ → Kernel → Kernel) → Type 0
IsFair between = (i : ℕ) (k : Kernel) (l : Live k) → Behaved k (between i k) l

-- `p` is the current process after at most `bound` ticks.
pub record Served (between : ℕ → Kernel → Kernel) (frame : Kernel → ℕ) (k : Kernel) (p bound : ℕ)
    : Type 0 where
  pub ticks_taken : ℕ
  pub in_time : ticks_taken ≤ bound
  pub after : Kernel
  pub reached : run_ticks ticks_taken between frame k ≡ some after
  pub served : after.current ≡ some p

-- One tick more in front.
Served-suc :
    {between : ℕ → Kernel → Kernel} {frame : Kernel → ℕ} {k k' : Kernel} {p bound : ℕ} {rsp : ℕ}
    → schedule (frame k) k ≡ some (rsp, k')
    → Served (λ i. between (suc i)) frame (between 0 k') p bound
    → Served between frame k p (bound + 1)
unfolding run_ticks
Served-suc e v = record {
  ticks_taken = suc v.ticks_taken;
  in_time = omega (arith, v.in_time);
  after = v.after;
  reached = rw (e, run_ticks) v.reached;
  served = v.served;
}

Served-mono :
    {between : ℕ → Kernel → Kernel} {frame : Kernel → ℕ} {k : Kernel} {p b c : ℕ}
    → b ≤ c
    → Served between frame k p b
    → Served between frame k p c
Served-mono h v = record {
  ticks_taken = v.ticks_taken;
  in_time = omega (arith, v.in_time);
  after = v.after;
  reached = v.reached;
  served = v.served;
}

-- The ticks that may pass: the current process's quantums, and 256 for each process in front.
abbrev pub wait_bound : {k : Kernel} → Live k → List ℕ → ℕ
wait_bound l xs = 256 * length xs + l.runs.process.remaining_quantums

remaining-lt : {k : Kernel} (l : Live k) → l.runs.process.remaining_quantums < 256
remaining-lt l = ground (arith, l.bytes l.runs.pid, l.runs.found)

Served-now :
    (between : ℕ → Kernel → Kernel) (frame : Kernel → ℕ) {k : Kernel} (l : Live k)
    (t : Tick k l (frame k)) (b : Behaved t.after (between 0 t.after) t.live) (p : ℕ)
    → t.live.runs.pid ≡ p
    → Served between frame k p 1
unfolding run_ticks
Served-now between frame l t b p e = record {
  ticks_taken = 1;
  in_time = omega arith;
  after = between 0 t.after;
  reached = rw (t.returns, run_ticks);
  served = b.live.runs.current_is ∙ ap some (b.same_pid ∙ e);
}

-- The place of `p` after newcomers.
place_kept :
    (queue queue' xs ys new : List ℕ) (p : ℕ)
    → queue' ≡ queue ++ new
    → queue ≡ xs ++ p ∷ ys
    → queue' ≡ xs ++ p ∷ (ys ++ new)
place_kept queue queue' xs ys new p e f = e ∙ ap (λ q. q ++ new) f ∙ append_assoc xs (p ∷ ys) new

module _ (fuel : ℕ) (between : ℕ → Kernel → Kernel) (fair : IsFair between) (frame : Kernel → ℕ)
    (p : ℕ)
    (rec : (k : Kernel) (l : Live k) (xs ys : List ℕ)
      → k.ready_queue ≡ xs ++ p ∷ ys
      → wait_bound l xs < fuel
      → Served (λ i. between (suc i)) frame k p (wait_bound l xs + 1)) where
  Served-step :
      {k : Kernel} (l : Live k) (xs ys : List ℕ) (t : Tick k l (frame k))
      → k.ready_queue ≡ xs ++ p ∷ ys
      → wait_bound l xs < suc fuel
      → Served between frame k p (wait_bound l xs + 1)
  Served-step {k = k} l xs ys t e h =
      let b = fair 0 t.after t.live in
      elim t.moves [
        | inl (q, r) ↦ Served-mono (omega (arith, r, b.quantums)) (
            Served-suc t.returns (
              rec (between 0 t.after) b.live xs (ys ++ b.newcomers)
                (place_kept t.after.ready_queue (between 0 t.after).ready_queue xs ys b.newcomers p
                  b.queue (q ∙ e))
                (omega (arith, r, b.quantums, h))))
        | inr m ↦ rotated xs b e m h
      ]
    where
      rotated :
          (xs : List ℕ)
          → Behaved t.after (between 0 t.after) t.live
          → k.ready_queue ≡ xs ++ p ∷ ys
          → t.live.runs.pid ∷ t.after.ready_queue ≡ k.ready_queue ++ l.runs.pid ∷ []
          → wait_bound l xs < suc fuel
          → Served between frame k p (wait_bound l xs + 1)
      rotated [] b e m h =
          Served-mono (omega arith) (Served-now between frame l t b p (ground arith))
      rotated (x ∷ xs) b e m h =
          let zs = ys ++ l.runs.pid ∷ [] in
          let at : t.after.ready_queue ≡ xs ++ p ∷ zs =
            ground (arith, append_assoc xs (p ∷ ys) (l.runs.pid ∷ [])) in
          Served-mono (omega (arith, remaining-lt b.live)) (
            Served-suc t.returns (
              rec (between 0 t.after) b.live xs (zs ++ b.newcomers)
                (place_kept t.after.ready_queue (between 0 t.after).ready_queue xs zs b.newcomers p
                  b.queue at)
                (omega (arith, remaining-lt b.live, h))))

Served-within :
    (fuel : ℕ) (between : ℕ → Kernel → Kernel) (fair : IsFair between) (frame : Kernel → ℕ) (p : ℕ)
    (k : Kernel) (l : Live k) (xs ys : List ℕ)
    → k.ready_queue ≡ xs ++ p ∷ ys
    → wait_bound l xs < fuel
    → Served between frame k p (wait_bound l xs + 1)
Served-within zero between fair frame p k l xs ys e h = absurd (omega arith)
Served-within (suc fuel) between fair frame p k l xs ys e h =
    Served-step fuel between fair frame p
      (Served-within fuel (λ i. between (suc i)) (λ i. fair (suc i)) frame p) l xs ys
      (tick l (frame k)) e h

-- No starvation by the timer. With the scheduler on, its accounts in order, a process running and memory
-- left, a process in the ready queue is the current one after at most the quantums of the process that
-- runs, 256 timer interrupts for each process in front, and one more; as long as what is done between
-- the interrupts, for every such kernel, leaves such a kernel, does not change the process that runs or
-- give it more quantums, and changes the ready queue only by processes that join at its end.
pub no_starvation :
    (between : ℕ → Kernel → Kernel) (frame : Kernel → ℕ) (p : ℕ) (k : Kernel) (l : Live k)
    (xs ys : List ℕ)
    → IsFair between
    → k.ready_queue ≡ xs ++ p ∷ ys
    → Served between frame k p (wait_bound l xs + 1)
no_starvation between frame p k l xs ys fair e =
    Served-within (suc (wait_bound l xs)) between fair frame p k l xs ys e (omega arith)
