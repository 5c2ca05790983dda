-- ===== src/Semaphore/Wait.antt =====
-- semWait and semTryWait: who blocks, and what they keep.
use tp2_so_g.Base.{
  ℕ, inl, ◌≡◌, true, false, some, [], ◌∷◌, ◌++◌, arith, if◌then◌else◌, length-append, ◌≢◌,
}
use tp2_so_g.Base.Int.{dec, is_positive}
use tp2_so_g.Kernel.{
  Kernel, Process, Semaphore, running, blocked, done, failed, set_state, set_rsp, idle_pid,
}
use tp2_so_g.Kernel.Facts.{IsSound, InOrder}
use tp2_so_g.Ready.{set_current_blocked, get_current_pid}
use tp2_so_g.Ready.Sound.{set_current_blocked-IsSound}
use tp2_so_g.Schedule.Turns.{schedule-Switched}
use tp2_so_g.Schedule.Sound.{dispatched}
use tp2_so_g.Semaphore.{wait_section, block_on, sem_wait, sem_try_wait, put_sem}
use tp2_so_g.Semaphore.Post.{put_sem-IsSound}

module _ (a : ℕ) (s : Semaphore) (k : Kernel) (i : InOrder k) (e : k.sems a ≡ some s) where
  -- With a positive value semWait takes a unit, returns 0, does not give up the processor and leaves
  -- the kernel in order.
  pub sem_wait-takes :
      (frame : ℕ)
      → is_positive s.value ≡ true
      → let k' = put_sem a (some (record s { value = dec s.value; lock = false })) k in
        (sem_wait (some a) frame k ≡ some (done, k')) × InOrder k'
  unfolding sem_wait wait_section
  sem_wait-takes frame h = (
    ground (arith, i.at_rest a),
    record {
      sound = put_sem-IsSound a _ i.sound;
      memory = i.memory;
      at_rest = λ b. ground (arith, i.at_rest b, i.at_rest a);
    },
  )

  -- semTryWait takes a unit exactly when there is one, and returns -1 and keeps the value when not.
  pub sem_try_wait_lem :
      (k' : Kernel) × (sem_try_wait (some a) k
        ≡ some (if is_positive s.value then done else failed, k'))
      × (k'.sems a
          ≡ some (record s { value = if is_positive s.value then dec s.value else s.value }))
      × InOrder k'
  unfolding sem_try_wait
  sem_try_wait_lem = (
    put_sem a (some (record s { value = if is_positive s.value then dec s.value else s.value })) k,
    ground (arith, i.at_rest a),
    ground arith,
    record {
      sound = put_sem-IsSound a _ i.sound;
      memory = i.memory;
      at_rest = λ b. ground (arith, i.at_rest b, i.at_rest a);
    },
  )

-- The caller: a process that runs and is not the idle one.
pub record Caller (k : Kernel) (c : ℕ) (p : Process) : Type 0 where
  pub on : k.enabled ≡ true
  pub current_is : k.current ≡ some c
  pub found : k.table c ≡ some p
  pub is_running : p.state ≡ running
  pub not_idle : c ≢ idle_pid

module _ (a : ℕ) (s : Semaphore) (k : Kernel) (i : InOrder k) (e : k.sems a ≡ some s) (c : ℕ)
    (p : Process) (call : Caller k c p) where
  pid_of_caller : get_current_pid k ≡ c
  unfolding get_current_pid
  pid_of_caller = ground (arith, call.current_is, call.found, i.sound.owned c)

  -- What the critical section leaves for the scheduler.
  record Blocked (out : Kernel) : Type 0 where
    ordered : InOrder out
    on : out.enabled ≡ true
    current_is : out.current ≡ some c
    found : out.table c ≡ some (set_state blocked p)
    queue_kept : out.ready_queue ≡ k.ready_queue
    sem_at :
        out.sems a
        ≡ some (record {
          value = dec s.value;
          blocked_queue = s.blocked_queue ++ c ∷ [];
          lock = false;
        })

  block_on-IsSound : IsSound (block_on a s k)
  unfolding block_on
  block_on-IsSound =
      let k1 = set_current_blocked k in
      let s1 : IsSound k1 =
        set_current_blocked-IsSound c call.current_is (ground (arith, call.found, call.is_running))
          call.not_idle i.sound in
      record {
        exact = λ j. ground (arith, s1.exact j);
        owned = λ j. ground (arith, s1.owned j);
        inside = λ j h. ground (arith, s1.inside j h);
        alone = λ j. ground (arith, s1.alone j);
        idle_up = ground (arith, s1.idle_up);
      }

  block_on-sem :
      (block_on a s k).sems a
      ≡ some
          (record { value = dec s.value; blocked_queue = s.blocked_queue ++ c ∷ []; lock = false })
  unfolding block_on
  block_on-sem = ground (arith, call.current_is, call.found, i.sound.owned c, i.memory k.asked)

  block_on-Blocked : is_positive s.value ≡ false → Blocked (block_on a s k)
  unfolding block_on
  block_on-Blocked h = record {
    ordered = record {
      sound = block_on-IsSound;
      memory = λ n m. ground (arith, call.current_is, call.found, i.memory n);
      at_rest = λ b. ground (
        arith,
        call.current_is,
        call.found,
        block_on-sem,
        i.at_rest b,
        length-append s.blocked_queue (c ∷ []),
      );
    };
    on = ground (arith, call.current_is, call.found, call.on);
    current_is = ground (arith, call.current_is, call.found);
    found = ground (arith, call.current_is, call.found);
    queue_kept = ground (arith, call.current_is, call.found);
    sem_at = block_on-sem;
  }

  wait_section-blocks : is_positive s.value ≡ false → wait_section a k ≡ some (true, block_on a s k)
  unfolding wait_section
  wait_section-blocks h = ground (arith, i.at_rest a)

  -- On a live semaphore of a kernel in order (the accounts of the scheduler, memory left, and as many
  -- waiting on each semaphore as its value is below zero) with no unit left, semWait of the running process
  -- queues it last on the semaphore and blocks it with its stack pointer stored, the oldest ready process
  -- runs instead, and the kernel stays in order.
  pub sem_wait-blocks :
      (frame : ℕ)
      → is_positive s.value ≡ false
      → (k' : Kernel) × (next : ℕ) × (sem_wait (some a) frame k ≡ some (done, k'))
        × InOrder k'
        × (k.ready_queue ≡ next ∷ k'.ready_queue)
        × (k'.current ≡ some next)
        × (k'.table c ≡ some (set_rsp frame (set_state blocked p)))
        × (k'.sems a
            ≡ some (record {
              value = dec s.value;
              blocked_queue = s.blocked_queue ++ c ∷ [];
              lock = false;
            }))
  unfolding sem_wait dispatched
  sem_wait-blocks frame h =
      let b = block_on-Blocked h in
      let w =
        schedule-Switched frame c (set_state blocked p) b.ordered.sound b.on b.current_is b.found
          b.ordered.memory (inl (λ q. cc)) in
      (
        w.after,
        w.next,
        ground (arith, wait_section-blocks h, w.result_is),
        record {
          sound = w.sound;
          memory = λ n m. ground (arith, w.after_is, b.found, b.ordered.memory n);
          at_rest = λ x. ground (arith, w.after_is, b.found, b.ordered.at_rest x);
        },
        ground (arith, w.queued, w.left, b.queue_kept, b.found),
        w.current_is,
        ground (arith, w.after_is, w.found, b.found, w.queued, b.ordered.sound.exact c),
        ground (arith, w.after_is, b.found, b.sem_at),
      )
