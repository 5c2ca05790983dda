-- ===== src/Semaphore/Post.antt =====
-- semPost: whom it wakes, and that no unit is lost.
use tp2_so_g.Base.{
  ℕ, zero, suc, ◌+◌, ◌≡◌, false, Option, some, List, [], ◌∷◌, ◌++◌, arith, length, length-append,
  ap, sym, ◌∙◌, ◌<◌, ◌≢◌,
}
use tp2_so_g.Base.Int.{ℤ, pos, negsuc, inc, neg_part}
use tp2_so_g.Kernel.{Kernel, Process, Semaphore, ready, blocked, done, set_state}
use tp2_so_g.Kernel.Facts.{IsSound, InOrder}
use tp2_so_g.Ready.{set_ready}
use tp2_so_g.Semaphore.{post_loop, sem_post, put_sem}
use tp2_so_g.Semaphore.Loop.{
  minus, All, CannotWake, post_loop-wakes, post_loop-keeps, post_loop-AtRest, Settled,
}

pub put_sem-IsSound :
    (a : ℕ) (s : Option Semaphore) {k : Kernel} → IsSound k → IsSound (put_sem a s k)
put_sem-IsSound a s i = record {
  exact = i.exact;
  owned = i.owned;
  inside = i.inside;
  alone = i.alone;
  idle_up = i.idle_up;
}

-- semPost on a live semaphore of a kernel in order returns 0 and keeps the kernel in order: the accounts
-- of the scheduler, memory left, and for each semaphore as many waiting as its value is below zero.
pub sem_post-InOrder :
    (a : ℕ) (s : Semaphore) (k : Kernel)
    → InOrder k
    → k.sems a ≡ some s
    → (k' : Kernel) × (sem_post (some a) k ≡ some (done, k')) × InOrder k'
unfolding sem_post
sem_post-InOrder a s k i e =
    let out = post_loop s.blocked_queue (inc s.value) k in
    let w : Settled k out =
      post_loop-AtRest s.blocked_queue s.value k i.sound i.memory (ground (arith, i.at_rest a)) in
    (
      put_sem a (some (record { value = out.0; blocked_queue = out.1; lock = false })) out.2,
      ground (arith, i.at_rest a),
      record {
        sound = put_sem-IsSound a _ w.sound;
        memory = w.memory;
        at_rest = λ b. ground (arith, w.waiting, w.sems_kept, i.at_rest b);
      },
    )

inc-deficit : (v : ℤ) (n : ℕ) → suc n ≡ neg_part v → inc v ≡ minus n
inc-deficit (pos m) n e = absurd (omega arith)
inc-deficit (negsuc zero) n e = let z : 0 ≡ n = omega arith in ap minus z
inc-deficit (negsuc (suc m)) n e = let z : suc m ≡ n = omega arith in ap minus z

set_ready_woken :
    (p : ℕ) (k : Kernel) (pr : Process)
    → InOrder k
    → k.table p ≡ some pr
    → pr.state ≡ blocked
    → ((set_ready p k).1.ready_queue ≡ k.ready_queue ++ p ∷ [])
      × ((set_ready p k).1.table p ≡ some (set_state ready pr))
unfolding set_ready
set_ready_woken p k pr i f b = ground (arith, i.memory k.asked, i.sound.inside p)

-- In a kernel in order (with memory left), with waiters of which the first that can be woken is `p`,
-- semPost returns 0, drops those before `p`, makes
-- `p` READY at the end of the ready queue, and leaves a value of minus the number still waiting.
pub sem_post-wakes :
    (a : ℕ) (s : Semaphore) (k : Kernel) (stale : List ℕ) (p : ℕ) (rest : List ℕ) (pr : Process)
    → InOrder k
    → k.sems a ≡ some s
    → s.blocked_queue ≡ stale ++ p ∷ rest
    → All (CannotWake k) stale
    → k.table p ≡ some pr
    → pr.state ≡ blocked
    → (k' : Kernel) × (sem_post (some a) k ≡ some (done, k'))
      × (k'.sems a
          ≡ some (record { value = minus (length rest); blocked_queue = rest; lock = false }))
      × (k'.ready_queue ≡ k.ready_queue ++ p ∷ [])
      × (k'.table p ≡ some (set_state ready pr))
unfolding sem_post
sem_post-wakes a s k stale p rest pr i e q dead f b =
    let len : length s.blocked_queue ≡ length stale + suc (length rest) =
      ap length q ∙ length-append stale (p ∷ rest) in
    let v : inc s.value ≡ minus (length stale + length rest) =
      inc-deficit s.value (length stale + length rest) (ground (arith, len, i.at_rest a)) in
    let loop = post_loop-wakes stale p rest k i.sound dead (ground (arith, f)) in
    let (woken, at_p) = set_ready_woken p k pr i f b in
    (
      put_sem a (some (record { value = minus (length rest); blocked_queue = rest; lock = false }))
          (set_ready p k).1,
      ground (arith, i.at_rest a, loop, v, q),
      ground arith,
      woken,
      at_p,
    )

-- Where none of the waiters can be woken, semPost empties the queue and keeps the unit: the value
-- is 1 afterwards, and the scheduler's state is as it was.
pub sem_post-keeps :
    (a : ℕ) (s : Semaphore) (k : Kernel)
    → InOrder k
    → k.sems a ≡ some s
    → s.blocked_queue ≢ []
    → All (CannotWake k) s.blocked_queue
    → sem_post (some a) k
      ≡ some (done, put_sem a (some (record { value = pos 1; blocked_queue = []; lock = false })) k)
unfolding sem_post
sem_post-keeps a s k i e ne dead =
    let v : s.value ≡ minus (length s.blocked_queue) =
      deficit s.value (length s.blocked_queue) (ground (arith, ne)) (ground (arith, i.at_rest a)) in
    ground (arith, i.at_rest a, post_loop-keeps s.blocked_queue k dead, v)
  where
    deficit : (v : ℤ) (n : ℕ) → 0 < n → n ≡ neg_part v → v ≡ minus n
    deficit (pos m) n h e = absurd (omega arith)
    deficit (negsuc m) n h e = sym (ap minus e)
