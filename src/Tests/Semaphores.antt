-- ===== src/Tests/Semaphores.antt =====
-- The semaphores of the demo system.
use tp2_so_g.Base.{ℕ, ◌≡◌, refl, false, some, [], ◌∷◌, arith}
use tp2_so_g.Base.Int.{pos, negsuc}
use tp2_so_g.Kernel.{Kernel, Semaphore, ready, running, blocked, done, set_state, set_rsp}
use tp2_so_g.Kernel.Facts.{InOrder}
use tp2_so_g.Semaphore.{sem_wait, sem_post, put_sem}
use tp2_so_g.Semaphore.Post.{sem_post-InOrder, sem_post-wakes}
use tp2_so_g.Semaphore.Wait.{Caller, sem_wait-blocks}
use tp2_so_g.Tests.Demo.{process, demo, demo-IsSound, demo-InOrder, waiting}

abbrev caller : Caller demo 2 (process 2 running 1)
caller = record {
  on = refl;
  current_is = refl;
  found = refl;
  is_running = refl;
  not_idle = λ e. absurd (omega arith);
}

sem_wait-blocks_example :
    (k' : Kernel) × (next : ℕ) × (sem_wait (some 9) 77 demo ≡ some (done, k'))
    × InOrder k'
    × (demo.ready_queue ≡ next ∷ k'.ready_queue)
    × (k'.current ≡ some next)
    × (k'.table 2 ≡ some (set_rsp 77 (set_state blocked (process 2 running 1))))
    × (k'.sems 9 ≡ some (record { value = negsuc 2; blocked_queue = 7 ∷ 3 ∷ 2 ∷ []; lock = false }))
sem_wait-blocks_example =
    sem_wait-blocks 9 waiting demo demo-InOrder refl 2 (process 2 running 1) caller 77 refl

sem_post-InOrder_example : (k' : Kernel) × (sem_post (some 9) demo ≡ some (done, k')) × InOrder k'
sem_post-InOrder_example = sem_post-InOrder 9 waiting demo demo-InOrder refl

-- The pid 7 is passed over and process 3 is woken.
sem_post-wakes_example :
    (k' : Kernel) × (sem_post (some 9) demo ≡ some (done, k'))
    × (k'.sems 9 ≡ some (record { value = pos 0; blocked_queue = []; lock = false }))
    × (k'.ready_queue ≡ 0 ∷ 4 ∷ 3 ∷ [])
    × (k'.table 3 ≡ some (set_state ready (process 3 blocked 0)))
sem_post-wakes_example =
    sem_post-wakes 9 waiting demo (7 ∷ []) 3 [] (process 3 blocked 0) demo-InOrder refl refl
      ((λ h. h), tt) refl refl

-- A semaphore on which only a process waits that is gone.
abbrev abandoned : Semaphore
abandoned = record { value = negsuc 0; blocked_queue = 7 ∷ []; lock = false }

abbrev left_over : Kernel
left_over = put_sem 9 (some abandoned) demo

left_over-InOrder : InOrder left_over
left_over-InOrder = record {
  sound = record {
    exact = demo-IsSound.exact;
    owned = demo-IsSound.owned;
    inside = demo-IsSound.inside;
    alone = demo-IsSound.alone;
    idle_up = demo-IsSound.idle_up;
  };
  memory = λ n h. refl;
  at_rest = λ a. ground arith;
}
