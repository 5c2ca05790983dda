-- ===== src/Semaphore.antt =====
-- semaphores/semaphore.c. A semaphore is named by its address; NULL is `none`.
-- `none` as a result is a call that does not return: ACQUIRE spins on a lock that is held (on one
-- CPU nobody can release it), or the pointer dangles.
pub mod Loop
pub mod Post
pub mod Rouse
pub mod Wait
use tp2_so_g.Base.{
  ℕ, Bool, true, false, Option, none, some, List, [], ◌∷◌, ◌++◌, if◌then◌else◌, update,
}
use tp2_so_g.Base.Int.{ℤ, inc, dec, is_negative, is_positive}
use tp2_so_g.Kernel.{Kernel, Semaphore, Code, done, failed, mem_alloc}
use tp2_so_g.Ready.{get_current_pid, set_current_blocked, set_ready}
use tp2_so_g.Schedule.{schedule}

abbrev pub put_sem : ℕ → Option Semaphore → Kernel → Kernel
put_sem a s k = record k { sems = update k.sems a s }

-- `ACQUIRE(&sem->lock)` and the critical section that follows.
abbrev pub acquired {ℓ} : {A : Type ℓ} → ℕ → Kernel → (Semaphore → Option A) → Option A
acquired a k body = elim (k.sems a) [ none ↦ none | some s ↦ if s.lock then none else body s ]

-- newSemaphore asks for the object and then, in newQueue, for the queue.
unfoldable pub new_semaphore : ℤ → Kernel → Option ℕ × Kernel
unfolding mem_alloc
new_semaphore value k =
    let (sem, k1) = mem_alloc k in
    let (queue, k2) = mem_alloc k1 in
    elim sem [
      | none ↦ (none, k1)
      | some a ↦ elim queue [
        | none ↦ (none, k2)
        | some q ↦ (
          some a,
          put_sem a (some (record { value = value; blocked_queue = []; lock = false })) k2,
        )
      ]
    ]

-- `enqueue(sem->blockedQueue, pid)`, whose result nobody reads.
unfoldable pub enqueue_blocked : ℕ → List ℕ → Kernel → List ℕ × Kernel
unfolding mem_alloc
enqueue_blocked pid queue k =
    let (node, k') = mem_alloc k in (elim node [ none ↦ queue | some n ↦ queue ++ pid ∷ [] ], k')

unfoldable pub block_on : ℕ → Semaphore → Kernel → Kernel
unfolding enqueue_blocked set_current_blocked get_current_pid
block_on a s k =
    let pid = get_current_pid k in
    let k1 = set_current_blocked k in
    let (queue, k2) = enqueue_blocked pid s.blocked_queue k1 in
    put_sem a (some (record s { value = dec s.value; blocked_queue = queue; lock = false })) k2

-- The critical section of semWait: the flag is `mustBlock`.
unfoldable pub wait_section : ℕ → Kernel → Option (Bool × Kernel)
unfolding block_on
wait_section a k = acquired a k λ s.
    if is_negative (dec s.value)
    then some (true, block_on a s k)
    else some (false, put_sem a (some (record s { value = dec s.value; lock = false })) k)

-- `forceSchedulerCall()`: what is left of the call runs when the process is next dispatched.
abbrev pub force_scheduler_call : ℕ → Code → Kernel → Option (Code × Kernel)
force_scheduler_call frame c k = elim (schedule frame k) [
  | none ↦ none
  | some (rsp, k') ↦ some (c, k')
]

unfoldable pub sem_wait : Option ℕ → ℕ → Kernel → Option (Code × Kernel)
sem_wait none frame k = some (failed, k)
sem_wait (some a) frame k = elim (wait_section a k) [
  | none ↦ none
  | some (must_block, k') ↦
      if must_block then force_scheduler_call frame done k' else some (done, k')
]

-- `while (sem->value <= 0 && !isQueueEmpty(sem->blockedQueue))`: value and queue left, and the kernel.
unfoldable pub post_loop : List ℕ → ℤ → Kernel → ℤ × List ℕ × Kernel
post_loop [] value k = (value, [], k)
post_loop (pid ∷ queue) value k =
    let (code, k') = set_ready pid k in
    elim (is_positive value) [
      | true ↦ (value, pid ∷ queue, k)
      | false ↦ elim code [ done ↦ (value, queue, k') | failed ↦ post_loop queue (inc value) k' ]
    ]

unfoldable pub sem_post : Option ℕ → Kernel → Option (Code × Kernel)
sem_post none k = some (failed, k)
sem_post (some a) k = acquired a k λ s.
    let (value, queue, k') = post_loop s.blocked_queue (inc s.value) k in
    some
      (done, put_sem a (some (record s { value = value; blocked_queue = queue; lock = false })) k')

unfoldable pub sem_try_wait : Option ℕ → Kernel → Option (Code × Kernel)
sem_try_wait none k = some (failed, k)
sem_try_wait (some a) k = acquired a k λ s.
    if is_positive s.value
    then some (done, put_sem a (some (record s { value = dec s.value; lock = false })) k)
    else some (failed, put_sem a (some (record s { lock = false })) k)

-- A semaphore that somebody waits on is left alone.
unfoldable pub free_semaphore : Option ℕ → Kernel → Option Kernel
free_semaphore none k = some k
free_semaphore (some a) k = acquired a k λ s. elim s.blocked_queue [
  | [] ↦ some (put_sem a none k)
  | p ∷ rest ↦ some (put_sem a (some (record s { lock = false })) k)
]
