-- ===== src/Exit.antt =====
-- The end of a process in scheduler.c: terminateProcess and killFromIsr, wait_pid, wait_any and
-- reap_zombies. A call that gives up the processor in semWait returns what is left of it, to run when
-- its process is dispatched again.
pub mod Waits
use tp2_so_g.Base.{
  ℕ, zero, suc, ◌+◌, ◌&&◌, ◌||◌, not, Bool, true, false, Option, none, some, List, [], ◌∷◌, ◌++◌,
  update, leb, ◌==◌, if◌then◌else◌, without,
}
use tp2_so_g.Kernel.{
  Kernel, Process, Code, done, failed, State, zombie, bad_pid, init_pid, modify, mem_alloc,
  set_state, max_processes, is_unkillable, state_eq,
}
use tp2_so_g.Kernel.Action.{Action, pure, ◌>>=◌, ◌>>◌, gets, change, lift, try}
use tp2_so_g.Ready.{remove_ready, get_current_pid}
use tp2_so_g.Schedule.{schedule}
use tp2_so_g.Semaphore.{sem_post, sem_try_wait, wait_section}
use tp2_so_g.Fds.{close_fds_of, has_process}
use tp2_so_g.Spawn.{free_process, add_child, set_ppid, put_process, at_process}

unfoldable pub put_foreground : ℕ → Bool → Kernel → Kernel
put_foreground i b k = record k { foreground = update k.foreground i b }

unfoldable pub reap_process : ℕ → Action (Unit {0})
unfolding free_process put_foreground
reap_process pid = do
  used ← gets (has_process pid)
  if bad_pid pid || not used
      then pure tt
      else at_process pid λ p. do
        free_process (some p)
        change (put_process pid none)
        change (put_foreground pid false)

-- `enqueue(getTerminatedChildren(parent), pid)`
unfoldable pub push_terminated : ℕ → ℕ → Action (Unit {0})
push_terminated i pid k = elim (k.table i) [
  | none ↦ none
  | some p ↦ elim p.terminated_children [
    | none ↦ none
    | some queue ↦
        some (tt, modify i (λ p. record p { terminated_children = some (queue ++ pid ∷ []) }) k)
  ]
]

unfoldable pub add_terminated : ℕ → ℕ → Action (Unit {0})
unfolding mem_alloc push_terminated
add_terminated i pid = do
  node ← lift mem_alloc
  elim node [ none ↦ pure tt | some a ↦ push_terminated i pid ]

-- `pollQueue(getTerminatedChildren(process))`: NULL, which is the pid 0, from an empty queue.
unfoldable pub poll_terminated : ℕ → Action ℕ
poll_terminated i = at_process i λ p. elim p.terminated_children [
  | none ↦ pure 0
  | some queue ↦ elim queue [
    | [] ↦ pure 0
    | pid ∷ rest ↦ do
      change (modify i (λ p. record p { terminated_children = some rest }))
      pure pid
  ]
]

unfoldable pub remove_child : ℕ → ℕ → Kernel → Kernel
remove_child i child k =
    modify i
      (λ p. record p {
        children = elim p.children [ none ↦ none | some queue ↦ some (without child queue) ];
      })
      k

unfoldable pub forget_terminated : ℕ → ℕ → Kernel → Kernel
forget_terminated i child k =
    modify i
      (λ p. record p {
        terminated_children = elim p.terminated_children [
          | none ↦ none
          | some queue ↦ some (without child queue)
        ];
      })
      k

-- A child of a process that ends: it goes to init.
unfoldable pub transfer_one : ℕ → Action (Unit {0})
unfolding add_child add_terminated sem_post
transfer_one child = do
  there ← gets (has_process child)
  if bad_pid child || not there then pure tt else (do
    add_child init_pid child
    change (modify child (set_ppid init_pid))
    at_process child λ p. if not (state_eq p.state zombie) then pure tt else (do
      add_terminated init_pid child
      at_process init_pid λ init. do sem_post init.child_terminated; pure tt))

-- The rounds over the children that are left; the queue is empty afterwards.
unfoldable pub transfer_all : List ℕ → Action (Unit {0})
unfolding transfer_one
transfer_all [] = pure tt
transfer_all (child ∷ rest) = do transfer_one child; transfer_all rest

unfoldable pub transfer_orphan_children : ℕ → Action (Unit {0})
unfolding transfer_all
transfer_orphan_children pid = do
  there ← gets (has_process init_pid)
  if not there
      then pure tt
      else at_process pid λ p. elim p.children [
        | none ↦ pure tt
        | some queue ↦ do
          change (modify pid (λ p. record p { children = some [] }))
          transfer_all queue
      ]

unfoldable pub notify_termination : ℕ → ℕ → Action (Unit {0})
unfolding remove_ready sem_post add_terminated
notify_termination pid parent = do
  change (modify pid (set_state zombie))
  change (remove_ready pid)
  at_process pid λ p. do sem_post p.terminated; pure tt
  at_process parent λ p. do sem_post p.child_terminated; pure tt
  add_terminated parent pid

-- `getPPID(process)` where the parent is in the table, else none.
abbrev pub parent_of : ℕ → Kernel → Option ℕ
parent_of pid k = elim (k.table pid) [
  | none ↦ none
  | some p ↦ if bad_pid p.ppid || not (has_process p.ppid k) then none else some p.ppid
]

-- What terminateProcess and killFromIsr do alike; false where they refuse.
unfoldable pub end_process : ℕ → Action Bool
unfolding close_fds_of put_foreground notify_termination transfer_orphan_children
end_process pid = if bad_pid pid || is_unkillable pid then pure false else (do
  parent ← gets (parent_of pid)
  elim parent [
    | none ↦ pure false
    | some i ↦ do
      close_fds_of pid
      change (put_foreground pid false)
      notify_termination pid i
      transfer_orphan_children pid
      pure true
  ])

unfoldable pub kill_from_isr : ℕ → Action (Unit {0})
unfolding end_process
kill_from_isr pid = do end_process pid; pure tt

-- The process that ends itself does not go on: the result is the state in which the next one runs.
unfoldable pub terminate_process : ℕ → ℕ → Action Code
unfolding end_process get_current_pid
terminate_process pid frame = do
  ended ← end_process pid
  if not ended then pure failed else (do
    own ← gets (λ k. get_current_pid k == pid)
    if not own
        then pure done
        else (λ k. elim (schedule frame k) [ none ↦ none | some (rsp, k') ↦ some (done, k') ]))
