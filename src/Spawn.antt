-- ===== src/Spawn.antt =====
-- The start of a process: newProcess and freeProcess of process.c, startNewProcessWithPid,
-- startNewProcess and startNewProcessWithFds of scheduler.c. What prepareStack writes into the stack is
-- memory of the process and not modelled; where it leaves the stack pointer is.
pub mod Inherit
pub mod Made
pub mod Started
use tp2_so_g.Base.{
  ℕ, zero, suc, ◌+◌, ◌-◌, ◌*◌, ◌%◌, ◌^◌, ◌&&◌, ◌||◌, not, Bool, true, false, Option, none, some,
  List, [], ◌∷◌, ◌++◌, update, leb, ◌==◌, if◌then◌else◌,
}
use tp2_so_g.Base.Int.{ℤ, pos, is_positive}
use tp2_so_g.Kernel.{
  Kernel, Process, ready, bad_pid, idle_pid, init_pid, no_pid, modify, mem_alloc, set_state,
  set_rsp,
}
use tp2_so_g.Kernel.Action.{Action, pure, ◌>>=◌, ◌>>◌, gets, change, lift, try}
use tp2_so_g.Ready.{enqueue_ready, get_current_pid}
use tp2_so_g.Semaphore.{new_semaphore, free_semaphore}
use tp2_so_g.Table.{find_free_pid}
use tp2_so_g.File.{add_file_ref}
use tp2_so_g.Fds.{close_fd, dup_fd, set_fd, max_fds, has_process}

abbrev pub max_name_length : ℕ
max_name_length = 32

abbrev pub default_stack_size : ℕ
default_stack_size = 0x8000

-- At most `n` bytes of the name.
abbrev pub copy_name : ℕ → List ℕ → List ℕ
copy_name zero name = []
copy_name (suc n) [] = []
copy_name (suc n) (c ∷ name) = c ∷ copy_name n name

-- `copyProcessName`, with NULL for no name.
abbrev pub copy_process_name : Option (List ℕ) → List ℕ
copy_process_name none = []
copy_process_name (some name) = copy_name (max_name_length - 1) name

-- The strings of deepCopyArgv: NULL stays NULL, and one refused request gives up.
unfoldable pub copy_args : List (Option (List ℕ)) → Action (Option (List (Option (List ℕ))))
unfolding mem_alloc
copy_args [] = pure (some [])
copy_args (none ∷ args) = do
  rest ← copy_args args
  elim rest [ none ↦ pure none | some out ↦ pure (some (none ∷ out)) ]
copy_args (some s ∷ args) = do
  copy ← lift mem_alloc
  elim copy [
    | none ↦ pure none
    | some a ↦ do
      rest ← copy_args args
      elim rest [ none ↦ pure none | some out ↦ pure (some (some s ∷ out)) ]
  ]

-- The arguments are as many as argc says, where argc is above 0.
unfoldable pub deep_copy_argv :
    ℤ → Option (List (Option (List ℕ))) → Action (Option (List (Option (List ℕ))))
unfolding copy_args mem_alloc
deep_copy_argv argc none = pure none
deep_copy_argv argc (some args) =
    if not (is_positive argc)
    then pure none
    else (do array ← lift mem_alloc; elim array [ none ↦ pure none | some a ↦ copy_args args ])

abbrev pub has_args : ℤ → Option (List (Option (List ℕ))) → Bool
has_args argc none = false
has_args argc (some args) = is_positive argc

abbrev pub count_of : ℤ → Option (List (Option (List ℕ))) → ℕ
count_of argc none = 0
count_of (pos n) (some args) = n
count_of argc (some args) = 0

abbrev pub is_null {ℓ} : {A : Type ℓ} → Option A → Bool
is_null none = true
is_null (some a) = false

-- `newQueue()`
unfoldable pub new_list : Action (Option (List ℕ))
unfolding mem_alloc
new_list = do q ← lift mem_alloc; elim q [ none ↦ pure none | some a ↦ pure (some []) ]

-- What the caller of newProcess gives.
pub record Start : Type 0 where
  pub entry_point : ℕ
  pub start_name : Option (List ℕ)
  pub start_priority : ℕ
  pub start_argc : ℤ
  pub start_argv : Option (List (Option (List ℕ)))

-- `size` is the size of the stack.
unfoldable pub new_process : Start → ℕ → ℕ → Action (Option Process)
unfolding mem_alloc new_list new_semaphore deep_copy_argv free_semaphore
new_process s size pid = do
  object ← lift mem_alloc
  elim object [
    | none ↦ pure none
    | some o ↦ do
      stack ← lift mem_alloc
      elim stack [
        | none ↦ pure none
        | some base ↦ do
          children ← new_list
          terminated_children ← new_list
          terminated ← lift (new_semaphore (pos 0))
          child_terminated ← lift (new_semaphore (pos 0))
          argv ←
              (if has_args s.start_argc s.start_argv
                then deep_copy_argv s.start_argc s.start_argv
                else pure none)
          if has_args s.start_argc s.start_argv && is_null argv
              then (do
                try (free_semaphore terminated)
                try (free_semaphore child_terminated)
                pure none)
              else pure (
                  some (record {
                    pid = pid;
                    stack_base = base;
                    stack_size = size;
                    rsp = base + size;
                    rip = s.entry_point;
                    state = ready;
                    name = copy_process_name s.start_name;
                    priority_level = s.start_priority;
                    remaining_quantums = s.start_priority;
                    ppid = init_pid;
                    children = children;
                    terminated_children = terminated_children;
                    terminated = terminated;
                    child_terminated = child_terminated;
                    argc = count_of s.start_argc s.start_argv;
                    argv = argv;
                    fd_table = λ fd. none;
                    eof_requests = λ fd. false;
                  }))
      ]
  ]

-- Through the pointer of a process in the table.
abbrev pub at_process : {A : Type 0} → ℕ → (Process → Action A) → Action A
at_process i body k = elim (k.table i) [ none ↦ none | some p ↦ body p k ]

-- freeProcess, as far as anything refers to what it frees.
unfoldable pub free_process : Option Process → Action (Unit {0})
unfolding free_semaphore
free_process none = pure tt
free_process (some p) = do
  try (free_semaphore p.terminated)
  try (free_semaphore p.child_terminated)

unfoldable pub get_stack_misalignment : ℕ → ℕ → ℕ
get_stack_misalignment base rsp =
    if (base == 0) || (rsp == 0)
    then 0
    else (let rest = (rsp + 2 ^ 64 - base) % 2 ^ 64 % 8 in if rest == 0 then 0 else 8 - rest)

-- Where prepareStack leaves the stack pointer: below 20 words.
unfoldable pub prepare_stack : Process → Process
unfolding get_stack_misalignment
prepare_stack p =
    set_rsp
      ((p.rsp + 2 ^ 64 - get_stack_misalignment p.stack_base p.rsp + 2 ^ 64 - 8 * 20) % 2 ^ 64) p

-- Through the pointer of the queue.
unfoldable pub push_child : ℕ → ℕ → Action Bool
push_child i child k = elim (k.table i) [
  | none ↦ none
  | some p ↦ elim p.children [
    | none ↦ none
    | some queue ↦ some (true, modify i (λ p. record p { children = some (queue ++ child ∷ []) }) k)
  ]
]

-- `enqueue(getChildren(parent), childPid)`; a queue that is NULL is not tested for.
unfoldable pub add_child : ℕ → ℕ → Action Bool
unfolding mem_alloc push_child
add_child i child = do
  node ← lift mem_alloc
  elim node [ none ↦ pure false | some a ↦ push_child i child ]

abbrev pub set_ppid : ℕ → Process → Process
set_ppid ppid p = record p { ppid = ppid }

abbrev pub put_process : ℕ → Option Process → Kernel → Kernel
put_process i p k = record k { table = update k.table i p }

-- copyFdTable onto a process that is new, whose descriptors are all closed.
unfoldable pub inherit_fds : ℕ → ℕ → Process → Process → Action Process
unfolding add_file_ref
inherit_fds zero fd parent child = pure child
inherit_fds (suc n) fd parent child = elim (parent.fd_table fd) [
  | none ↦ inherit_fds n (suc fd) parent child
  | some f ↦ do add_file_ref (some f); inherit_fds n (suc fd) parent (set_fd fd (some f) child)
]

-- A process that is started by another one is its child and has its descriptors.
unfoldable pub adopt : ℕ → Process → Action Process
unfolding add_child inherit_fds get_current_pid
adopt pid child k = elim k.current [
  | none ↦ some (set_ppid init_pid child, k)
  | some c ↦
      if get_current_pid k == idle_pid
      then some (set_ppid init_pid child, k)
      else (do
        add_child c pid
        at_process c λ parent. inherit_fds max_fds 0 parent (set_ppid (get_current_pid k) child))
          k
]

unfoldable pub enter_process : ℕ → Process → Kernel → Kernel
unfolding prepare_stack enqueue_ready
enter_process pid child k =
    enqueue_ready pid (put_process pid (some (set_state ready (prepare_stack child))) k)

unfoldable pub start_new_process_with_pid : Start → ℕ → Action ℕ
unfolding new_process adopt enter_process
start_new_process_with_pid s pid = do
  used ← gets (has_process pid)
  if bad_pid pid || used then pure no_pid else (do
    process ← new_process s default_stack_size pid
    elim process [
      | none ↦ pure no_pid
      | some p ↦ do child ← adopt pid p; change (enter_process pid child); pure pid
    ])

unfoldable pub start_new_process : Start → Action ℕ
unfolding find_free_pid start_new_process_with_pid
start_new_process s = do
  pid ← gets find_free_pid
  if leb 32768 pid then pure no_pid else start_new_process_with_pid s pid

-- `fd_override_t`; the target -1 is `none`.
pub record FdOverride : Type 0 where
  pub affected_fd : ℕ
  pub target_fd : Option ℕ

unfoldable pub override_fds : List FdOverride → ℕ → Action (Unit {0})
unfolding close_fd dup_fd
override_fds [] child = pure tt
override_fds (o ∷ rest) child = do
  elim o.target_fd [
    | none ↦ do close_fd child o.affected_fd; pure tt
    | some old ↦ do dup_fd child old o.affected_fd; pure tt
  ]
  override_fds rest child

unfoldable pub start_new_process_with_fds : Start → List FdOverride → Action ℕ
unfolding start_new_process override_fds
start_new_process_with_fds s overrides = do
  pid ← start_new_process s
  there ← gets (has_process pid)
  if leb 32768 pid || not there then pure pid else (do override_fds overrides pid; pure pid)
