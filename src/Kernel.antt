-- ===== src/Kernel.antt =====
-- The state that the kernel's files share: process.h and process.c, the globals of scheduler.c, and
-- the objects of semaphore.c, circularBuffer.c, pipe.c and fileAccess.c, with the accessors of
-- process.c.
--
-- A pid_t (int16_t) is its 16-bit pattern, so -1 is 65535. A pointer is an Option: `none` is NULL.
-- What mem_alloc hands out is named by the number of the request, and `grants` says which requests
-- succeed, so that every pattern of failures is covered.
pub mod Facts
pub mod Action
use tp2_so_g.Base.{ℕ, suc, ◌-◌, Bool, true, false, ◌||◌, Option, none, some, List, update}
use tp2_so_g.Base.{ltb, leb, ◌==◌, if◌then◌else◌}
use tp2_so_g.Base.Int.{ℤ}

abbrev pub max_processes : ℕ
max_processes = 64

abbrev pub idle_pid : ℕ
idle_pid = 0

abbrev pub init_pid : ℕ
init_pid = 1

-- The pattern of -1.
abbrev pub no_pid : ℕ
no_pid = 65535

-- What an `int` function returns: 0 or -1.
pub data Code : Type 0 where
  done failed : Code

pub data State : Type 0 where
  ready running blocked zombie : State

-- `semCDT`; newSemaphore makes no semaphore without its queue.
pub record Semaphore : Type 0 where
  pub value : ℤ
  pub blocked_queue : List ℕ
  pub lock : Bool

-- `processCDT`. newProcess does not check its queues and semaphores, so these may be NULL.
pub record Process : Type 0 where
  pub pid : ℕ
  pub stack_base : ℕ
  pub stack_size : ℕ
  pub rsp : ℕ
  pub rip : ℕ
  pub state : State
  pub name : List ℕ
  pub priority_level : ℕ
  pub remaining_quantums : ℕ
  pub ppid : ℕ
  pub children : Option (List ℕ)
  pub terminated_children : Option (List ℕ)
  pub terminated : Option ℕ
  pub child_terminated : Option ℕ
  pub argc : ℕ
  pub argv : Option (List (Option (List ℕ)))
  pub fd_table : ℕ → Option ℕ
  pub eof_requests : ℕ → Bool

-- `circularBufferCDT`
pub record Buffer : Type 0 where
  pub contents : List ℕ
  pub max_size : ℕ
  pub read_idx : ℕ
  pub write_idx : ℕ
  pub count : ℕ

-- `pipeCDT`; a pipe that newPipe returns has all its parts.
pub record Pipe : Type 0 where
  pub buffer : Buffer
  pub data_available : ℕ
  pub free_spaces : ℕ
  pub read_mutex : ℕ
  pub write_mutex : ℕ
  pub ref_count : ℤ
  pub writer_count : ℤ

-- `fileAccessCDT`
pub record File : Type 0 where
  pub pipe : Option ℕ
  pub flags : ℕ
  pub ref_count : ℤ

pub record Kernel : Type 0 where
  pub table : ℕ → Option Process
  pub foreground : ℕ → Bool
  pub current : Option ℕ
  pub ready_queue : List ℕ
  pub enabled : Bool
  pub ticks : ℕ
  pub sems : ℕ → Option Semaphore
  pub pipes : ℕ → Option Pipe
  pub files : ℕ → Option File
  pub grants : ℕ → Bool
  pub asked : ℕ

-- `pid < 0 || pid >= MAX_PROCESSES`
abbrev pub bad_pid : ℕ → Bool
bad_pid p = leb 32768 p || leb max_processes p

-- `static int isUnkillable(pid_t pid)`
abbrev pub is_unkillable : ℕ → Bool
is_unkillable p = (p == idle_pid) || (p == init_pid)

abbrev pub state_eq : State → State → Bool
state_eq ready ready = true
state_eq running running = true
state_eq blocked blocked = true
state_eq zombie zombie = true
state_eq _ _ = false

-- mem_alloc, as far as the callers in the kernel see it.
unfoldable pub mem_alloc : Kernel → Option ℕ × Kernel
mem_alloc k = (if k.grants k.asked then some k.asked else none, record k { asked = suc k.asked })

-- A change of the process in slot `i`.
abbrev pub modify : ℕ → (Process → Process) → Kernel → Kernel
modify i f k = elim (k.table i) [
  | none ↦ k
  | some p ↦ record k { table = update k.table i (some (f p)) }
]

abbrev pub set_state : State → Process → Process
set_state s p = record p { state = s }

abbrev pub set_rsp : ℕ → Process → Process
set_rsp r p = record p { rsp = r }

abbrev pub set_priority : ℕ → Process → Process
set_priority n p = record p { priority_level = n; remaining_quantums = n }

abbrev pub has_quantums : Process → Bool
has_quantums p = ltb 0 p.remaining_quantums

abbrev pub use_quantum : Process → Process
use_quantum p = record p {
  remaining_quantums =
      if ltb 0 p.remaining_quantums then p.remaining_quantums - 1 else p.remaining_quantums;
}

abbrev pub reset_quantums : Process → Process
reset_quantums p = record p { remaining_quantums = p.priority_level }
