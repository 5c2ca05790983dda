-- ===== src/Shared.antt =====
-- semaphores/sharedSemaphores.c: semaphores by name, counted by reference.
-- `none` as a result is a call that does not return (tableLock is held, see Semaphore), or an open of a
-- name that overwrites what lies behind the name in the table, which the model does not follow.
pub mod Slots
pub mod Counts
pub mod Calls
use tp2_so_g.Base.{
  ℕ, zero, suc, Bool, true, false, ◌&&◌, not, Option, none, some, List, [], ◌∷◌, ltb, if◌then◌else◌,
}
use tp2_so_g.Base.Int.{ℤ, pos, inc, dec, is_positive, is_zero}
use tp2_so_g.Text.{strcmp, strlen}
use tp2_so_g.Kernel.{Kernel, Code, done, failed}
use tp2_so_g.Semaphore.{new_semaphore, free_semaphore, sem_wait, sem_post}

-- The bytes of `SharedSem` from `name` to `sem`, which is aligned to 8: SEM_NAME_MAX, and 7 of padding.
abbrev pub name_room : ℕ
name_room = 39

-- `SharedSem`
pub record Slot : Type 0 where
  pub used : Bool
  pub name : List ℕ
  pub sem : Option ℕ
  pub ref_count : ℤ

-- The globals `table` (MAX_SHARED_SEMS slots) and `tableLock`, beside the kernel.
pub record Shared : Type 0 where
  pub kernel : Kernel
  pub slots : List Slot
  pub table_lock : Bool

abbrev pub holds : List ℕ → Slot → Bool
holds name s = s.used && is_zero (strcmp s.name name)

-- The loops of `findByName` and `findFreeSlot`: the first slot that passes, and the slots from it on
-- replaced by what `change` makes of it. `none` is -1.
unfoldable pub find_slot : (Slot → Bool) → List Slot → Option Slot
find_slot test [] = none
find_slot test (s ∷ rest) = if test s then some s else find_slot test rest

-- A write to the first slot that passes.
unfoldable pub at_slot : (Slot → Bool) → (Slot → Slot) → List Slot → List Slot
at_slot test change [] = []
at_slot test change (s ∷ rest) = if test s then change s ∷ rest else s ∷ at_slot test change rest

abbrev pub find_by_name : List ℕ → List Slot → Option Slot
find_by_name name = find_slot (holds name)

abbrev pub is_free : Slot → Bool
is_free s = not s.used

abbrev pub find_free_slot : List Slot → Option Slot
find_free_slot = find_slot is_free

-- `!name || !name[0]`
abbrev pub no_name : Option (List ℕ) → Bool
no_name none = true
no_name (some []) = true
no_name (some (c ∷ s)) = false

abbrev pub text_of : Option (List ℕ) → List ℕ
text_of none = []
text_of (some s) = s

abbrev pub count_up : Slot → Slot
count_up s = record s { ref_count = inc s.ref_count }

abbrev pub count_down : Slot → Slot
count_down s = record s { ref_count = dec s.ref_count }

abbrev pub fill : List ℕ → ℕ → Slot → Slot
fill name a s = record { used = true; name = name; sem = some a; ref_count = pos 1 }

abbrev pub clear : Slot → Slot
clear s = record s { used = false; sem = none; ref_count = dec s.ref_count }

-- The slot is free: a semaphore is made, and then the name is copied by strcpy, with its NUL. One that
-- does not end before the pointer `sem` is outside the model.
unfoldable pub open_new : List ℕ → ℤ → Shared → Option (Code × Shared)
open_new name initial_value h =
    let (sem, k') = new_semaphore initial_value h.kernel in
    elim sem [
      | none ↦ some (failed, record h { kernel = k' })
      | some a ↦
          if ltb (strlen name) name_room
          then some (done, record h { kernel = k'; slots = at_slot is_free (fill name a) h.slots })
          else none
    ]

unfoldable pub open_named : List ℕ → ℤ → Shared → Option (Code × Shared)
unfolding open_new
open_named name initial_value h = elim (find_by_name name h.slots) [
  | some s ↦ some (done, record h { slots = at_slot (holds name) count_up h.slots })
  | none ↦ elim (find_free_slot h.slots) [
    | none ↦ some (failed, h)
    | some free ↦ open_new name initial_value h
  ]
]

abbrev locked : Shared → Option (Code × Shared) → Option (Code × Shared)
locked h result = if h.table_lock then none else result

unfoldable pub shared_sem_open : Option (List ℕ) → ℤ → Shared → Option (Code × Shared)
unfolding open_named
shared_sem_open name initial_value h =
    if no_name name then some (failed, h) else locked h (open_named (text_of name) initial_value h)

abbrev pub with_kernel : Shared → Option Kernel → Option (Code × Shared)
with_kernel h none = none
with_kernel h (some k) = some (done, record h { kernel = k })

unfoldable pub close_named : List ℕ → Shared → Option (Code × Shared)
close_named name h = elim (find_by_name name h.slots) [
  | none ↦ some (failed, h)
  | some s ↦
      if is_positive (dec s.ref_count)
      then some (done, record h { slots = at_slot (holds name) count_down h.slots })
      else with_kernel (record h { slots = at_slot (holds name) clear h.slots })
          (free_semaphore s.sem h.kernel)
]

unfoldable pub shared_sem_close : Option (List ℕ) → Shared → Option (Code × Shared)
unfolding close_named
shared_sem_close name h =
    if no_name name then some (failed, h) else locked h (close_named (text_of name) h)

abbrev sem_of : Option Slot → Option ℕ
sem_of none = none
sem_of (some s) = s.sem

abbrev on_kernel : Shared → Option (Code × Kernel) → Option (Code × Shared)
on_kernel h none = none
on_kernel h (some (c, k)) = some (c, record h { kernel = k })

-- `if (!s) return -1;` and the call of semWait or semPost, outside the lock.
on_sem : (Option ℕ → Kernel → Option (Code × Kernel)) → List ℕ → Shared → Option (Code × Shared)
on_sem call name h = elim (sem_of (find_by_name name h.slots)) [
  | none ↦ some (failed, h)
  | some a ↦ on_kernel h (call (some a) h.kernel)
]

unfoldable pub shared_sem_wait : Option (List ℕ) → ℕ → Shared → Option (Code × Shared)
unfolding on_sem
shared_sem_wait name frame h =
    if no_name name
    then some (failed, h)
    else locked h (on_sem (λ s. sem_wait s frame) (text_of name) h)

unfoldable pub shared_sem_post : Option (List ℕ) → Shared → Option (Code × Shared)
unfolding on_sem
shared_sem_post name h =
    if no_name name then some (failed, h) else locked h (on_sem sem_post (text_of name) h)
