-- ===== src/Mvar.antt =====
-- Userland/SampleCodeModule/mvar.c: writers and readers that share one slot under three semaphores.
--
-- A worker is where it stands in its loop, a step is one call or one access to the slot of one worker.
-- A semaphore counts its units: semWait goes on when there is one, as Semaphore/Wait and Semaphore/Post
-- say of the kernel. `written` and `taken` record the bytes in the order of the accesses.
pub mod Order
pub mod Progress
use tp2_so_g.Base.{ℕ, suc, ◌≡◌, Bool, true, false, not, List, [], ◌∷◌, ◌++◌, update}

-- The points of the loops of producerEntry and consumerEntry, named by what comes next or was done.
pub data Phase : Type 0 where
  wants_free : Phase
  has_free : Phase
  writes : Phase
  wrote : Phase
  left_writing : Phase
  wants_full : Phase
  has_full : Phase
  reads : Phase
  has_read : Phase
  left_reading : Phase

-- SEM_SLOT_LIBRE, SEM_SLOT_LLENO and SEM_EXCL, slotValue, and the workers.
pub record Mvar : Type 0 where
  pub free_units : ℕ
  pub full_units : ℕ
  pub excl_units : ℕ
  pub slot_value : ℕ
  pub worker : ℕ → Phase
  pub written : List ℕ
  pub taken : List ℕ

abbrev pub goes_to : Phase → ℕ → (ℕ → Phase) → ℕ → Phase
goes_to p w worker = update worker w p

-- What mvarCommand leaves when the workers start: units 1, 0 and 1, and an empty slot.
abbrev pub start_mvar : (ℕ → Phase) → Mvar
start_mvar worker = record {
  free_units = 1;
  full_units = 0;
  excl_units = 1;
  slot_value = 0;
  worker = worker;
  written = [];
  taken = [];
}

-- One step of worker `w`; `n` is what a semaphore is left with by a wait.
pub data Step : Mvar → Mvar → Type 0 where
  wait_free :
      {m : Mvar} (w n : ℕ)
      → m.worker w ≡ wants_free
      → m.free_units ≡ suc n
      → Step m (record m { free_units = n; worker = goes_to has_free w m.worker })
  wait_to_write :
      {m : Mvar} (w n : ℕ)
      → m.worker w ≡ has_free
      → m.excl_units ≡ suc n
      → Step m (record m { excl_units = n; worker = goes_to writes w m.worker })
  write_slot :
      {m : Mvar} (w ch : ℕ)
      → m.worker w ≡ writes
      → Step m (record m {
        slot_value = ch;
        worker = goes_to wrote w m.worker;
        written = m.written ++ ch ∷ [];
      })
  post_written :
      {m : Mvar} (w : ℕ)
      → m.worker w ≡ wrote
      → Step m
          (record m { excl_units = suc m.excl_units; worker = goes_to left_writing w m.worker })
  post_full :
      {m : Mvar} (w : ℕ)
      → m.worker w ≡ left_writing
      → Step m (record m { full_units = suc m.full_units; worker = goes_to wants_free w m.worker })
  wait_full :
      {m : Mvar} (w n : ℕ)
      → m.worker w ≡ wants_full
      → m.full_units ≡ suc n
      → Step m (record m { full_units = n; worker = goes_to has_full w m.worker })
  wait_to_read :
      {m : Mvar} (w n : ℕ)
      → m.worker w ≡ has_full
      → m.excl_units ≡ suc n
      → Step m (record m { excl_units = n; worker = goes_to reads w m.worker })
  read_slot :
      {m : Mvar} (w : ℕ)
      → m.worker w ≡ reads
      → Step m
          (record m { worker = goes_to has_read w m.worker; taken = m.taken ++ m.slot_value ∷ [] })
  post_read :
      {m : Mvar} (w : ℕ)
      → m.worker w ≡ has_read
      → Step m
          (record m { excl_units = suc m.excl_units; worker = goes_to left_reading w m.worker })
  post_free :
      {m : Mvar} (w : ℕ)
      → m.worker w ≡ left_reading
      → Step m (record m { free_units = suc m.free_units; worker = goes_to wants_full w m.worker })

-- Any number of steps.
pub data Run : Mvar → Mvar → Type 0 where
  stay : {m : Mvar} → Run m m
  go : {m m' m'' : Mvar} → Run m m' → Step m' m'' → Run m m''
