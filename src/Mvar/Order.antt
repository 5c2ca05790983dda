-- ===== src/Mvar/Order.antt =====
-- Every byte written into the slot is read once, in order, by one worker at a time.
use tp2_so_g.Base.{
  ℕ, zero, suc, ◌+◌, ◌≤◌, ◌≡◌, refl, sym, ◌∙◌, subst, ◌⊎◌, inl, inr, Bool, true, false, not, List,
  [], ◌∷◌, ◌++◌, arith, append-nil,
}
use tp2_so_g.Base.{◌==◌}
use tp2_so_g.Mvar.{
  Phase, wants_free, writes, wrote, left_writing, wants_full, has_full, reads, has_read, Mvar,
  start_mvar, Step, wait_free, wait_to_write, write_slot, post_written, post_full, wait_full,
  wait_to_read, read_slot, post_read, post_free, Run, stay, go,
}

-- Whether the worker has no unit of the slot.
abbrev pub rests : Phase → Bool
rests wants_free = true
rests wants_full = true
rests _ = false

-- Whether the worker has the unit of SEM_EXCL.
abbrev pub excludes : Phase → ℕ
excludes writes = 1
excludes wrote = 1
excludes reads = 1
excludes has_read = 1
excludes _ = 0

-- How many bytes wait in the slot while the worker has its unit.
abbrev pub pending : Phase → ℕ
pending wrote = 1
pending left_writing = 1
pending has_full = 1
pending reads = 1
pending _ = 0

abbrev pub slot_holds : ℕ → ℕ → List ℕ
slot_holds zero v = []
slot_holds (suc n) v = v ∷ []

-- No worker has the unit of the slot: it is in one of the semaphores.
pub record IsIdle (m : Mvar) : Type 0 where
  pub units : m.free_units + m.full_units ≡ 1
  pub excl : m.excl_units ≡ 1
  pub resting : (v : ℕ) → rests (m.worker v) ≡ true
  pub kept : m.written ≡ m.taken ++ slot_holds m.full_units m.slot_value

-- Worker `w` has it.
pub record IsHeld (w : ℕ) (m : Mvar) : Type 0 where
  pub units : m.free_units + m.full_units ≡ 0
  pub excl : m.excl_units + excludes (m.worker w) ≡ 1
  pub resting : (v : ℕ) → rests (m.worker v) ≡ not (w == v)
  pub kept : m.written ≡ m.taken ++ slot_holds (pending (m.worker w)) m.slot_value

abbrev pub InOrder : Mvar → Type 0
InOrder m = IsIdle m ⊎ ((w : ℕ) × IsHeld w m)

-- A worker that does not rest is the one that has the unit.
IsHeld-by : (w : ℕ) (m : Mvar) → rests (m.worker w) ≡ false → InOrder m → IsHeld w m
IsHeld-by w m r (inl i) = absurd (ground (arith, r, i.resting w))
IsHeld-by w m r (inr (v, i)) = subst (λ u. IsHeld u m) (ground (arith, r, i.resting w)) i

-- A worker that rests takes the unit of a semaphore only when nobody has it.
IsIdle-of : (m : Mvar) (n : ℕ) → m.free_units + m.full_units ≡ suc n → InOrder m → IsIdle m
IsIdle-of m n e (inl i) = i
IsIdle-of m n e (inr (v, i)) = absurd (omega (arith, e, i.units))

Step-InOrder : {m m' : Mvar} → Step m m' → InOrder m → InOrder m'
Step-InOrder {m} (wait_free w n p u) o =
    let i = IsIdle-of m (n + m.full_units) (omega (arith, u)) o in
    inr (
      w,
      record {
        units = omega (arith, i.units, u);
        excl = ground (arith, i.excl);
        resting = λ v. ground (arith, i.resting v);
        kept = ground (arith, i.kept, i.units, u);
      },
    )
Step-InOrder {m} (wait_to_write w n p u) o =
    let i = IsHeld-by w m (ground (arith, p)) o in
    inr (
      w,
      record {
        units = i.units;
        excl = ground (arith, i.excl, p);
        resting = λ v. ground (arith, i.resting v, p);
        kept = ground (arith, i.kept, p);
      },
    )
Step-InOrder {m} (write_slot w ch p) o =
    let i = IsHeld-by w m (ground (arith, p)) o in
    inr (
      w,
      record {
        units = i.units;
        excl = ground (arith, i.excl, p);
        resting = λ v. ground (arith, i.resting v, p);
        kept = ground (arith, i.kept, p, append-nil m.taken);
      },
    )
Step-InOrder {m} (post_written w p) o =
    let i = IsHeld-by w m (ground (arith, p)) o in
    inr (
      w,
      record {
        units = i.units;
        excl = ground (arith, i.excl, p);
        resting = λ v. ground (arith, i.resting v, p);
        kept = ground (arith, i.kept, p);
      },
    )
Step-InOrder {m} (post_full w p) o =
    let i = IsHeld-by w m (ground (arith, p)) o in
    inl (record {
      units = omega (arith, i.units);
      excl = ground (arith, i.excl, p);
      resting = λ v. ground (arith, i.resting v);
      kept = ground (arith, i.kept, p, i.units);
    })
Step-InOrder {m} (wait_full w n p u) o =
    let i = IsIdle-of m (m.free_units + n) (omega (arith, u)) o in
    inr (
      w,
      record {
        units = omega (arith, i.units, u);
        excl = ground (arith, i.excl);
        resting = λ v. ground (arith, i.resting v);
        kept = ground (arith, i.kept, i.units, u);
      },
    )
Step-InOrder {m} (wait_to_read w n p u) o =
    let i = IsHeld-by w m (ground (arith, p)) o in
    inr (
      w,
      record {
        units = i.units;
        excl = ground (arith, i.excl, p);
        resting = λ v. ground (arith, i.resting v, p);
        kept = ground (arith, i.kept, p);
      },
    )
Step-InOrder {m} (read_slot w p) o =
    let i = IsHeld-by w m (ground (arith, p)) o in
    inr (
      w,
      record {
        units = i.units;
        excl = ground (arith, i.excl, p);
        resting = λ v. ground (arith, i.resting v, p);
        kept = ground (arith, i.kept, p, append-nil (m.taken ++ m.slot_value ∷ []));
      },
    )
Step-InOrder {m} (post_read w p) o =
    let i = IsHeld-by w m (ground (arith, p)) o in
    inr (
      w,
      record {
        units = i.units;
        excl = ground (arith, i.excl, p);
        resting = λ v. ground (arith, i.resting v, p);
        kept = ground (arith, i.kept, p);
      },
    )
Step-InOrder {m} (post_free w p) o =
    let i = IsHeld-by w m (ground (arith, p)) o in
    inl (record {
      units = omega (arith, i.units);
      excl = ground (arith, i.excl, p);
      resting = λ v. ground (arith, i.resting v);
      kept = ground (arith, i.kept, p, i.units);
    })

pub start-InOrder :
    (worker : ℕ → Phase) → ((v : ℕ) → rests (worker v) ≡ true) → InOrder (start_mvar worker)
start-InOrder worker r = inl (record { units = refl; excl = refl; resting = r; kept = refl })

pub Run-InOrder : {m m' : Mvar} → Run m m' → InOrder m → InOrder m'
Run-InOrder stay o = o
Run-InOrder (go r s) o = Step-InOrder s (Run-InOrder r o)

excludes-awake : (p : Phase) → excludes p ≡ 1 → rests p ≡ false
excludes-awake wants_free a = absurd (ground (arith, a))
excludes-awake wants_full a = absurd (ground (arith, a))
excludes-awake _ a = refl

one_pending : (p : Phase) → pending p ≤ 1
one_pending p = ground arith

owner : (v u : ℕ) (m : Mvar) → IsHeld u m → excludes (m.worker v) ≡ 1 → u ≡ v
owner v u m i a = ground (arith, excludes-awake (m.worker v) a, i.resting v)

-- From the start, where every worker rests, and in any interleaving of the workers: the bytes read are the bytes written in their
-- order, but for at most one that waits in the slot, and two workers that hold the exclusion are the same.
pub Run-keeps :
    (worker : ℕ → Phase) (m : Mvar)
    → ((v : ℕ) → rests (worker v) ≡ true)
    → Run (start_mvar worker) m
    → ((n : ℕ) × (n ≤ 1) × (m.written ≡ m.taken ++ slot_holds n m.slot_value))
      × ((v w : ℕ) → excludes (m.worker v) ≡ 1 → excludes (m.worker w) ≡ 1 → v ≡ w)
Run-keeps worker m r run = elim (Run-InOrder run (start-InOrder worker r)) [
  | inl i ↦ (
    (m.full_units, omega (arith, i.units), i.kept),
    λ v w a b. absurd (ground (arith, excludes-awake (m.worker v) a, i.resting v)),
  )
  | inr (u, i) ↦ (
    (pending (m.worker u), one_pending (m.worker u), i.kept),
    λ v w a b. sym (owner v u m i a) ∙ owner w u m i b,
  )
]
