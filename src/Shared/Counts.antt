-- ===== src/Shared/Counts.antt =====
-- The table of named semaphores as a count of references for each name.
use tp2_so_g.Base.{
  ℕ, suc, ◌≡◌, ◌≢◌, refl, ap, true, Option, none, some, List, [], ◌∷◌, arith, inl, inr, Bool-cases,
}
use tp2_so_g.Base.Int.{ℤ, pos, negsuc, inc}
use tp2_so_g.Text.Compare.{NoNul}
use tp2_so_g.Shared.{
  Slot, find_slot, at_slot, holds, is_free, fill, clear, find_by_name, find_free_slot, count_up,
  count_down,
}
use tp2_so_g.Shared.Slots.{
  InUse, IsTable, find-at_self, find-at_other, find-clear, find-fill_self, find-fill_other,
  at_slot-IsTable, fill-IsTable, name_of_holds_at, used_of_holds,
}

-- How many references a name has: 0 where no slot in use has it.
abbrev pub magnitude : ℤ → ℕ
magnitude (pos n) = n
magnitude (negsuc n) = 0

abbrev pub found_refs : Option Slot → ℕ
found_refs none = 0
found_refs (some s) = magnitude s.ref_count

abbrev pub refs : List ℕ → List Slot → ℕ
refs name slots = found_refs (find_by_name name slots)

-- The other names keep their counts.
abbrev pub OthersKept : List ℕ → List Slot → List Slot → Type 0
OthersKept name before after =
    (other : List ℕ) → NoNul other → other ≢ name → refs other after ≡ refs other before

pub found-InUse :
    (name : List ℕ) (slots : List Slot) (s : Slot)
    → IsTable slots
    → find_by_name name slots ≡ some s
    → InUse s × (s.used ≡ true)
unfolding find_slot
found-InUse name [] s t e = cc
found-InUse name (r ∷ rest) s t e = elim (Bool-cases (holds name r)) [
  | inl y ↦
      let at : r ≡ s = ground (arith, y) in
      let u : r.used ≡ true = ground (arith, y) in rw (← at) ((t.0 u).0, u)
  | inr n ↦ found-InUse name rest s t.1 (ground (arith, n))
]

module _ (name : List ℕ) (nn : NoNul name) (slots : List Slot) (t : IsTable slots) where
  same_name :
      (other : List ℕ)
      → NoNul other
      → (r : Slot) → (r.used ≡ true → NoNul r.name)
      → holds other r ≡ true
      → r.name ≡ other
  same_name other on r n h = name_of_holds_at other on r (n (used_of_holds other r h)) h

  -- One reference more.
  pub count_up_lem :
      (s : Slot)
      → find_by_name name slots ≡ some s
      → let after = at_slot (holds name) count_up slots in
        IsTable after × (refs name after ≡ suc (refs name slots)) × OthersKept name slots after
  count_up_lem s e =
      let (in_use, on) = found-InUse name slots s t e in
      (
        at_slot-IsTable (holds name) count_up slots (λ r o h. h)
            (λ r y w u. let (n, c, sem, nm) = w u in ((suc n, ap inc c, sem, nm), u, refl)) t,
        ground (arith, find-at_self name nn count_up slots (λ r. refl), e, in_use.1),
        λ o on' ne.
            ap found_refs (find-at_other name nn o count_up slots on' ne t (same_name o on')),
      )

  -- One reference less, where some are left.
  pub count_down_lem :
      (s : Slot) (n : ℕ)
      → find_by_name name slots ≡ some s
      → s.ref_count ≡ pos (suc (suc n))
      → let after = at_slot (holds name) count_down slots in
        IsTable after × (refs name after ≡ suc n) × OthersKept name slots after
  count_down_lem s n e c = (
    at_slot-IsTable (holds name) count_down slots (λ r o h. h)
        (λ r y w u. let (m, d, sem, nm) = w u in ((n, ground (arith, y, e, c), sem, nm), u, refl))
        t,
    ground (arith, find-at_self name nn count_down slots (λ r. refl), e, c),
    λ o on' ne. ap found_refs (find-at_other name nn o count_down slots on' ne t (same_name o on')),
  )

  -- The last reference.
  pub clear_lem :
      let after = at_slot (holds name) clear slots in
      IsTable after × (refs name after ≡ 0) × OthersKept name slots after
  clear_lem = (
    at_slot-IsTable (holds name) clear slots (λ r o h. cc) (λ r y w u. cc) t,
    ap found_refs (find-clear name nn slots t),
    λ o on' ne. ap found_refs (find-at_other name nn o clear slots on' ne t (λ r n h. cc)),
  )

  -- The first reference.
  pub fill_lem :
      (a : ℕ) (free : Slot)
      → find_by_name name slots ≡ none
      → find_free_slot slots ≡ some free
      → let after = at_slot is_free (fill name a) slots in
        IsTable after × (refs name after ≡ suc (refs name slots)) × OthersKept name slots after
  fill_lem a free n f = (
    fill-IsTable name a slots nn n t,
    ground (arith, find-fill_self name nn a slots free n f, n),
    λ o on' ne. ap found_refs (find-fill_other name nn o a slots on' ne),
  )
