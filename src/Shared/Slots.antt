-- ===== src/Shared/Slots.antt =====
-- What the loops over the table of named semaphores find after a write to it.
use tp2_so_g.Base.{
  ℕ, suc, ◌≡◌, ◌≢◌, refl, sym, ◌∙◌, Bool, true, false, none, some, List, [], ◌∷◌, arith, Bool-cases,
  inl, inr,
}
use tp2_so_g.Base.Int.{pos}
use tp2_so_g.Text.Compare.{NoNul, strcmp_iff}
use tp2_so_g.Shared.{
  Slot, find_slot, at_slot, holds, is_free, fill, clear, find_by_name, find_free_slot,
}

-- A slot in use holds one reference at least, a semaphore and a C string as its name.
abbrev pub InUse : Slot → Type 0
InUse s = (n : ℕ) × (s.ref_count ≡ pos (suc n)) × ((a : ℕ) × (s.sem ≡ some a)) × NoNul s.name

-- Every slot in use is well formed, and no later slot in use has its name.
abbrev pub IsTable : List Slot → Type 0
IsTable [] = Unit {0}
IsTable (s ∷ rest) = (s.used ≡ true → InUse s × (find_by_name s.name rest ≡ none)) × IsTable rest

refuted : {b : Bool} → (b ≡ true → ⊥) → b ≡ false
refuted {b = true} f = absurd (f refl)
refuted {b = false} f = refl

pub used_of_holds : (name : List ℕ) (s : Slot) → holds name s ≡ true → s.used ≡ true
used_of_holds name s h = ground arith

pub name_of_holds_at :
    (name : List ℕ) (nn : NoNul name) (s : Slot)
    → NoNul s.name
    → holds name s ≡ true
    → s.name ≡ name
name_of_holds_at name nn s n h = (strcmp_iff s.name name n nn).0 (ground arith)

module _ (name : List ℕ) (nn : NoNul name) where
  name_of_holds : (s : Slot) → NoNul s.name → holds name s ≡ true → s.name ≡ name
  name_of_holds = name_of_holds_at name nn

  holds_of_name : (s : Slot) → s.used ≡ true → s.name ≡ name → holds name s ≡ true
  holds_of_name s u e = rw (u, e) ((strcmp_iff name name nn nn).1 refl)

  -- The slot of one name is no slot of another.
  not_other :
      (s : Slot) (other : List ℕ)
      → (s.used ≡ true → NoNul s.name)
      → other ≢ name
      → holds name s ≡ true
      → s.name ≢ other
  not_other s other n ne h e = ne (sym e ∙ name_of_holds s (n (used_of_holds name s h)) h)

  -- A change that keeps name and use is found again.
  pub find-at_self :
      (change : Slot → Slot) (slots : List Slot)
      → ((s : Slot) → holds name (change s) ≡ holds name s)
      → find_by_name name (at_slot (holds name) change slots)
        ≡ elim (find_by_name name slots) [ none ↦ none | some s ↦ some (change s) ]
  unfolding find_slot at_slot
  find-at_self change [] keep = refl
  find-at_self change (s ∷ rest) keep = ground (arith, keep s, find-at_self change rest keep)

  -- No change to the slot of one name is seen under another.
  pub find-at_other :
      (other : List ℕ) (change : Slot → Slot) (slots : List Slot)
      → NoNul other
      → other ≢ name
      → IsTable slots
      → ((s : Slot)
          → (s.used ≡ true → NoNul s.name)
          → holds other (change s) ≡ true
          → s.name ≡ other)
      → find_by_name other (at_slot (holds name) change slots) ≡ find_by_name other slots
  unfolding find_slot at_slot
  find-at_other other change [] on ne t keep = refl
  find-at_other other change (s ∷ rest) on ne t keep = elim (Bool-cases (holds name s)) [
    | inl h ↦
        let off = not_other s other (λ u. (t.0 u).0.3) ne h in
        let gone : holds other (change s) ≡ false =
          refuted (λ y. off (keep s (λ u. (t.0 u).0.3) y)) in
        let was : holds other s ≡ false =
          refuted (λ y. off (name_here s other (λ u. (t.0 u).0.3) on y)) in
        rw (h, gone, was)
    | inr m ↦ ground (arith, m, find-at_other other change rest on ne t.1 keep)
  ]
    where
      name_here :
          (s : Slot) (other : List ℕ)
          → (s.used ≡ true → NoNul s.name)
          → NoNul other
          → holds other s ≡ true
          → s.name ≡ other
      name_here s other n on h = name_of_holds_at other on s (n (used_of_holds other s h)) h

  -- Once the slot is cleared the name is gone.
  pub find-clear :
      (slots : List Slot)
      → IsTable slots
      → find_by_name name (at_slot (holds name) clear slots) ≡ none
  unfolding find_slot at_slot
  find-clear [] t = refl
  find-clear (s ∷ rest) t = elim (Bool-cases (holds name s)) [
    | inl h ↦
        let u = used_of_holds name s h in
        let e = name_of_holds s (t.0 u).0.3 h in rw h (rw e at ((t.0 u).1))
    | inr m ↦ ground (arith, m, find-clear rest t.1)
  ]

  -- The name of a slot that is filled is found in it.
  pub find-fill_self :
      (a : ℕ) (slots : List Slot) (free : Slot)
      → find_by_name name slots ≡ none
      → find_free_slot slots ≡ some free
      → find_by_name name (at_slot is_free (fill name a) slots) ≡ some (fill name a free)
  unfolding find_slot at_slot
  find-fill_self a [] free n f = ground arith
  find-fill_self a (s ∷ rest) free n f =
      ground (arith, holds_of_name (fill name a s) refl refl, find-fill_self a rest free)

  -- Filling a free slot is not seen under another name.
  pub find-fill_other :
      (other : List ℕ) (a : ℕ) (slots : List Slot)
      → NoNul other
      → other ≢ name
      → find_by_name other (at_slot is_free (fill name a) slots) ≡ find_by_name other slots
  unfolding find_slot at_slot
  find-fill_other other a [] on ne = refl
  find-fill_other other a (s ∷ rest) on ne = elim (Bool-cases s.used) [
    | inl u ↦ ground (arith, u, find-fill_other other a rest on ne)
    | inr f ↦
        let gone : holds other (fill name a s) ≡ false =
          refuted (λ y. ne (sym (name_of_holds_at other on (fill name a s) nn y))) in
        ground (arith, f, gone)
  ]

-- A change that brings no name back leaves an absent name absent.
find-at_none :
    (test : Slot → Bool) (other : List ℕ) (change : Slot → Slot) (slots : List Slot)
    → ((s : Slot) → holds other (change s) ≡ true → holds other s ≡ true)
    → find_by_name other slots ≡ none
    → find_by_name other (at_slot test change slots) ≡ none
unfolding find_slot at_slot
find-at_none test other change [] keep n = refl
find-at_none test other change (s ∷ rest) keep n =
    ground (arith, keep s, find-at_none test other change rest keep)

-- A change within a slot that keeps names and what a slot in use holds keeps the table.
pub at_slot-IsTable :
    (test : Slot → Bool) (change : Slot → Slot) (slots : List Slot)
    → ((s : Slot) (other : List ℕ) → holds other (change s) ≡ true → holds other s ≡ true)
    → ((s : Slot)
        → find_slot test slots ≡ some s
        → (s.used ≡ true → InUse s)
        → (change s).used ≡ true
        → InUse (change s) × (s.used ≡ true) × ((change s).name ≡ s.name))
    → IsTable slots
    → IsTable (at_slot test change slots)
unfolding at_slot find_slot
at_slot-IsTable test change [] keep good t = tt
at_slot-IsTable test change (s ∷ rest) keep good t = elim (Bool-cases (test s)) [
  | inl y ↦
      rw y
        ((λ u. let (i, was, e) = good s (rw y) (λ w. (t.0 w).0) u in (i, rw e ((t.0 was).1))), t.1)
  | inr n ↦ rw n (
    (λ u. ((t.0 u).0, find-at_none test s.name change rest (λ r. keep r s.name) (t.0 u).1)),
    at_slot-IsTable test change rest keep (λ r e. good r (rw n e)) t.1,
  )
]

-- A new name in a free slot keeps the table.
pub fill-IsTable :
    (name : List ℕ) (a : ℕ) (slots : List Slot)
    → NoNul name
    → find_by_name name slots ≡ none
    → IsTable slots
    → IsTable (at_slot is_free (fill name a) slots)
unfolding at_slot find_slot
fill-IsTable name a [] nn n t = tt
fill-IsTable name a (s ∷ rest) nn n t = elim (Bool-cases (is_free s)) [
  | inl f ↦ rw f ((λ _. ((0, refl, (a, refl), nn), ground (arith, n, f))), t.1)
  | inr u ↦
      let used : s.used ≡ true = ground (arith, u) in
      let ne : s.name ≢ name = λ e. absurd (ground (arith, holds_of_name name nn s used e, n)) in
      let new = find-fill_other name nn s.name a rest (t.0 used).0.3 ne in
      rw u (
        (λ _. ((t.0 used).0, new ∙ (t.0 used).1)),
        fill-IsTable name a rest nn (ground (arith, n)) t.1,
      )
]
