-- ===== src/Shared/Calls.antt =====
-- sharedSemOpen and sharedSemClose against the counts of references.
use tp2_so_g.Base.{
  ℕ, zero, suc, ◌≡◌, ◌<◌, ◌⊎◌, refl, sym, subst, true, false, ◌&&◌, Bool, Bool-cases, Option, none,
  some, List, [], ◌∷◌, arith, inl, inr, Option-cases,
}
use tp2_so_g.Base.Int.{ℤ, pos}
use tp2_so_g.Text.{strlen}
use tp2_so_g.Text.Compare.{NoNul}
use tp2_so_g.Kernel.{Kernel, Semaphore, Code, done, failed}
use tp2_so_g.Semaphore.{free_semaphore, new_semaphore, put_sem}
use tp2_so_g.Shared.{
  Slot, Shared, at_slot, holds, is_free, fill, clear, find_by_name, find_free_slot, count_up,
  find_slot, count_down, locked, open_new, open_named, close_named, shared_sem_open,
  shared_sem_close, name_room,
}
use tp2_so_g.Shared.Slots.{InUse, IsTable}
use tp2_so_g.Shared.Counts.{
  refs, OthersKept, found-InUse, count_up_lem, count_down_lem, clear_lem, fill_lem,
}

-- A table at rest: unlocked, every slot in use well formed, no name twice.
pub record IsOpenable (h : Shared) : Type 0 where
  pub unlocked : h.table_lock ≡ false
  pub table : IsTable h.slots

abbrev pub all_used : List Slot → Bool
all_used [] = true
all_used (s ∷ rest) = s.used && all_used rest

-- A semaphore takes two requests for memory, and one of them is refused.
abbrev pub NoMemory : Kernel → Type 0
NoMemory k = (k.grants k.asked ≡ false) ⊎ (k.grants (suc k.asked) ≡ false)

-- What an open comes to.
pub record Opened (name : List ℕ) (h : Shared) (result : Option (Code × Shared)) : Type 0 where
  pub code : Code
  pub after : Shared
  pub returns : result ≡ some (code, after)
  pub openable : IsOpenable after
  pub others : OthersKept name h.slots after.slots
  pub outcome :
      ((code ≡ done) × (refs name after.slots ≡ suc (refs name h.slots)))
      ⊎ ((code ≡ failed)
          × (refs name h.slots ≡ 0)
          × (after.slots ≡ h.slots)
          × ((all_used h.slots ≡ true) ⊎ NoMemory h.kernel))

no_free : (slots : List Slot) → find_free_slot slots ≡ none → all_used slots ≡ true
unfolding find_slot
no_free [] e = refl
no_free (s ∷ rest) e = ground (arith, e, no_free rest)

no_semaphore : (v : ℤ) (k : Kernel) → (new_semaphore v k).0 ≡ none → NoMemory k
unfolding new_semaphore
no_semaphore v k e = elim (Bool-cases (k.grants k.asked)) [
  | inr f ↦ inl f
  | inl t ↦ elim (Bool-cases (k.grants (suc k.asked))) [
    | inr f ↦ inr f
    | inl t2 ↦ absurd (ground (arith, e, t, t2))
  ]
]

module _ (name : List ℕ) (nn : NoNul name) (h : Shared) (o : IsOpenable h) where
  open_found :
      (v : ℤ) (s : Slot) → find_by_name name h.slots ≡ some s → Opened name h (open_named name v h)
  unfolding open_named
  open_found v s e =
      let (t, r, k) = count_up_lem name nn h.slots o.table s e in
      record {
        code = done;
        after = record h { slots = at_slot (holds name) count_up h.slots };
        returns = ground (arith, e);
        openable = record { unlocked = o.unlocked; table = t };
        others = k;
        outcome = inl (refl, r);
      }

  open_refused :
      (k' : Kernel)
      → find_by_name name h.slots ≡ none
      → (all_used h.slots ≡ true) ⊎ NoMemory h.kernel
      → Opened name h (some (failed, record h { kernel = k' }))
  open_refused k' e why = record {
    code = failed;
    after = record h { kernel = k' };
    returns = refl;
    openable = record { unlocked = o.unlocked; table = o.table };
    others = λ n m ne. refl;
    outcome = inr (refl, ground (arith, e), refl, why);
  }

  open_filled :
      (v : ℤ) (free : Slot)
      → strlen name < name_room
      → find_by_name name h.slots ≡ none
      → find_free_slot h.slots ≡ some free
      → Opened name h (open_new name v h)
  unfolding open_new
  open_filled v free len e f = elim (Option-cases (new_semaphore v h.kernel).0) [
    | inl q ↦
        let fails : open_new name v h
            ≡ some (failed, record h { kernel = (new_semaphore v h.kernel).1 }) =
          unfold open_new in ground (arith, q) in
        subst (Opened name h) (sym fails)
          (open_refused (new_semaphore v h.kernel).1 e (inr (no_semaphore v h.kernel q)))
    | inr (a, q) ↦
        let (t, r, k) = fill_lem name nn h.slots o.table a free e f in
        record {
          code = done;
          after = record h {
            kernel = (new_semaphore v h.kernel).1;
            slots = at_slot is_free (fill name a) h.slots;
          };
          returns = ground (arith, q);
          openable = record { unlocked = o.unlocked; table = t };
          others = k;
          outcome = inl (refl, r);
        }
  ]

  open_named-Opened : (v : ℤ) → strlen name < name_room → Opened name h (open_named name v h)
  unfolding open_named
  open_named-Opened v len = elim (Option-cases (find_by_name name h.slots)) [
    | inr (s, e) ↦ open_found v s e
    | inl e ↦ elim (Option-cases (find_free_slot h.slots)) [
      | inl f ↦
          let no_room : open_named name v h ≡ some (failed, h) = ground (arith, e, f) in
          subst (Opened name h) (sym no_room) (open_refused h.kernel e (inl (no_free h.slots f)))
      | inr (free, f) ↦
          let makes : open_named name v h ≡ open_new name v h = ground (arith, e, f) in
          subst (Opened name h) (sym makes) (open_filled v free len e f)
    ]
  ]

-- What a close comes to, and when it frees the semaphore.
pub record Closed (name : List ℕ) (h : Shared) (result : Option (Code × Shared)) : Type 0 where
  pub code : Code
  pub after : Shared
  pub returns : result ≡ some (code, after)
  pub openable : IsOpenable after
  pub others : OthersKept name h.slots after.slots
  pub outcome :
      ((code ≡ done) × (suc (refs name after.slots) ≡ refs name h.slots))
      ⊎ ((code ≡ failed) × (refs name h.slots ≡ 0) × (after ≡ h))

module _ (name : List ℕ) (nn : NoNul name) (h : Shared) (o : IsOpenable h) (s : Slot)
    (e : find_by_name name h.slots ≡ some s) where
  close_last :
      (k' : Kernel)
      → s.ref_count ≡ pos 1
      → free_semaphore s.sem h.kernel ≡ some k'
      → Closed name h (close_named name h)
  unfolding close_named
  close_last k' c f =
      let (t, r, k) = clear_lem name nn h.slots o.table in
      record {
        code = done;
        after = record h { kernel = k'; slots = at_slot (holds name) clear h.slots };
        returns = ground (arith, e, c, f);
        openable = record { unlocked = o.unlocked; table = t };
        others = k;
        outcome = inl (refl, ground (arith, r, e, c));
      }

  close_some : (n : ℕ) → s.ref_count ≡ pos (suc (suc n)) → Closed name h (close_named name h)
  unfolding close_named
  close_some n c =
      let (t, r, k) = count_down_lem name nn h.slots o.table s n e c in
      record {
        code = done;
        after = record h { slots = at_slot (holds name) count_down h.slots };
        returns = ground (arith, e, c);
        openable = record { unlocked = o.unlocked; table = t };
        others = k;
        outcome = inl (refl, ground (arith, r, e, c));
      }

  close_found :
      ((k' : Kernel) × (free_semaphore s.sem h.kernel ≡ some k'))
      → Closed name h (close_named name h)
  close_found (k', f) = by_count (found-InUse name h.slots s o.table e).0
    where
      by_count : InUse s → Closed name h (close_named name h)
      by_count (zero, c, sem, nm) = close_last k' c f
      by_count (suc n, c, sem, nm) = close_some n c

-- The semaphore of a name, where there is one, is live and its lock is free.
unfoldable pub SemIsFree : List ℕ → Shared → Type 0
SemIsFree name h =
    (s : Slot) (a : ℕ)
    → find_by_name name h.slots ≡ some s
    → s.sem ≡ some a
    → (m : Semaphore) × (h.kernel.sems a ≡ some m) × (m.lock ≡ false)

free_live :
    (a : ℕ) (k : Kernel) (m : Semaphore)
    → k.sems a ≡ some m
    → m.lock ≡ false
    → (k' : Kernel) × (free_semaphore (some a) k ≡ some k')
unfolding free_semaphore
free_live a k m e l = by_queue m.blocked_queue refl
  where
    by_queue :
        (q : List ℕ) → m.blocked_queue ≡ q → (k' : Kernel) × (free_semaphore (some a) k ≡ some k')
    by_queue [] q = (put_sem a none k, ground (arith, e, l, q))
    by_queue (p ∷ rest) q =
        (put_sem a (some (record m { lock = false })) k, ground (arith, e, l, q))

-- The call goes on past the lock.
locked_lem : (h : Shared) (r : Option (Code × Shared)) → IsOpenable h → r ≡ locked h r
locked_lem h r o = ground (arith, o.unlocked)

module _ (c : ℕ) (text : List ℕ) (nn : NoNul (c ∷ text)) (h : Shared) (o : IsOpenable h) where
  -- With tableLock free and the table well formed, sharedSemOpen of a name of 1 to 38 bytes returns.
  -- Either it returns 0 and the name has one reference more, or it returns -1, the name has none and no
  -- slot changes; and then every slot is in use or one of the two requests for the semaphore's memory is
  -- refused. No other name's count changes, and the table stays well formed.
  pub shared_sem_open-Opened :
      (initial_value : ℤ)
      → strlen (c ∷ text) < name_room
      → Opened (c ∷ text) h (shared_sem_open (some (c ∷ text)) initial_value h)
  unfolding shared_sem_open
  shared_sem_open-Opened v len =
      subst (Opened (c ∷ text) h) (locked_lem h _ o) (open_named-Opened (c ∷ text) nn h o v len)

  -- With tableLock free, the table well formed and the semaphore of the name live with its lock free,
  -- sharedSemClose returns. Where the name has references it returns 0 and the name has one less;
  -- where it has none it returns -1 and changes nothing. No other name's count changes, and the
  -- table stays well formed.
  pub shared_sem_close-Closed :
      SemIsFree (c ∷ text) h → Closed (c ∷ text) h (shared_sem_close (some (c ∷ text)) h)
  unfolding shared_sem_close SemIsFree
  shared_sem_close-Closed free =
      subst (Closed (c ∷ text) h) (locked_lem h _ o)
        (elim (Option-cases (find_by_name (c ∷ text) h.slots)) [
          | inl e ↦
              let missing : close_named (c ∷ text) h ≡ some (failed, h) =
                unfold close_named in ground (arith, e) in
              subst (Closed (c ∷ text) h) (sym missing) (record {
                code = failed;
                after = h;
                returns = refl;
                openable = o;
                others = λ n m ne. refl;
                outcome = inr (refl, ground (arith, e), refl);
              })
          | inr (s, e) ↦
              let (n, r, (a, q), nm) = (found-InUse (c ∷ text) h.slots s o.table e).0 in
              let (m, at, l) = free s a e q in
              let (k', f) = free_live a h.kernel m at l in
              close_found (c ∷ text) nn h o s e
                (k', subst (λ x. free_semaphore x h.kernel ≡ some k') (sym q) f)
        ])
