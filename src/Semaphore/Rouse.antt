-- ===== src/Semaphore/Rouse.antt =====
-- The waiters that the loop of semPost takes out of the queue are READY afterwards.
use tp2_so_g.Base.{
  ℕ, ◌≡◌, refl, Bool, true, false, ◌&&◌, ◌||◌, not, Option, none, some, List, [], ◌∷◌, arith, inl,
  inr, Bool-cases, ◌==◌,
}
use tp2_so_g.Base.Int.{ℤ, inc, is_positive}
use tp2_so_g.Kernel.{Kernel, Process, State, ready, blocked, state_eq, done, failed}
use tp2_so_g.Kernel.Facts.{IsSound, HasMemory}
use tp2_so_g.Ready.{set_ready}
use tp2_so_g.Ready.Sound.{set_ready-IsSound}
use tp2_so_g.Semaphore.{post_loop}
use tp2_so_g.Semaphore.Loop.{Code-cases, set_ready-Settled}

abbrev pub is_in : State → Option Process → Bool
is_in st none = false
is_in st (some p) = state_eq p.state st

abbrev pub has : ℕ → List ℕ → Bool
has j [] = false
has j (q ∷ queue) = (q == j) || has j queue

-- `j` is in the queue and its process is BLOCKED.
abbrev pub is_pending : ℕ → List ℕ → Kernel → Bool
is_pending j queue k = has j queue && is_in blocked (k.table j)

-- Who is READY stays so, and a BLOCKED process of the queue becomes READY or still waits.
pub record Rouses (j : ℕ) (queue left : List ℕ) (k k' : Kernel) : Type 0 where
  pub ready_kept : (not (is_in ready (k.table j)) || is_in ready (k'.table j)) ≡ true
  pub roused :
      (not (is_pending j queue k) || (is_in ready (k'.table j) || is_pending j left k')) ≡ true

implies_self : (b : Bool) → (not b || b) ≡ true
implies_self true = refl
implies_self false = refl

implies_or : (b c : Bool) → (not b || (c || b)) ≡ true
implies_or true true = refl
implies_or true false = refl
implies_or false c = refl

pub Rouses-refl : (j : ℕ) (queue : List ℕ) (k : Kernel) → Rouses j queue queue k k
Rouses-refl j queue k = record {
  ready_kept = implies_self (is_in ready (k.table j));
  roused = implies_or (is_pending j queue k) (is_in ready (k.table j));
}

implies_trans : (a b c : Bool) → (not a || b) ≡ true → (not b || c) ≡ true → (not a || c) ≡ true
implies_trans a b c e f = ground (arith, e, f)

roused_trans :
    (p p1 p2 r1 r2 : Bool)
    → (not p || (r1 || p1)) ≡ true
    → (not r1 || r2) ≡ true
    → (not p1 || (r2 || p2)) ≡ true
    → (not p || (r2 || p2)) ≡ true
roused_trans p p1 p2 r1 r2 e f g = ground (arith, e, f, g)

pub Rouses-trans :
    {j : ℕ} {q0 q1 q2 : List ℕ} {k0 k1 k2 : Kernel}
    → Rouses j q0 q1 k0 k1
    → Rouses j q1 q2 k1 k2
    → Rouses j q0 q2 k0 k2
Rouses-trans {j} {q0} {q1} {q2} {k0} {k1} {k2} a b = record {
  ready_kept =
      implies_trans (is_in ready (k0.table j)) (is_in ready (k1.table j)) (is_in ready (k2.table j))
        a.ready_kept b.ready_kept;
  roused =
      roused_trans (is_pending j q0 k0) (is_pending j q1 k1) (is_pending j q2 k2)
        (is_in ready (k1.table j)) (is_in ready (k2.table j)) a.roused b.ready_kept b.roused;
}

set_ready-Rouses :
    (j q : ℕ) (queue : List ℕ) (k : Kernel)
    → IsSound k
    → Rouses j (q ∷ queue) queue k (set_ready q k).1
unfolding set_ready
set_ready-Rouses j q queue k s = record {
  ready_kept = ground arith;
  roused = ground (arith, s.inside q);
}

pub after_done :
    (q : ℕ) (queue : List ℕ) (v : ℤ) (k : Kernel)
    → is_positive v ≡ false
    → (set_ready q k).0 ≡ done
    → post_loop (q ∷ queue) v k ≡ (v, queue, (set_ready q k).1)
unfolding post_loop
after_done q queue v k v_low e = ground arith

pub after_failed :
    (q : ℕ) (queue : List ℕ) (v : ℤ) (k : Kernel)
    → is_positive v ≡ false
    → (set_ready q k).0 ≡ failed
    → post_loop (q ∷ queue) v k ≡ post_loop queue (inc v) (set_ready q k).1
unfolding post_loop
after_failed q queue v k v_low e = ground arith

after_positive :
    (q : ℕ) (queue : List ℕ) (v : ℤ) (k : Kernel)
    → is_positive v ≡ true
    → post_loop (q ∷ queue) v k ≡ (v, q ∷ queue, k)
unfolding post_loop
after_positive q queue v k e = ground arith

pub post_loop-Rouses :
    (j : ℕ) (queue : List ℕ) (v : ℤ) (k : Kernel)
    → IsSound k
    → HasMemory k
    → Rouses j queue (post_loop queue v k).1 k (post_loop queue v k).2
unfolding post_loop
post_loop-Rouses j [] v k s mem = Rouses-refl j [] k
post_loop-Rouses j (q ∷ queue) v k s mem =
    let first = set_ready-Rouses j q queue k s in
    let (mem', same) = set_ready-Settled q k mem in
    elim (Bool-cases (is_positive v)) [
      | inl e ↦ rw (after_positive q queue v k e) (Rouses-refl j (q ∷ queue) k)
      | inr e ↦ elim (Code-cases (set_ready q k).0) [
        | inl d ↦ rw (after_done q queue v k e d) first
        | inr f ↦ rw (after_failed q queue v k e f) (
            Rouses-trans first
              (post_loop-Rouses j queue (inc v) (set_ready q k).1 (set_ready-IsSound q mem s) mem'))
      ]
    ]
