-- ===== src/Semaphore/Loop.antt =====
-- The loop of semPost: whom it wakes, and what it leaves.
use tp2_so_g.Base.{
  ℕ, zero, suc, ◌+◌, ◌-◌, inl, inr, ◌⊎◌, ◌∙◌, ◌≡◌, refl, false, Option, none, some, List, [], ◌∷◌,
  ◌++◌, arith, length,
}
use tp2_so_g.Base.Int.{ℤ, pos, negsuc, inc, is_positive, neg_part}
use tp2_so_g.Kernel.{Kernel, Process, blocked, Code, done, failed}
use tp2_so_g.Kernel.Facts.{IsSound, HasMemory}
use tp2_so_g.Ready.{set_ready}
use tp2_so_g.Ready.Sound.{set_ready-IsSound}
use tp2_so_g.Semaphore.{post_loop}

-- The process in a slot is BLOCKED.
abbrev pub IsBlocked : Option Process → Type 0
IsBlocked none = ⊥
IsBlocked (some p) = p.state ≡ blocked

-- -n
abbrev pub minus : ℕ → ℤ
minus zero = pos 0
minus (suc n) = negsuc n

abbrev pub All : (ℕ → Type 0) → List ℕ → Type 0
All P [] = Unit {0}
All P (x ∷ xs) = P x × All P xs

-- `setReady` refuses this pid: its slot is empty or its process is not BLOCKED.
abbrev pub CannotWake : Kernel → ℕ → Type 0
CannotWake k p = IsBlocked (k.table p) → ⊥

set_ready-failed : (p : ℕ) (k : Kernel) → CannotWake k p → set_ready p k ≡ (failed, k)
unfolding set_ready
set_ready-failed p k h = ground arith

set_ready-done :
    (p : ℕ) (k : Kernel)
    → IsSound k
    → IsBlocked (k.table p)
    → set_ready p k ≡ (done, (set_ready p k).1)
unfolding set_ready
set_ready-done p k s h = ground (arith, s.inside p)

pub minus-not_positive : (n : ℕ) → is_positive (minus n) ≡ false
minus-not_positive zero = refl
minus-not_positive (suc n) = refl

pub inc-minus-suc : (n : ℕ) → inc (minus (suc n)) ≡ minus n
inc-minus-suc zero = refl
inc-minus-suc (suc n) = refl

-- The loop passes over the pids that cannot be woken and stops at the first that can.
pub post_loop-wakes :
    (stale : List ℕ) (p : ℕ) (rest : List ℕ) (k : Kernel)
    → IsSound k
    → All (CannotWake k) stale
    → IsBlocked (k.table p)
    → post_loop (stale ++ p ∷ rest) (minus (length stale + length rest)) k
      ≡ (minus (length rest), rest, (set_ready p k).1)
unfolding post_loop
post_loop-wakes [] p rest k s a b =
    ground (arith, minus-not_positive (0 + length rest), set_ready-done p k s b)
post_loop-wakes (q ∷ stale) p rest k s a b =
    let e : suc (length stale) + length rest ≡ suc (length stale + length rest) = omega arith in
    rw e (
      ground (
        arith,
        inc-minus-suc (length stale + length rest),
        set_ready-failed q k a.0,
        post_loop-wakes stale p rest k s a.1 b,
      ))

-- Where nobody can be woken the loop empties the queue and the unit stays with the semaphore.
pub post_loop-keeps :
    (stale : List ℕ) (k : Kernel)
    → All (CannotWake k) stale
    → post_loop stale (inc (minus (length stale))) k ≡ (pos 1, [], k)
unfolding post_loop
post_loop-keeps [] k a = refl
post_loop-keeps (q ∷ stale) k a = ground (
  arith,
  inc-minus-suc (length stale),
  minus-not_positive (length stale),
  set_ready-failed q k a.0,
  post_loop-keeps stale k a.1,
)

-- What the loop leaves: the accounts in order, and as many waiting as the value is below zero.
pub record Settled (k : Kernel) (out : ℤ × List ℕ × Kernel) : Type 0 where
  pub waiting : length out.1 ≡ neg_part out.0
  pub sound : IsSound out.2
  pub memory : HasMemory out.2
  pub sems_kept : out.2.sems ≡ k.sems

pub set_ready-Settled :
    (p : ℕ) (k : Kernel)
    → HasMemory k
    → HasMemory (set_ready p k).1 × ((set_ready p k).1.sems ≡ k.sems)
unfolding set_ready
set_ready-Settled p k mem = (λ n h. ground (arith, mem n), ground arith)

post_loop-done :
    (q : ℕ) (queue : List ℕ) (n : ℕ) (k : Kernel)
    → (set_ready q k).0 ≡ done
    → post_loop (q ∷ queue) (inc (minus (suc n))) k ≡ (minus n, queue, (set_ready q k).1)
unfolding post_loop
post_loop-done q queue n k e = ground (arith, inc-minus-suc n, minus-not_positive n)

post_loop-failed :
    (q : ℕ) (queue : List ℕ) (n : ℕ) (k : Kernel)
    → (set_ready q k).0 ≡ failed
    → post_loop (q ∷ queue) (inc (minus (suc n))) k
      ≡ post_loop queue (inc (minus n)) (set_ready q k).1
unfolding post_loop
post_loop-failed q queue n k e = ground (arith, inc-minus-suc n, minus-not_positive n)

neg_part-minus : (n : ℕ) → neg_part (minus n) ≡ n
neg_part-minus zero = refl
neg_part-minus (suc n) = refl

neg_part-inc : (n : ℕ) → neg_part (inc (minus n)) ≡ n - 1
neg_part-inc zero = omega arith
neg_part-inc (suc n) = rw (inc-minus-suc n, neg_part-minus n) (omega arith)

pub Code-cases : (c : Code) → (c ≡ done) ⊎ (c ≡ failed)
Code-cases done = inl refl
Code-cases failed = inr refl

pub post_loop-Settled :
    (queue : List ℕ) (n : ℕ) (k : Kernel)
    → IsSound k
    → HasMemory k
    → length queue ≡ n
    → Settled k (post_loop queue (inc (minus n)) k)
unfolding post_loop
post_loop-Settled [] n k s mem e = record {
  waiting = omega (arith, neg_part-inc n);
  sound = s;
  memory = mem;
  sems_kept = refl;
}
post_loop-Settled (q ∷ queue) zero k s mem e = absurd (omega arith)
post_loop-Settled (q ∷ queue) (suc n) k s mem e =
    let s' = set_ready-IsSound q mem s in
    let (mem', same) = set_ready-Settled q k mem in
    elim (Code-cases (set_ready q k).0) [
      | inl d ↦ rw (post_loop-done q queue n k d) (record {
        waiting = omega (arith, neg_part-minus n);
        sound = s';
        memory = mem';
        sems_kept = same;
      })
      | inr f ↦
          let rest = post_loop-Settled queue n (set_ready q k).1 s' mem' (omega arith) in
          rw (post_loop-failed q queue n k f) (record {
            waiting = rest.waiting;
            sound = rest.sound;
            memory = rest.memory;
            sems_kept = rest.sems_kept ∙ same;
          })
    ]

pub post_loop-AtRest :
    (queue : List ℕ) (v : ℤ) (k : Kernel)
    → IsSound k
    → HasMemory k
    → length queue ≡ neg_part v
    → Settled k (post_loop queue (inc v) k)
unfolding post_loop
post_loop-AtRest queue (pos zero) k s mem e = post_loop-Settled queue 0 k s mem e
post_loop-AtRest queue (negsuc n) k s mem e = post_loop-Settled queue (suc n) k s mem e
post_loop-AtRest [] (pos (suc m)) k s mem e = record {
  waiting = refl;
  sound = s;
  memory = mem;
  sems_kept = refl;
}
post_loop-AtRest (q ∷ queue) (pos (suc m)) k s mem e = absurd (omega arith)
