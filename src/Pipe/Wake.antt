-- ===== src/Pipe/Wake.antt =====
-- semPost many times on one semaphore, as the close of the last writer does.
use tp2_so_g.Base.{
  ℕ, zero, suc, ◌-◌, ◌≡◌, ◌≤◌, refl, ◌∙◌, Bool, true, false, Option, none, some, List, [], ◌∷◌,
  arith, length, ap, subst, inl, inr,
}
use tp2_so_g.Base.Int.{ℤ, pos, negsuc, inc, is_positive, neg_part}
use tp2_so_g.Kernel.{Kernel, Process, Semaphore, done}
use tp2_so_g.Kernel.Facts.{InOrder}
use tp2_so_g.Ready.{set_ready}
use tp2_so_g.Semaphore.{post_loop, sem_post, put_sem}
use tp2_so_g.Semaphore.Loop.{
  post_loop-AtRest, Settled, minus, minus-not_positive, inc-minus-suc, Code-cases,
}
use tp2_so_g.Semaphore.Rouse.{
  Rouses, Rouses-refl, Rouses-trans, post_loop-Rouses, after_done, after_failed,
}
use tp2_so_g.Semaphore.Post.{sem_post-InOrder}
use tp2_so_g.Pipe.{post_times}

abbrev pub fd_table_of : Option Process → Option (ℕ → Option ℕ)
fd_table_of none = none
fd_table_of (some p) = some p.fd_table

abbrev pub is_live : Option Semaphore → Bool
is_live none = false
is_live (some s) = true

-- What waking processes leaves alone: files, pipes, descriptors, and which semaphores there are.
pub record Kept (k k' : Kernel) : Type 0 where
  pub files_kept : k'.files ≡ k.files
  pub pipes_kept : k'.pipes ≡ k.pipes
  pub fds_kept : (i : ℕ) → fd_table_of (k'.table i) ≡ fd_table_of (k.table i)
  pub live_kept : (a : ℕ) → is_live (k'.sems a) ≡ is_live (k.sems a)
  pub more_asked : k.asked ≤ k'.asked

pub Kept-refl : (k : Kernel) → Kept k k
Kept-refl k = record {
  files_kept = refl;
  pipes_kept = refl;
  fds_kept = λ i. refl;
  live_kept = λ a. refl;
  more_asked = omega arith;
}

pub Kept-trans : {a b c : Kernel} → Kept a b → Kept b c → Kept a c
Kept-trans p q = record {
  files_kept = q.files_kept ∙ p.files_kept;
  pipes_kept = q.pipes_kept ∙ p.pipes_kept;
  fds_kept = λ i. q.fds_kept i ∙ p.fds_kept i;
  live_kept = λ a. q.live_kept a ∙ p.live_kept a;
  more_asked = omega (arith, p.more_asked, q.more_asked);
}

set_ready-Kept : (p : ℕ) (k : Kernel) → Kept k (set_ready p k).1
unfolding set_ready
set_ready-Kept p k = record {
  files_kept = ground arith;
  pipes_kept = ground arith;
  fds_kept = λ i. ground arith;
  live_kept = λ a. ground arith;
  more_asked = ground arith;
}

-- The loop leaves at least one waiter fewer, unless nobody waits.
pub record Woken (queue : List ℕ) (k : Kernel) (out : ℤ × List ℕ × Kernel) : Type 0 where
  pub fewer : length out.1 ≤ length queue - 1
  pub kept : Kept k out.2

post_loop-Woken :
    (queue : List ℕ) (n : ℕ) (k : Kernel)
    → length queue ≡ n
    → Woken queue k (post_loop queue (inc (minus n)) k)
unfolding post_loop
post_loop-Woken [] n k e = record { fewer = omega arith; kept = Kept-refl k }
post_loop-Woken (q ∷ queue) zero k e = absurd (omega arith)
post_loop-Woken (q ∷ queue) (suc n) k e =
    let v_low : is_positive (inc (minus (suc n))) ≡ false =
      ap is_positive (inc-minus-suc n) ∙ minus-not_positive n in
    elim (Code-cases (set_ready q k).0) [
      | inl d ↦
          rw (after_done q queue (inc (minus (suc n))) k v_low d)
            (record { fewer = omega arith; kept = set_ready-Kept q k })
      | inr f ↦
          let e' : inc (inc (minus (suc n))) ≡ inc (minus n) = ap inc (inc-minus-suc n) in
          let rest = post_loop-Woken queue n (set_ready q k).1 (omega arith) in
          rw (after_failed q queue (inc (minus (suc n))) k v_low f, e')
            (record {
              fewer = omega (arith, rest.fewer);
              kept = Kept-trans (set_ready-Kept q k) rest.kept;
            })
    ]

wakes_one :
    (queue : List ℕ) (v : ℤ) (k : Kernel)
    → length queue ≡ neg_part v
    → Woken queue k (post_loop queue (inc v) k)
unfolding post_loop
wakes_one queue (pos zero) k e = post_loop-Woken queue 0 k e
wakes_one queue (negsuc n) k e = post_loop-Woken queue (suc n) k e
wakes_one [] (pos (suc m)) k e = record { fewer = omega arith; kept = Kept-refl k }
wakes_one (q ∷ queue) (pos (suc m)) k e = absurd (omega arith)

-- Who waits.
abbrev pub queue_of : Option Semaphore → List ℕ
queue_of none = []
queue_of (some s) = s.blocked_queue

-- How many wait.
abbrev pub waiting : Option Semaphore → ℕ
waiting none = 0
waiting (some s) = length s.blocked_queue

-- A post on a semaphore that is there: the call returns, and what holds of the kernel then.
pub record Posted (a : ℕ) (n : ℕ) (k k' : Kernel) : Type 0 where
  pub rouses : (j : ℕ) → Rouses j (queue_of (k.sems a)) (queue_of (k'.sems a)) k k'
  pub order : InOrder k'
  pub kept : Kept k k'
  pub fewer : waiting (k'.sems a) ≤ waiting (k.sems a) - n

put_live :
    (a : ℕ) (s t : Semaphore) (k k' : Kernel)
    → k.sems a ≡ some s
    → k'.sems ≡ k.sems
    → Kept k k'
    → Kept k (put_sem a (some t) k')
put_live a s t k k' e same w = record {
  files_kept = w.files_kept;
  pipes_kept = w.pipes_kept;
  fds_kept = w.fds_kept;
  live_kept = λ b. ground (arith, w.live_kept b);
  more_asked = w.more_asked;
}

post_Rouses :
    (j a : ℕ) (s : Semaphore) (k : Kernel)
    → k.sems a ≡ some s
    → (v : ℤ) (left : List ℕ) (k1 : Kernel) → Rouses j s.blocked_queue left k k1
    → (let k2 = put_sem a (some (record { value = v; blocked_queue = left; lock = false })) k1 in
        Rouses j (queue_of (k.sems a)) (queue_of (k2.sems a)) k k2)
post_Rouses j a s k e v left k1 r = record {
  ready_kept = r.ready_kept;
  roused = ground (arith, e, r.roused);
}

sem_post-Posted :
    (a : ℕ) (s : Semaphore) (k : Kernel)
    → InOrder k
    → k.sems a ≡ some s
    → (k' : Kernel) × (sem_post (some a) k ≡ some (done, k')) × Posted a 1 k k'
unfolding sem_post
sem_post-Posted a s k i e =
    let out = post_loop s.blocked_queue (inc s.value) k in
    let s' : Semaphore = record { value = out.0; blocked_queue = out.1; lock = false } in
    let k1 : Kernel = put_sem a (some s') out.2 in
    let (k', r, i') = sem_post-InOrder a s k i e in
    let full : length s.blocked_queue ≡ neg_part s.value = ground (arith, i.at_rest a) in
    let w = wakes_one s.blocked_queue s.value k full in
    let t : Settled k out = post_loop-AtRest s.blocked_queue s.value k i.sound i.memory full in
    let here : sem_post (some a) k ≡ some (done, k1) = ground (arith, i.at_rest a) in
    let same : k' ≡ k1 = ground (arith, r, here) in
    (
      k1,
      here,
      record {
        rouses = λ j.
            post_Rouses j a s k e out.0 out.1 out.2
              (post_loop-Rouses j s.blocked_queue (inc s.value) k i.sound i.memory);
        order = subst InOrder same i';
        kept = put_live a s s' k out.2 e t.sems_kept w.kept;
        fewer = ground (arith, w.fewer);
      },
    )

pub live_sem : (o : Option Semaphore) → is_live o ≡ true → (s : Semaphore) × (o ≡ some s)
live_sem none e = absurd (ground (arith, e))
live_sem (some s) e = (s, refl)

pub post_times-Posted :
    (n a : ℕ) (k : Kernel)
    → InOrder k
    → is_live (k.sems a) ≡ true
    → (k' : Kernel) × (post_times n a k ≡ some (tt, k')) × Posted a n k k'
unfolding post_times
post_times-Posted zero a k i l = (
  k,
  refl,
  record {
    rouses = λ j. Rouses-refl j (queue_of (k.sems a)) k;
    order = i;
    kept = Kept-refl k;
    fewer = omega arith;
  },
)
post_times-Posted (suc n) a k i l =
    let (s, e) = live_sem (k.sems a) l in
    let (k1, r1, p1) = sem_post-Posted a s k i e in
    let (k2, r2, p2) = post_times-Posted n a k1 p1.order (p1.kept.live_kept a ∙ l) in
    (
      k2,
      ground (arith, r1, r2),
      record {
        rouses = λ j. Rouses-trans (p1.rouses j) (p2.rouses j);
        order = p2.order;
        kept = Kept-trans p1.kept p2.kept;
        fewer = omega (arith, p1.fewer, p2.fewer);
      },
    )
