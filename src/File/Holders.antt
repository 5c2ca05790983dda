-- ===== src/File/Holders.antt =====
-- The references of the files of fileAccess.c to the pipes, and freeFileAccess.
use tp2_so_g.Base.{
  ℕ, zero, suc, ◌+◌, ◌≡◌, ◌≤◌, refl, subst, Bool, true, false, Option, none, some, arith, update,
  if◌then◌else◌, ◌==◌, sum_below,
}
use tp2_so_g.Kernel.{Kernel, File}
use tp2_so_g.Kernel.Action.{pure}
use tp2_so_g.Pipe.{remove_pipe_ref, remove_pipe_writer}
use tp2_so_g.Pipe.Counts.{PipeFits, IsPiped}
use tp2_so_g.Pipe.Refs.{Onward, live_pipe, remove_pipe_ref-IsPiped, remove_pipe_writer-IsPiped}
use tp2_so_g.File.{can_write}

-- 1 where the pointer is to the pipe `p`.
abbrev pub at_target : ℕ → Option ℕ → ℕ
at_target p none = 0
at_target p (some q) = if q == p then 1 else 0

abbrev pub points_to : ℕ → Option File → ℕ
points_to p none = 0
points_to p (some x) = at_target p x.pipe

abbrev pub writes_to : ℕ → Option File → ℕ
writes_to p none = 0
writes_to p (some x) = if can_write x.flags then at_target p x.pipe else 0

-- How many files refer to a pipe, and how many of them may write.
abbrev pub pipe_refs : Kernel → ℕ → ℕ
pipe_refs k p = sum_below (λ f. points_to p (k.files f)) k.asked

abbrev pub pipe_writers : Kernel → ℕ → ℕ
pipe_writers k p = sum_below (λ f. writes_to p (k.files f)) k.asked

pub IsPiped-same :
    (refs writers refs' writers' : ℕ → ℕ) (k : Kernel)
    → ((p : ℕ) → refs p ≡ refs' p)
    → ((p : ℕ) → writers p ≡ writers' p)
    → IsPiped refs writers k
    → IsPiped refs' writers' k
IsPiped-same refs writers refs' writers' k r w i = record {
  order = i.order;
  owner = i.owner;
  role = i.role;
  fits = λ p.
      subst (λ n. PipeFits i.owner i.role n (writers' p) p (k.pipes p) k.sems) (r p)
        (subst (λ n. PipeFits i.owner i.role (refs p) n p (k.pipes p) k.sems) (w p) (i.fits p));
}

-- A count that is less by one at `p`.
less_at : (f g : ℕ → ℕ) (p b : ℕ) → f b ≡ g b + at_target b (some p) → update f p (g p) b ≡ g b
less_at f g p b e = ground arith

at_itself : (p : ℕ) → at_target p (some p) ≡ 1
at_itself p = ground arith

above_zero : (n : ℕ) → 1 ≤ n → (m : ℕ) × (n ≡ suc m)
above_zero zero l = absurd (omega arith)
above_zero (suc m) l = (m, refl)

-- A pipe with a reference less, where the pointer is not NULL.
pub drops_ref :
    (pipe : Option ℕ) (refs refs' writers : ℕ → ℕ) (k : Kernel)
    → ((p : ℕ) → refs p ≡ refs' p + at_target p pipe)
    → IsPiped refs writers k
    → (k' : Kernel) × (remove_pipe_ref pipe k ≡ some (tt, k'))
      × Onward k k'
      × IsPiped refs' writers k'
unfolding remove_pipe_ref
drops_ref none refs refs' writers k less i = (
  k,
  refl,
  record { files_kept = refl; fds_kept = λ i. refl; more_asked = omega arith },
  IsPiped-same refs writers refs' writers k (λ p. omega (arith, less p)) (λ p. refl) i,
)
drops_ref (some p) refs refs' writers k less i =
    let c : refs p ≡ suc (refs' p) = omega (arith, less p, at_itself p) in
    let (q, e) = live_pipe refs writers p (refs' p) k i c in
    let (k1, e1, o, i1) = remove_pipe_ref-IsPiped refs writers p (refs' p) q k i e c in
    (
      k1,
      e1,
      o,
      IsPiped-same (update refs p (refs' p)) writers refs' writers k1
          (λ b. less_at refs refs' p b (less b)) (λ b. refl) i1,
    )

pub drops_writer :
    (pipe : Option ℕ) (b : Bool) (refs writers writers' : ℕ → ℕ) (k : Kernel)
    → ((p : ℕ) → writers p ≡ writers' p + (if b then at_target p pipe else 0))
    → ((p : ℕ) → at_target p pipe ≤ refs p)
    → IsPiped refs writers k
    → (k' : Kernel) × ((if b then remove_pipe_writer pipe else pure tt) k ≡ some (tt, k'))
      × Onward k k'
      × IsPiped refs writers' k'
unfolding remove_pipe_writer
drops_writer none b refs writers writers' k less up i = (
  k,
  ground arith,
  record { files_kept = refl; fds_kept = λ i. refl; more_asked = omega arith },
  IsPiped-same refs writers refs writers' k (λ p. refl) (λ p. ground (arith, less p)) i,
)
drops_writer (some p) false refs writers writers' k less up i = (
  k,
  ground arith,
  record { files_kept = refl; fds_kept = λ i. refl; more_asked = omega arith },
  IsPiped-same refs writers refs writers' k (λ p. refl) (λ p. ground (arith, less p)) i,
)
drops_writer (some p) true refs writers writers' k less up i =
    let c : writers p ≡ suc (writers' p) = omega (arith, less p, at_itself p) in
    let at : 1 ≤ refs p = omega (arith, up p, at_itself p) in
    let (m, a) = above_zero (refs p) at in
    let (q, e) = live_pipe refs writers p m k i a in
    let (k1, e1, o, i1) = remove_pipe_writer-IsPiped refs writers p (writers' p) q k i e c in
    (
      k1,
      e1,
      o,
      IsPiped-same refs (update writers p (writers' p)) refs writers' k1 (λ b. refl)
          (λ b. less_at writers writers' p b (less b)) i1,
    )
