-- ===== src/Fds/Tables.antt =====
-- closeAllFDs and copyFdTable of process.c.
use tp2_so_g.Base.{
  ℕ, zero, suc, ◌+◌, ◌≡◌, ◌≢◌, ◌≤◌, ◌<◌, ◌⊎◌, refl, ◌∙◌, sym, ap, subst, Option, none, some, arith,
  inl, inr,
}
use tp2_so_g.Kernel.{Kernel, Process, Code, max_processes}
use tp2_so_g.Kernel.Action.{after}
use tp2_so_g.Fds.{
  max_fds, get_fd, close_fd, open_fd, close_from, close_all_fds, copy_from, copy_fd_table,
}
use tp2_so_g.Fds.Wired.{fds_of, IsWired}
use tp2_so_g.Fds.Calls.{Rewired, live_fd}
use tp2_so_g.Fds.Dup.{
  close_fd-Rewired, open_fd-Rewired, Rewired-trans, Rewired-refl, closed_at, is_manned,
}

-- The `n` descriptors of the process `i` from `fd` on become those of `o`, and no other changes.
pub record Reset (held : ℕ → ℕ) (i fd n : ℕ) (o : ℕ → Option ℕ) (k k' : Kernel) : Type 0 where
  pub wired : IsWired held k'
  pub here : (d : ℕ) → fd ≤ d → d < fd + n → fds_of (k'.table i) d ≡ o d
  pub others :
      (j d : ℕ) → (i ≢ j) ⊎ ((d < fd) ⊎ (fd + n ≤ d)) → fds_of (k'.table j) d ≡ fds_of (k.table j) d

Reset-none :
    (held : ℕ → ℕ) (i fd : ℕ) (o : ℕ → Option ℕ) (k : Kernel)
    → IsWired held k
    → Reset held i fd 0 o k k
Reset-none held i fd o k w = record {
  wired = w;
  here = λ d l m. absurd (omega arith);
  others = λ j d ne. refl;
}

pub first_or_later : (fd d : ℕ) → fd ≤ d → (fd ≡ d) ⊎ (suc fd ≤ d)
first_or_later fd d l = ground arith

not_first :
    (i j fd n d : ℕ)
    → (i ≢ j) ⊎ ((d < fd) ⊎ (fd + suc n ≤ d))
    → ((i ≢ j) ⊎ (fd ≢ d)) × ((i ≢ j) ⊎ ((d < suc fd) ⊎ (suc fd + n ≤ d)))
not_first i j fd n d (inl a) = (inl a, inl a)
not_first i j fd n d (inr (inl b)) = (inr (λ e. omega arith), inr (inl (omega arith)))
not_first i j fd n d (inr (inr c)) = (inr (λ e. omega arith), inr (inr (omega arith)))

Reset-step :
    (held : ℕ → ℕ) (i fd n : ℕ) (o : ℕ → Option ℕ) (a b c : Kernel)
    → Rewired held i fd (o fd) a b
    → Reset held i (suc fd) n o b c
    → Reset held i fd (suc n) o a c
Reset-step held i fd n o a b c r s = record {
  wired = s.wired;
  here = λ d l m. elim (first_or_later fd d l) [
    | inl e ↦
        subst (λ d. fds_of (c.table i) d ≡ o d) e (s.others i fd (inr (inl (omega arith))) ∙ r.here)
    | inr later ↦ s.here d later (omega arith)
  ];
  others = λ j d ne. let (x, y) = not_first i j fd n d ne in s.others j d y ∙ r.others j d x;
}

close_from-Reset :
    (n fd : ℕ) (held : ℕ → ℕ) (i : ℕ) (p : Process) (k : Kernel)
    → IsWired held k
    → i < max_processes
    → fd + n ≤ max_fds
    → k.table i ≡ some p
    → (k' : Kernel) × (close_from n fd i k ≡ some (tt, k')) × Reset held i fd n (λ d. none) k k'
unfolding close_from
close_from-Reset zero fd held i p k w l m e = (k, refl, Reset-none held i fd (λ d. none) k w)
close_from-Reset (suc n) fd held i p k w l m e =
    let (c, k1, r1, s1) = close_fd-Rewired held i fd p k w l (omega arith) e in
    let (q, e1) = s1.manned i p e in
    let (k2, r2, s2) = close_from-Reset n (suc fd) held i q k1 s1.wired l (omega arith) e1 in
    (
      k2,
      after (close_fd i fd) (close_from n (suc fd) i) c k k1 r1 ∙ r2,
      Reset-step held i fd n (λ d. none) k k1 k2 s1 s2,
    )

-- With the counts of files and pipes in order and memory left, closeAllFDs returns; the process has no descriptor open, those of the others are as they were, and
-- the counts of files and pipes hold.
pub close_all_fds-Reset :
    (held : ℕ → ℕ) (i : ℕ) (p : Process) (k : Kernel)
    → IsWired held k
    → i < max_processes
    → k.table i ≡ some p
    → (k' : Kernel) × (close_all_fds i k ≡ some (tt, k')) × Reset held i 0 max_fds (λ d. none) k k'
unfolding close_all_fds
close_all_fds-Reset held i p k w l e = close_from-Reset max_fds 0 held i p k w l (omega arith) e

fd_at : (i fd : ℕ) (k : Kernel) → fd < max_fds → get_fd i fd k ≡ fds_of (k.table i) fd
fd_at i fd k l = ground (arith, l)

open_none : (i fd : ℕ) (k : Kernel) → open_fd i none fd k ≡ some (none, k)
unfolding open_fd
open_none i fd k = refl

-- openFd in the loop of copyFdTable, on the descriptor that was closed just before.
open_copy :
    (held : ℕ → ℕ) (i j fd : ℕ) (p q : Process) (o : Option ℕ) (k : Kernel)
    → IsWired held k
    → (i < max_processes) × (j < max_processes) × (fd < max_fds)
    → k.table i ≡ some p
    → k.table j ≡ some q
    → fds_of (k.table i) fd ≡ none
    → q.fd_table fd ≡ o
    → (r : Option ℕ) × (k' : Kernel) × (open_fd i o fd k ≡ some (r, k')) × Rewired held i fd o k k'
open_copy held i j fd p q none k w l e e' c at =
    (none, k, open_none i fd k, Rewired-refl held i fd none k w c)
open_copy held i j fd p q (some f) k w (l, l', m) e e' c at =
    let (x, there) = live_fd held j fd f q k w l' m e' at in
    let (k', r, out) = open_fd-Rewired held i fd f x p k w l m e (closed_at i fd p k e c) there in
    (some fd, k', r, out)

-- The rounds of the loop from `fd` on, as they are written.
copy_round :
    (n fd i j : ℕ) (c : Code) (r o : Option ℕ) (k k1 k2 : Kernel)
    → close_fd i fd k ≡ some (c, k1)
    → get_fd j fd k1 ≡ o
    → open_fd i o fd k1 ≡ some (r, k2)
    → copy_from (suc n) fd i j k ≡ copy_from n (suc fd) i j k2
unfolding copy_from
copy_round n fd i j c r o k k1 k2 a b d = ground (arith, a, b, d)

copy_from-Reset :
    (n fd : ℕ) (held : ℕ → ℕ) (i j : ℕ) (p q : Process) (o : ℕ → Option ℕ) (k : Kernel)
    → IsWired held k
    → (i < max_processes) × (j < max_processes) × (fd + n ≤ max_fds)
    → i ≢ j
    → k.table i ≡ some p
    → k.table j ≡ some q
    → ((d : ℕ) → fds_of (k.table j) d ≡ o d)
    → (k' : Kernel) × (copy_from n fd i j k ≡ some (tt, k')) × Reset held i fd n o k k'
unfolding copy_from
copy_from-Reset zero fd held i j p q o k w l ne e e' at = (k, refl, Reset-none held i fd o k w)
copy_from-Reset (suc n) fd held i j p q o k w (l, l', m) ne e e' at =
    let (c, k1, r1, s1) = close_fd-Rewired held i fd p k w l (omega arith) e in
    let (p1, e1) = s1.manned i p e in
    let (q1, e1') = s1.manned j q e' in
    let same : fds_of (k1.table j) fd ≡ o fd = s1.others j fd (inl ne) ∙ at fd in
    let at1 : q1.fd_table fd ≡ o fd = sym (ap (λ t. fds_of t fd) e1') ∙ same in
    let (r, k2, r2, s2) =
      open_copy held i j fd p1 q1 (o fd) k1 s1.wired (l, l', omega arith) e1 e1' s1.here at1 in
    let (p2, e2) = s2.manned i p1 e1 in
    let (q2, e2') = s2.manned j q1 e1' in
    let (k3, r3, s3) =
      copy_from-Reset n (suc fd) held i j p2 q2 o k2 s2.wired (l, l', omega arith) ne e2 e2'
        (λ d. s2.others j d (inl ne) ∙ s1.others j d (inl ne) ∙ at d) in
    (
      k3,
      copy_round n fd i j c r (o fd) k k1 k2 r1 (fd_at j fd k1 (omega arith) ∙ same) r2 ∙ r3,
      Reset-step held i fd n o k k2 k3 (Rewired-trans held i fd none (o fd) k k1 k2 s1 s2) s3,
    )

-- With the counts of files and pipes in order and memory left, copyFdTable between two processes returns; the descriptors of the target are those of the source,
-- no other process's change, and the counts of files and pipes hold.
pub copy_fd_table-Reset :
    (held : ℕ → ℕ) (i j : ℕ) (p q : Process) (k : Kernel)
    → IsWired held k
    → (i < max_processes) × (j < max_processes)
    → i ≢ j
    → k.table i ≡ some p
    → k.table j ≡ some q
    → (k' : Kernel) × (copy_fd_table i j k ≡ some (tt, k'))
      × Reset held i 0 max_fds (fds_of (k.table j)) k k'
unfolding copy_fd_table
copy_fd_table-Reset held i j p q k w (l, l') ne e e' =
    rw (is_manned i p k e, is_manned j q k e')
      (copy_from-Reset max_fds 0 held i j p q (fds_of (k.table j)) k w (l, l', omega arith) ne e e'
        (λ d. refl))
