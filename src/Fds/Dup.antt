-- ===== src/Fds/Dup.antt =====
-- closeFd, openFd and dupFd of process.c on every branch.
use tp2_so_g.Base.{
  ℕ, true, false, ◌==◌, ◌≡◌, ◌≢◌, ◌<◌, refl, ◌∙◌, sym, ap, subst, Option, none, some, arith, inl,
  inr, Option-cases,
}
use tp2_so_g.Kernel.{Kernel, File, Process, Code, done, failed, max_processes}
use tp2_so_g.Kernel.Action.{after}
use tp2_so_g.Fds.{max_fds, get_fd, close_fd, open_fd, dup_fd, has_process, is_valid_fd, install_fd}
use tp2_so_g.Fds.Wired.{fds_of, IsWired}
use tp2_so_g.Fds.Calls.{Rewired, live_fd, install_fd-Rewired, get_fd-of, close_fd-done}

pub Rewired-refl :
    (held : ℕ → ℕ) (i fd : ℕ) (o : Option ℕ) (k : Kernel)
    → IsWired held k
    → fds_of (k.table i) fd ≡ o
    → Rewired held i fd o k k
Rewired-refl held i fd o k w h = record {
  wired = w;
  here = h;
  others = λ j d ne. refl;
  manned = λ j p e. (p, e);
}

pub Rewired-trans :
    (held : ℕ → ℕ) (i fd : ℕ) (o o' : Option ℕ) (a b c : Kernel)
    → Rewired held i fd o a b
    → Rewired held i fd o' b c
    → Rewired held i fd o' a c
Rewired-trans held i fd o o' a b c r s = record {
  wired = s.wired;
  here = s.here;
  others = λ j d ne. s.others j d ne ∙ r.others j d ne;
  manned = λ j p e. let (q, e') = r.manned j p e in s.manned j q e';
}

close_fd-failed :
    (i fd : ℕ) (k : Kernel) → get_fd i fd k ≡ none → close_fd i fd k ≡ some (failed, k)
unfolding close_fd
close_fd-failed i fd k e = ground (arith, e)

-- closeFd on a descriptor in range, open or not.
pub close_fd-Rewired :
    (held : ℕ → ℕ) (i fd : ℕ) (p : Process) (k : Kernel)
    → IsWired held k
    → i < max_processes
    → fd < max_fds
    → k.table i ≡ some p
    → (c : Code) × (k' : Kernel) × (close_fd i fd k ≡ some (c, k')) × Rewired held i fd none k k'
close_fd-Rewired held i fd p k w l m e = elim (Option-cases (p.fd_table fd)) [
  | inl closed ↦
      let at : fds_of (k.table i) fd ≡ none = ap (λ o. fds_of o fd) e ∙ closed in
      (
        failed,
        k,
        close_fd-failed i fd k (get_fd-of i fd p k m e ∙ closed),
        Rewired-refl held i fd none k w at,
      )
  | inr (f, at) ↦ let (k', r, out) = close_fd-done held i fd f p k w l m e at in (done, k', r, out)
]

pub closed_at :
    (i fd : ℕ) (p : Process) (k : Kernel)
    → k.table i ≡ some p
    → fds_of (k.table i) fd ≡ none
    → p.fd_table fd ≡ none
closed_at i fd p k e c = sym (ap (λ o. fds_of o fd) e) ∙ c

open_at :
    (i fd : ℕ) (o : Option ℕ) (p : Process) (k : Kernel)
    → k.table i ≡ some p
    → p.fd_table fd ≡ o
    → fds_of (k.table i) fd ≡ o
open_at i fd o p k e c = ap (λ o. fds_of o fd) e ∙ c

pub get_open :
    (i fd f : ℕ) (p : Process) (k : Kernel)
    → k.table i ≡ some p
    → get_fd i fd k ≡ some f
    → (fd < max_fds) × (p.fd_table fd ≡ some f)
get_open i fd f p k e g = ground (arith, e, g)

dup_none :
    (i old new : ℕ) (c : Code) (p : Process) (k k' : Kernel)
    → k.table i ≡ some p
    → new < max_fds
    → old ≢ new
    → get_fd i old k ≡ none
    → close_fd i new k ≡ some (c, k')
    → dup_fd i old new k ≡ some (some new, k')
unfolding dup_fd
dup_none i old new c p k k' e m ne g r = ground (arith, e, m, ne, g, r)

dup_closing :
    (i old new f : ℕ) (c : Code) (k k' : Kernel)
    → has_process i k ≡ true
    → is_valid_fd new ≡ true
    → (old == new) ≡ false
    → get_fd i old k ≡ some f
    → close_fd i new k ≡ some (c, k')
    → dup_fd i old new k ≡ install_fd i f new k'
unfolding dup_fd
dup_closing i old new f c k k' h v ne g r =
    rw (h, v, ne, g) (after (close_fd i new) (install_fd i f new) c k k' r)

pub is_manned : (i : ℕ) (p : Process) (k : Kernel) → k.table i ≡ some p → has_process i k ≡ true
is_manned i p k e = ground (arith, e)

differ : (a b : ℕ) → a ≢ b → (a == b) ≡ false
differ a b ne = ground (arith, ne)

dup_some :
    (i old new f : ℕ) (c : Code) (p : Process) (k k' : Kernel)
    → k.table i ≡ some p
    → new < max_fds
    → old ≢ new
    → get_fd i old k ≡ some f
    → close_fd i new k ≡ some (c, k')
    → dup_fd i old new k ≡ install_fd i f new k'
dup_some i old new f c p k k' e m ne g r =
    dup_closing i old new f c k k' (is_manned i p k e) (ground (arith, m)) (differ old new ne) g r

-- With the counts of files and pipes in order and memory left, dupFd onto another descriptor in range
-- returns it. It refers afterwards to the file of the
-- old one, or is closed where the old one is closed or out of range (no clone of it is made); no other descriptor changes, and
-- the counts of files and pipes hold.
pub dup_fd-Rewired :
    (held : ℕ → ℕ) (i old new : ℕ) (p : Process) (k : Kernel)
    → IsWired held k
    → i < max_processes
    → new < max_fds
    → k.table i ≡ some p
    → old ≢ new
    → (k' : Kernel) × (dup_fd i old new k ≡ some (some new, k'))
      × Rewired held i new (get_fd i old k) k k'
dup_fd-Rewired held i old new p k w l m e ne =
    let (c, k1, r1, out1) = close_fd-Rewired held i new p k w l m e in
    elim (Option-cases (get_fd i old k)) [
      | inl g ↦ (
        k1,
        dup_none i old new c p k k1 e m ne g r1,
        subst (λ o. Rewired held i new o k k1) (sym g) out1,
      )
      | inr (f, g) ↦
          let (b, at) = get_open i old f p k e g in
          let (q, e1) = out1.manned i p e in
          let shut = closed_at i new q k1 e1 out1.here in
          let kept = out1.others i old (inr (λ s. ne (sym s))) ∙ open_at i old (some f) p k e at in
          let still : q.fd_table old ≡ some f = sym (ap (λ o. fds_of o old) e1) ∙ kept in
          let (x, there) = live_fd held i old f q k1 out1.wired l b e1 still in
          let (k2, r2, out2) =
            install_fd-Rewired held i new f x q k1 out1.wired l m e1 shut there in
          (
            k2,
            dup_some i old new f c p k k1 e m ne g r1 ∙ r2,
            subst (λ o. Rewired held i new o k k2) (sym g)
                (Rewired-trans held i new none (some f) k k1 k2 out1 out2),
          )
    ]

open_free :
    (i fd f : ℕ) (p : Process) (k : Kernel) (out : Option (Option ℕ × Kernel))
    → k.table i ≡ some p
    → fd < max_fds
    → p.fd_table fd ≡ none
    → install_fd i f fd k ≡ out
    → open_fd i (some f) fd k ≡ out
unfolding open_fd
open_free i fd f p k out e m c r = ground (arith, e, m, c, r)

-- openFd of a file that is there, on a descriptor in range that is closed, returns the descriptor,
-- which refers to the file afterwards.
pub open_fd-Rewired :
    (held : ℕ → ℕ) (i fd f : ℕ) (x : File) (p : Process) (k : Kernel)
    → IsWired held k
    → i < max_processes
    → fd < max_fds
    → k.table i ≡ some p
    → p.fd_table fd ≡ none
    → k.files f ≡ some x
    → (k' : Kernel) × (open_fd i (some f) fd k ≡ some (some fd, k'))
      × Rewired held i fd (some f) k k'
open_fd-Rewired held i fd f x p k w l m e c there =
    let (k', r, out) = install_fd-Rewired held i fd f x p k w l m e c there in
    (k', open_free i fd f p k (some (some fd, k')) e m c r, out)
