-- ===== src/Fds/Calls.antt =====
-- closeFd, openFd and dupFd of process.c keep the counts, and what they do to the descriptors.
use tp2_so_g.Base.{
  ℕ, suc, ◌+◌, ◌≡◌, ◌≢◌, ◌<◌, ◌⊎◌, refl, ◌∙◌, sym, ap, Option, none, some, arith, update, update_ne,
  same_or_not, inl, inr,
}
use tp2_so_g.Kernel.{Kernel, File, Process, done, max_processes, modify}
use tp2_so_g.Pipe.Wake.{fd_table_of}
use tp2_so_g.File.{remove_file_ref}
use tp2_so_g.File.Holders.{at_target}
use tp2_so_g.File.Counts.{FileFits, remove_file_ref-IsFiled, add_file_ref-IsFiled}
use tp2_so_g.Fds.{max_fds, set_fd, get_fd, close_fd, install_fd}
use tp2_so_g.Fds.Wired.{
  look, fds_of, table_refs, IsWired, IsFiled-same, table_refs_set, table_refs_same, put_fd,
  put_fd-IsFiled,
}

-- Only the descriptor `fd` of the process `i` changes: it is `o` afterwards, and the counts hold.
pub record Rewired (held : ℕ → ℕ) (i fd : ℕ) (o : Option ℕ) (k k' : Kernel) : Type 0 where
  pub wired : IsWired held k'
  pub here : fds_of (k'.table i) fd ≡ o
  pub others : (j d : ℕ) → (i ≢ j) ⊎ (fd ≢ d) → fds_of (k'.table j) d ≡ fds_of (k.table j) d
  pub manned : (j : ℕ) (p : Process) → k.table j ≡ some p → (q : Process) × (k'.table j ≡ some q)

file_case : (n m : ℕ) (o : Option File) → n ≡ suc m → FileFits n o → (x : File) × (o ≡ some x)
file_case n m none e h = absurd (omega (arith, e, h))
file_case n m (some x) e h = (x, refl)

slot_case :
    (o o' : Option Process) (p : Process)
    → fd_table_of o' ≡ fd_table_of o
    → o ≡ some p
    → (q : Process) × (o' ≡ some q)
slot_case o none p e h = absurd (ground (arith, e, h))
slot_case o (some q) p e h = (q, refl)

put_manned :
    (i fd : ℕ) (o : Option ℕ) (p : Process) (j : ℕ) (q : Process) (k : Kernel)
    → k.table j ≡ some q
    → (q' : Process) × ((put_fd i fd o p k).table j ≡ some q')
put_manned i fd o p j q k e = elim (same_or_not i j) [
  | inl s ↦ (set_fd fd o p, ground arith)
  | inr ne ↦ (q, update_ne k.table i j (some (set_fd fd o p)) ne ∙ e)
]

-- What a change of one descriptor and then a count leave.
rewired :
    (held : ℕ → ℕ) (i fd : ℕ) (o : Option ℕ) (p : Process) (k k' : Kernel)
    → k.table i ≡ some p
    → ((j : ℕ) → fd_table_of (k'.table j) ≡ fd_table_of ((put_fd i fd o p k).table j))
    → IsWired held k'
    → Rewired held i fd o k k'
rewired held i fd o p k k' e same w = record {
  wired = w;
  here = ap (λ m. look m fd) (same i) ∙ ground arith;
  others = λ j d ne. ap (λ m. look m d) (same j) ∙ ground (arith, ne, e);
  manned = λ j q at.
      let (q', at') = put_manned i fd o p j q k at in
      slot_case ((put_fd i fd o p k).table j) (k'.table j) q' (same j) at';
}

modify_fd :
    (i fd : ℕ) (o : Option ℕ) (p : Process) (k : Kernel)
    → k.table i ≡ some p
    → modify i (set_fd fd o) k ≡ put_fd i fd o p k
modify_fd i fd o p k e = ground arith

-- The counts after one reference to `f` less in the tables.
less_one :
    (held : ℕ → ℕ) (t t' : ℕ → ℕ) (f n g : ℕ)
    → n ≡ t' f + held f
    → t' g + at_target g (some f) ≡ t g
    → update (λ h. t h + held h) f n g ≡ t' g + held g
less_one held t t' f n g e s = ground arith

more_one :
    (held : ℕ → ℕ) (t t' : ℕ → ℕ) (f g : ℕ)
    → t' g ≡ t g + at_target g (some f)
    → update (λ h. t h + held h) f (suc (t f + held f)) g ≡ t' g + held g
more_one held t t' f g s = ground arith

at_itself : (p : ℕ) → at_target p (some p) ≡ 1
at_itself p = ground arith

close_open :
    (held : ℕ → ℕ) (i fd f : ℕ) (p : Process) (k : Kernel)
    → IsWired held k
    → i < max_processes
    → fd < max_fds
    → k.table i ≡ some p
    → p.fd_table fd ≡ some f
    → (k' : Kernel) × (remove_file_ref (some f) (put_fd i fd none p k) ≡ some (tt, k'))
      × Rewired held i fd none k k'
close_open held i fd f p k w l m e at =
    let k1 = put_fd i fd none p k in
    let n = table_refs k1.table f + held f in
    let cut : (g : ℕ) → table_refs k1.table g + at_target g (some f) ≡ table_refs k.table g = λ g.
      let s = table_refs_set k.table g i fd none p l m e in
      let a : at_target g (p.fd_table fd) ≡ at_target g (some f) = ap (at_target g) at in
      omega (arith, s, a) in
    let c : table_refs k.table f + held f ≡ suc n = omega (arith, cut f, at_itself f) in
    let (x, there) =
      file_case (table_refs k.table f + held f) n (k.files f) c (w.filed.counted f) in
    let (k2, e2, a, i2) =
      remove_file_ref-IsFiled (λ g. table_refs k.table g + held g) f n x k1
        (put_fd-IsFiled (λ g. table_refs k.table g + held g) i fd none p k e w.filed) there c in
    let after : (g : ℕ)
        → update (λ h. table_refs k.table h + held h) f n g ≡ table_refs k2.table g + held g =
      λ g.
        less_one held (table_refs k.table) (table_refs k1.table) f n g refl (cut g)
        ∙ ap (λ t. t + held g) (sym (table_refs_same k1.table k2.table g a.fds_kept)) in
    (
      k2,
      e2,
      rewired held i fd none p k k2 e a.fds_kept (record {
        filed =
            IsFiled-same (update (λ h. table_refs k.table h + held h) f n)
              (λ g. table_refs k2.table g + held g) k2 after i2;
      }),
    )

-- A file that a descriptor refers to is there.
pub live_fd :
    (held : ℕ → ℕ) (i fd f : ℕ) (p : Process) (k : Kernel)
    → IsWired held k
    → i < max_processes
    → fd < max_fds
    → k.table i ≡ some p
    → p.fd_table fd ≡ some f
    → (x : File) × (k.files f ≡ some x)
live_fd held i fd f p k w l m e at =
    let n = table_refs (put_fd i fd none p k).table f + held f in
    let s = table_refs_set k.table f i fd none p l m e in
    let a : at_target f (p.fd_table fd) ≡ at_target f (some f) = ap (at_target f) at in
    file_case (table_refs k.table f + held f) n (k.files f) (omega (arith, s, a, at_itself f))
      (w.filed.counted f)

pub install_fd-Rewired :
    (held : ℕ → ℕ) (i fd f : ℕ) (x : File) (p : Process) (k : Kernel)
    → IsWired held k
    → i < max_processes
    → fd < max_fds
    → k.table i ≡ some p
    → p.fd_table fd ≡ none
    → k.files f ≡ some x
    → (k' : Kernel) × (install_fd i f fd k ≡ some (some fd, k')) × Rewired held i fd (some f) k k'
unfolding install_fd
install_fd-Rewired held i fd f x p k w l m e closed there =
    let k1 = put_fd i fd (some f) p k in
    let grown : (g : ℕ) → table_refs k1.table g ≡ table_refs k.table g + at_target g (some f) = λ g.
      let s = table_refs_set k.table g i fd (some f) p l m e in
      let a : at_target g (p.fd_table fd) ≡ 0 = ap (at_target g) closed in omega (arith, s, a) in
    let (k2, e2, a, i2) =
      add_file_ref-IsFiled (λ g. table_refs k.table g + held g) f x k1
        (put_fd-IsFiled (λ g. table_refs k.table g + held g) i fd (some f) p k e w.filed) there in
    let n = suc (table_refs k.table f + held f) in
    let after : (g : ℕ)
        → update (λ h. table_refs k.table h + held h) f n g ≡ table_refs k2.table g + held g =
      λ g.
        more_one held (table_refs k.table) (table_refs k1.table) f g (grown g)
        ∙ ap (λ t. t + held g) (sym (table_refs_same k1.table k2.table g a.fds_kept)) in
    (
      k2,
      ground (arith, modify_fd i fd (some f) p k e, e2),
      rewired held i fd (some f) p k k2 e a.fds_kept (record {
        filed =
            IsFiled-same (update (λ h. table_refs k.table h + held h) f n)
              (λ g. table_refs k2.table g + held g) k2 after i2;
      }),
    )

pub get_fd-of :
    (i fd : ℕ) (p : Process) (k : Kernel)
    → fd < max_fds
    → k.table i ≡ some p
    → get_fd i fd k ≡ p.fd_table fd
get_fd-of i fd p k m e = ground (arith, m, e)

-- closeFd on a descriptor that is open: it returns 0, the descriptor is closed, and nothing is left
-- that refers to what was freed.
pub close_fd-done :
    (held : ℕ → ℕ) (i fd f : ℕ) (p : Process) (k : Kernel)
    → IsWired held k
    → i < max_processes
    → fd < max_fds
    → k.table i ≡ some p
    → p.fd_table fd ≡ some f
    → (k' : Kernel) × (close_fd i fd k ≡ some (done, k')) × Rewired held i fd none k k'
unfolding close_fd
close_fd-done held i fd f p k w l m e at =
    let (k', r, out) = close_open held i fd f p k w l m e at in
    let g = get_fd-of i fd p k m e ∙ at in
    (k', ground (arith, g, modify_fd i fd none p k e, r), out)
