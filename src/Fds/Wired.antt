-- ===== src/Fds/Wired.antt =====
-- The reference counts over the descriptor tables of all processes: what IsWired says of the kernel.
use tp2_so_g.Base.{
  ℕ, ◌+◌, ◌≡◌, ◌<◌, ap, subst, Option, none, some, arith, update, update_self, update_ne, sum_below,
  sum_below-except, sum_below-same,
}
use tp2_so_g.Kernel.{Kernel, Process, max_processes}
use tp2_so_g.Kernel.Facts.{InOrder}
use tp2_so_g.Pipe.Wake.{fd_table_of}
use tp2_so_g.File.Holders.{at_target}
use tp2_so_g.File.Counts.{IsFiled, FileFits}
use tp2_so_g.Fds.{max_fds, set_fd}

abbrev pub look : Option (ℕ → Option ℕ) → ℕ → Option ℕ
look none fd = none
look (some t) fd = t fd

abbrev pub fds_of : Option Process → ℕ → Option ℕ
fds_of o fd = look (fd_table_of o) fd

-- How many descriptors of a process, and of all processes, refer to the file `f`.
abbrev pub process_refs : ℕ → Option Process → ℕ
process_refs f o = sum_below (λ fd. at_target f (fds_of o fd)) max_fds

abbrev pub table_refs : (ℕ → Option Process) → ℕ → ℕ
table_refs table f = sum_below (λ i. process_refs f (table i)) max_processes

-- Every file is counted by the descriptors that refer to it and by `held f` other holders, every
-- pipe by the files that refer to it; nothing that is gone is referred to.
pub record IsWired (held : ℕ → ℕ) (k : Kernel) : Type 0 where
  pub filed : IsFiled (λ f. table_refs k.table f + held f) k

pub IsFiled-same :
    (held held' : ℕ → ℕ) (k : Kernel)
    → ((f : ℕ) → held f ≡ held' f)
    → IsFiled held k
    → IsFiled held' k
IsFiled-same held held' k same i = record {
  piped = i.piped;
  counted = λ f. subst (λ n. FileFits n (k.files f)) (same f) (i.counted f);
  filed = i.filed;
}

pub process_refs_set :
    (f i fd : ℕ) (o : Option ℕ) (p : Process)
    → fd < max_fds
    → process_refs f (some (set_fd fd o p)) + at_target f (p.fd_table fd)
      ≡ process_refs f (some p) + at_target f o
process_refs_set f i fd o p l =
    let s =
      sum_below-except (λ d. at_target f (update p.fd_table fd o d))
        (λ d. at_target f (p.fd_table d)) fd max_fds
        (λ d ne. ap (at_target f) (update_ne p.fd_table fd d o ne)) l in
    let here : at_target f (update p.fd_table fd o fd) ≡ at_target f o =
      ap (at_target f) (update_self p.fd_table fd o) in
    omega (arith, s, here)

-- Setting one descriptor of one process.
pub table_refs_set :
    (table : ℕ → Option Process) (f i fd : ℕ) (o : Option ℕ) (p : Process)
    → i < max_processes
    → fd < max_fds
    → table i ≡ some p
    → table_refs (update table i (some (set_fd fd o p))) f + at_target f (p.fd_table fd)
      ≡ table_refs table f + at_target f o
table_refs_set table f i fd o p l m e =
    let q = some (set_fd fd o p) in
    let s =
      sum_below-except (λ j. process_refs f (update table i q j)) (λ j. process_refs f (table j)) i
        max_processes (λ j ne. ap (process_refs f) (update_ne table i j q ne)) l in
    let here : process_refs f (update table i q i) ≡ process_refs f q =
      ap (process_refs f) (update_self table i q) in
    let before : process_refs f (table i) ≡ process_refs f (some p) = ap (process_refs f) e in
    omega (arith, s, here, before, process_refs_set f i fd o p m)

pub table_refs_same :
    (t t' : ℕ → Option Process) (f : ℕ)
    → ((i : ℕ) → fd_table_of (t' i) ≡ fd_table_of (t i))
    → table_refs t' f ≡ table_refs t f
table_refs_same t t' f same =
    sum_below-same (λ i. process_refs f (t' i)) (λ i. process_refs f (t i)) max_processes
      λ i l.
        sum_below-same (λ d. at_target f (fds_of (t' i) d)) (λ d. at_target f (fds_of (t i) d))
          max_fds λ d m. ap (λ m. at_target f (look m d)) (same i)

-- Writing a descriptor changes nothing that the scheduler and the counts look at.
abbrev pub put_fd : ℕ → ℕ → Option ℕ → Process → Kernel → Kernel
put_fd i fd o p k = record k { table = update k.table i (some (set_fd fd o p)) }

pub put_fd-InOrder :
    (i fd : ℕ) (o : Option ℕ) (p : Process) (k : Kernel)
    → k.table i ≡ some p
    → InOrder k
    → InOrder (put_fd i fd o p k)
put_fd-InOrder i fd o p k e order = record {
  sound = record {
    exact = λ j. ground (arith, order.sound.exact j);
    owned = λ j. ground (arith, order.sound.owned j);
    inside = λ j l. ground (arith, order.sound.inside j);
    alone = λ j. ground (arith, order.sound.alone j);
    idle_up = ground (arith, order.sound.idle_up);
  };
  memory = order.memory;
  at_rest = order.at_rest;
}

pub put_fd-IsFiled :
    (held : ℕ → ℕ) (i fd : ℕ) (o : Option ℕ) (p : Process) (k : Kernel)
    → k.table i ≡ some p
    → IsFiled held k
    → IsFiled held (put_fd i fd o p k)
put_fd-IsFiled held i fd o p k e w = record {
  piped = record {
    order = put_fd-InOrder i fd o p k e w.piped.order;
    owner = w.piped.owner;
    role = w.piped.role;
    fits = w.piped.fits;
  };
  counted = w.counted;
  filed = w.filed;
}
