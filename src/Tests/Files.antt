-- ===== src/Tests/Files.antt =====
-- The demo system with a pipe: process 2 reads and writes it through descriptor 0, and process 3 waits
-- for its data.
use tp2_so_g.Base.{
  true, ℕ, ◌≡◌, refl, ap, false, none, some, [], ◌∷◌, arith, update, sum_below-none, if◌then◌else◌,
  ◌==◌,
}
use tp2_so_g.Base.Int.{pos, negsuc}
use tp2_so_g.Base.{◌<◌, ◌⊎◌}
use tp2_so_g.Kernel.{no_pid, Kernel, Process, Pipe, File, running, ready, max_processes}
use tp2_so_g.Kernel.Facts.{InOrder}
use tp2_so_g.Pipe.Counts.{IsPiped}
use tp2_so_g.File.Holders.{at_target, points_to, writes_to, pipe_refs, pipe_writers}
use tp2_so_g.File.Counts.{sum_without}
use tp2_so_g.Pipe.{remove_pipe_writer}
use tp2_so_g.Pipe.Wake.{waiting, queue_of}
use tp2_so_g.Semaphore.Rouse.{is_in, is_pending}
use tp2_so_g.Base.{not, ◌||◌}
use tp2_so_g.Pipe.Eof.{remove_pipe_writer-wakes}
use tp2_so_g.Fds.{max_fds, set_fd, dup_fd, close_all_fds, copy_fd_table}
use tp2_so_g.Fds.Wired.{table_refs, process_refs, table_refs_set, fds_of, IsWired}
use tp2_so_g.Fds.Calls.{Rewired}
use tp2_so_g.Fds.Dup.{dup_fd-Rewired}
use tp2_so_g.Fds.Tables.{Reset, close_all_fds-Reset, copy_fd_table-Reset}
use tp2_so_g.Table.{is_used}
use tp2_so_g.Spawn.{Start, start_new_process}
use tp2_so_g.Spawn.Started.{Started, start_new_process-Started}
use tp2_so_g.Tests.Demo.{process, demo}

abbrev channel : Pipe
channel = record {
  buffer = record { contents = []; max_size = 1024; read_idx = 0; write_idx = 0; count = 0 };
  data_available = 10;
  free_spaces = 11;
  read_mutex = 12;
  write_mutex = 13;
  ref_count = pos 1;
  writer_count = pos 1;
}

abbrev both_ways : File
both_ways = record { pipe = some 14; flags = 3; ref_count = pos 1 }

abbrev user : Process
user = process 2 running 1

abbrev plumbed : Kernel
plumbed = record demo {
  table = update demo.table 2 (some (set_fd 0 (some 15) user));
  sems =
      update
        (update
          (update
            (update (λ a. none) 10
              (some (record { value = negsuc 0; blocked_queue = 3 ∷ []; lock = false })))
            11 (some (record { value = pos 1024; blocked_queue = []; lock = false })))
          12 (some (record { value = pos 1; blocked_queue = []; lock = false })))
        13 (some (record { value = pos 1; blocked_queue = []; lock = false }));
  pipes = update (λ a. none) 14 (some channel);
  files = update (λ a. none) 15 (some both_ways);
}

plumbed-InOrder : InOrder plumbed
plumbed-InOrder = record {
  sound = record {
    exact = λ i. ground arith;
    owned = λ i. ground arith;
    inside = λ i h. ground arith;
    alone = λ i. ground arith;
    idle_up = ground arith;
  };
  memory = λ n h. refl;
  at_rest = λ a. ground arith;
}

no_fds : (i d : ℕ) → fds_of (demo.table i) d ≡ none
no_fds i d = ground arith

held_in_tables : (f : ℕ) → table_refs plumbed.table f ≡ at_target f (some 15)
held_in_tables f =
    let s = table_refs_set demo.table f 2 0 (some 15) user (omega arith) (omega arith) refl in
    let z : table_refs demo.table f ≡ 0 =
      sum_below-none (λ i. process_refs f (demo.table i)) max_processes
        λ i.
          sum_below-none (λ d. at_target f (fds_of (demo.table i) d)) max_fds
            λ d. ap (at_target f) (no_fds i d) in
    omega (arith, s, z)

piped_refs : (p : ℕ) → pipe_refs plumbed p ≡ at_target p (some 14)
piped_refs p =
    let s = sum_without (points_to p) plumbed.files 15 20 both_ways refl refl (omega arith) in
    let z =
      sum_below-none (λ f. points_to p (update plumbed.files 15 none f)) 20 λ f. ground arith in
    omega (arith, s, z)

piped_writers : (p : ℕ) → pipe_writers plumbed p ≡ at_target p (some 14)
piped_writers p =
    let s = sum_without (writes_to p) plumbed.files 15 20 both_ways refl refl (omega arith) in
    let z =
      sum_below-none (λ f. writes_to p (update plumbed.files 15 none f)) 20 λ f. ground arith in
    omega (arith, s, z)

plumbed-IsWired : IsWired (λ f. 0) plumbed
plumbed-IsWired = record {
  filed = record {
    piped = record {
      order = plumbed-InOrder;
      owner = λ a. 14;
      role = λ a. if a == 10 then 0 else (if a == 11 then 1 else (if a == 12 then 2 else 3));
      fits = λ p. ground (arith, piped_refs p, piped_writers p);
    };
    counted = λ f. ground (arith, held_in_tables f);
    filed = λ f l. ground arith;
  };
}

dup_fd-Rewired_example :
    (k' : Kernel) × (dup_fd 2 0 5 plumbed ≡ some (some 5, k'))
    × Rewired (λ f. 0) 2 5 (some 15) plumbed k'
dup_fd-Rewired_example =
    dup_fd-Rewired (λ f. 0) 2 0 5 (set_fd 0 (some 15) user) plumbed plumbed-IsWired (omega arith)
      (omega arith) refl (λ e. omega arith)

close_all_fds-Reset_example :
    (k' : Kernel) × (close_all_fds 2 plumbed ≡ some (tt, k'))
    × Reset (λ f. 0) 2 0 max_fds (λ d. none) plumbed k'
close_all_fds-Reset_example =
    close_all_fds-Reset (λ f. 0) 2 (set_fd 0 (some 15) user) plumbed plumbed-IsWired (omega arith)
      refl

copy_fd_table-Reset_example :
    (k' : Kernel) × (copy_fd_table 4 2 plumbed ≡ some (tt, k'))
    × Reset (λ f. 0) 4 0 max_fds (fds_of (plumbed.table 2)) plumbed k'
copy_fd_table-Reset_example =
    copy_fd_table-Reset (λ f. 0) 4 2 (process 4 ready 2) (set_fd 0 (some 15) user) plumbed
      plumbed-IsWired (omega arith, omega arith) (λ e. omega arith) refl refl

remove_pipe_writer-wakes_example :
    (k' : Kernel) × (remove_pipe_writer (some 14) plumbed ≡ some (tt, k'))
    × IsPiped (pipe_refs plumbed) (update (pipe_writers plumbed) 14 0) k'
    × (waiting (k'.sems 10) ≡ 0)
    × ((j : ℕ)
        → (not (is_pending j (queue_of (plumbed.sems 10)) plumbed) || is_in ready (k'.table j))
          ≡ true)
remove_pipe_writer-wakes_example =
    remove_pipe_writer-wakes (pipe_refs plumbed) (pipe_writers plumbed) 14 channel plumbed
      plumbed-IsWired.filed.piped refl (piped_writers 14) (omega arith)

-- Process 2 starts `sh` with one argument.
abbrev shell : Start
shell = record {
  entry_point = 0x400000;
  start_name = some (b's' ∷ b'h' ∷ []);
  start_priority = 1;
  start_argc = pos 1;
  start_argv = some (some (b'x' ∷ []) ∷ []);
}

start_new_process-Started_example :
    ((start_new_process shell plumbed ≡ some (no_pid, plumbed))
      × ((j : ℕ) → j < max_processes → is_used j plumbed ≡ true))
    ⊎ ((pid : ℕ) × (child : Process) × (k' : Kernel) × (start_new_process shell plumbed
          ≡ some (pid, k'))
        × Started (λ f. 0) 2 (set_fd 0 (some 15) user) [] plumbed k' pid child)
start_new_process-Started_example =
    start_new_process-Started shell (λ f. 0) 2 (set_fd 0 (some 15) user) [] plumbed plumbed-IsWired
      (record { current_is = refl; found = refl; not_idle = λ e. omega arith; children_are = refl })
