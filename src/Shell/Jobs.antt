-- ===== src/Shell/Jobs.antt =====
-- A whole line of the shell: what runLine opens it closes, and what it starts it waits for.
use tp2_so_g.Base.{
  ℕ, ◌+◌, ◌≡◌, refl, Bool, true, false, Option, none, some, List, [], ◌∷◌, ◌++◌, arith, ◌==◌,
}
use tp2_so_g.Shell.{has_background, split_pipeline, max_pipeline}
use tp2_so_g.Shell.Launch.{
  Call, reopened, piped, closed, complained, Answers, after_single, after_second, after_first,
  run_piped, run_split, run_stage, run_single, run_second, run_double, run_stages, run_line,
  first_stdin, close_stdin, fds_of_stdin, not_first, stdout,
}
use tp2_so_g.Shell.Settled.{
  Settles, one_if, one_of, opens, closes, starts, waits, run_stage-Stage, Stage-Settles,
  close_stdin-Settles, after_single-Settles, after_second-Settles,
}

run_single-Settles :
    (a : Answers) (background : Bool) (stage : List ℕ) (n : ℕ)
    → Settles background n (one_of n a.reopen) 0 (run_single a background stage)
unfolding run_single
run_single-Settles a b stage n =
    let fds = fds_of_stdin a.reopen in
    let from = first_stdin a.reopen b in
    let r = run_stage a.command_index a.first_pid stage from stdout b fds in
    Stage-Settles b n (one_of n a.reopen) 0 r.0 r.1 (after_single b r.0 ++ close_stdin a.reopen)
      (run_stage-Stage n a.command_index a.first_pid stage from stdout b fds)
      (after_single-Settles b n r.0 a.reopen)

run_second-Settles :
    (a : Answers) (background : Bool) (stage : List ℕ) (read_end write_end pid1 n : ℕ)
    → Settles background n
        (one_if (read_end == n) + one_if (write_end == n) + one_of n a.reopen)
        (one_if (pid1 == n))
        (run_second a background stage read_end write_end pid1)
unfolding run_second
run_second-Settles a b stage read_end write_end pid1 n =
    let fds = write_end ∷ fds_of_stdin a.reopen in
    let r = run_stage a.command_index a.second_pid stage (some read_end) stdout b fds in
    Stage-Settles b n (one_if (read_end == n) + one_if (write_end == n) + one_of n a.reopen)
      (one_if (pid1 == n)) r.0 r.1
      (closed read_end ∷ closed write_end ∷ (after_second b pid1 r.0 ++ close_stdin a.reopen))
      (run_stage-Stage n a.command_index a.second_pid stage (some read_end) stdout b fds)
      (after_second-Settles b n read_end write_end pid1 r.0 a.reopen)

after_first-Settles :
    (a : Answers) (background : Bool) (stage : List ℕ) (read_end write_end : ℕ) (pid : Option ℕ)
    (n : ℕ)
    → Settles background n
        (one_if (read_end == n) + one_if (write_end == n) + one_of n a.reopen)
        (one_of n pid + 0)
        (after_first a background stage read_end write_end pid)
unfolding after_first
after_first-Settles a true stage read_end write_end none n =
    let g = close_stdin-Settles true n a.reopen in
    record { descriptors = omega (arith, g.descriptors); processes = omega (arith, g.processes) }
after_first-Settles a false stage read_end write_end none n =
    let g = close_stdin-Settles false n a.reopen in
    record { descriptors = omega (arith, g.descriptors); processes = omega (arith, g.processes) }
after_first-Settles a true stage read_end write_end (some pid1) n =
    let g = run_second-Settles a true stage read_end write_end pid1 n in
    record { descriptors = g.descriptors; processes = g.processes }
after_first-Settles a false stage read_end write_end (some pid1) n =
    let g = run_second-Settles a false stage read_end write_end pid1 n in
    record { descriptors = g.descriptors; processes = omega (arith, g.processes) }

run_double-Settles :
    (a : Answers) (background : Bool) (stage1 stage2 : List ℕ) (read_end write_end n : ℕ)
    → Settles background n
        (one_if (read_end == n) + one_if (write_end == n) + one_of n a.reopen)
        0
        (run_double a background stage1 stage2 read_end write_end)
unfolding run_double
run_double-Settles a b stage1 stage2 read_end write_end n =
    let fds = read_end ∷ not_first a.reopen b in
    let from = first_stdin a.reopen b in
    let r = run_stage a.command_index a.first_pid stage1 from write_end b fds in
    Stage-Settles b n (one_if (read_end == n) + one_if (write_end == n) + one_of n a.reopen) 0 r.0
      r.1 (after_first a b stage2 read_end write_end r.0)
      (run_stage-Stage n a.command_index a.first_pid stage1 from write_end b fds)
      (after_first-Settles a b stage2 read_end write_end r.0 n)

-- A call in front that opens what is owed after it.
opening-Settles :
    (background : Bool) (n owed m : ℕ) (call : Call) (calls : List Call)
    → Settles background n m 0 calls
    → m ≡ opens n call + owed
    → closes n call ≡ 0
    → starts n call ≡ 0
    → waits n call ≡ 0
    → Settles background n owed 0 (call ∷ calls)
opening-Settles true n owed m call calls g o c s w = record {
  descriptors = omega (arith, g.descriptors, o, c);
  processes = omega (arith, g.processes, w);
}
opening-Settles false n owed m call calls g o c s w = record {
  descriptors = omega (arith, g.descriptors, o, c);
  processes = omega (arith, g.processes, s, w);
}

nothing-Settles : (background : Bool) (n : ℕ) → Settles background n 0 0 []
nothing-Settles true n = record { descriptors = refl; processes = refl }
nothing-Settles false n = record { descriptors = refl; processes = refl }

complained-Settles :
    (background : Bool) (n owed : ℕ) (calls : List Call)
    → Settles background n owed 0 calls
    → Settles background n owed 0 (complained ∷ calls)
complained-Settles b n owed calls g =
    opening-Settles b n owed owed complained calls g (omega arith) refl refl refl

reopened-Settles :
    (background : Bool) (n : ℕ) (fd : Option ℕ) (calls : List Call)
    → Settles background n (one_of n fd) 0 calls
    → Settles background n 0 0 (reopened fd ∷ calls)
reopened-Settles b n none calls g =
    opening-Settles b n 0 0 (reopened none) calls g (omega arith) refl refl refl
reopened-Settles b n (some fd) calls g =
    opening-Settles b n 0 (one_if (fd == n)) (reopened (some fd)) calls g (omega arith) refl refl
      refl

run_piped-Settles :
    (a : Answers) (background : Bool) (stage1 stage2 : List ℕ) (fds : Option (ℕ × ℕ)) (n : ℕ)
    → Settles background n
        (one_of n a.reopen)
        0
        (piped fds ∷ run_piped a background stage1 stage2 fds)
unfolding run_piped
run_piped-Settles a b stage1 stage2 none n =
    opening-Settles b n (one_of n a.reopen) (one_of n a.reopen) (piped none)
      (complained ∷ close_stdin a.reopen)
      (complained-Settles b n (one_of n a.reopen) (close_stdin a.reopen)
        (close_stdin-Settles b n a.reopen))
      (omega arith) refl refl refl
run_piped-Settles a b stage1 stage2 (some fds) n =
    opening-Settles b n (one_of n a.reopen)
      (one_if (fds.0 == n) + one_if (fds.1 == n) + one_of n a.reopen) (piped (some fds))
      (run_double a b stage1 stage2 fds.0 fds.1)
      (run_double-Settles a b stage1 stage2 fds.0 fds.1 n) (omega arith) refl refl refl

run_stages-Settles :
    (a : Answers) (background : Bool) (stages : List (List ℕ)) (n : ℕ)
    → Settles background n 0 0 (run_stages a background stages)
unfolding run_stages
run_stages-Settles a b [] n = nothing-Settles b n
run_stages-Settles a b (stage ∷ []) n =
    reopened-Settles b n a.reopen (run_single a b stage) (run_single-Settles a b stage n)
run_stages-Settles a b (stage1 ∷ stage2 ∷ more) n =
    reopened-Settles b n a.reopen (piped a.pipe_fds ∷ run_piped a b stage1 stage2 a.pipe_fds)
      (run_piped-Settles a b stage1 stage2 a.pipe_fds n)

run_split-Settles :
    (a : Answers) (background : Bool) (stages : Option (List (List ℕ))) (n : ℕ)
    → Settles background n 0 0 (run_split a background stages)
unfolding run_split
run_split-Settles a b none n = complained-Settles b n 0 [] (nothing-Settles b n)
run_split-Settles a b (some stages) n = run_stages-Settles a b stages n

-- Whatever the line is and the system calls answer, runLine closes every descriptor that sys_reopen and
-- sys_pipe gave it as often as they gave it; without an ampersand it waits for each process that it
-- starts once for each start, and with one for none.
pub run_line-Settles :
    (a : Answers) (line : List ℕ) (n : ℕ) → Settles (has_background line).0 n 0 0 (run_line a line)
unfolding run_line
run_line-Settles a line n =
    run_split-Settles a (has_background line).0
      (split_pipeline max_pipeline (has_background line).1) n
