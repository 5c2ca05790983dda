-- ===== src/Shell/Settled.antt =====
-- What runLine does with the descriptors it opens and the processes it starts.
use tp2_so_g.Base.{
  ℕ, ◌+◌, ◌≡◌, refl, Bool, true, false, Option, none, some, List, [], ◌∷◌, ◌++◌, arith, ◌==◌,
  if◌then◌else◌,
}
use tp2_so_g.Spawn.{FdOverride}
use tp2_so_g.Shell.{tokenize, max_tokens}
use tp2_so_g.Shell.Launch.{
  Call, reopened, piped, spawned, waited, closed, after_single, after_second, run_command,
  run_tokens, stdin_override, stdout_override, close_each, run_stage, close_stdin,
}

abbrev pub one_if : Bool → ℕ
one_if b = if b then 1 else 0

-- How often a call opens the descriptor `n`, closes it, starts the process `n`, and waits for it.
abbrev pub opens : ℕ → Call → ℕ
opens n (reopened (some fd)) = one_if (fd == n)
opens n (piped (some fds)) = one_if (fds.0 == n) + one_if (fds.1 == n)
opens n _ = 0

abbrev pub closes : ℕ → Call → ℕ
closes n (closed fd) = one_if (fd == n)
closes n _ = 0

abbrev pub starts : ℕ → Call → ℕ
starts n (spawned _ _ _ (some pid)) = one_if (pid == n)
starts n _ = 0

abbrev pub waits : ℕ → Call → ℕ
waits n (waited pid) = one_if (pid == n)
waits n _ = 0

abbrev pub total : (Call → ℕ) → List Call → ℕ
total f [] = 0
total f (call ∷ calls) = f call + total f calls

total-append : (f : Call → ℕ) (xs ys : List Call) → total f (xs ++ ys) ≡ total f xs + total f ys
total-append f [] ys = omega arith
total-append f (call ∷ xs) ys = omega (arith, total-append f xs ys)

abbrev pub one_of : ℕ → Option ℕ → ℕ
one_of n none = 0
one_of n (some x) = one_if (x == n)

-- Calls that close what they open and `owed` more, and that wait, in the foreground, for what they start
-- and `children` more.
pub record Settles (background : Bool) (n owed children : ℕ) (calls : List Call) : Type 0 where
  pub descriptors : total (closes n) calls ≡ total (opens n) calls + owed
  pub processes :
      total (waits n) calls ≡ (if background then 0 else total (starts n) calls + children)

-- A stage opens and closes nothing, and starts the process that it returns.
pub record Stage (n : ℕ) (pid : Option ℕ) (calls : List Call) : Type 0 where
  pub no_open : total (opens n) calls ≡ 0
  pub no_close : total (closes n) calls ≡ 0
  pub one_start : total (starts n) calls ≡ one_of n pid
  pub no_wait : total (waits n) calls ≡ 0

run_command-Stage :
    (n : ℕ) (index : Option ℕ) (tokens : List (List ℕ)) (fds : List FdOverride) (background : Bool)
    (answer : Option ℕ)
    → Stage n
        (run_command index tokens fds background answer).0
        (run_command index tokens fds background answer).1
unfolding run_command
run_command-Stage n none tokens fds background answer = record {
  no_open = refl;
  no_close = refl;
  one_start = refl;
  no_wait = refl;
}
run_command-Stage n (some i) tokens fds background none = record {
  no_open = refl;
  no_close = refl;
  one_start = refl;
  no_wait = refl;
}
run_command-Stage n (some i) tokens fds true (some pid) = record {
  no_open = refl;
  no_close = refl;
  one_start = omega arith;
  no_wait = refl;
}
run_command-Stage n (some i) tokens fds false (some pid) = record {
  no_open = refl;
  no_close = refl;
  one_start = omega arith;
  no_wait = refl;
}

run_tokens-Stage :
    (n : ℕ) (index : List ℕ → Option ℕ) (tokens : List (List ℕ)) (fds : List FdOverride)
    (background : Bool) (answer : Option ℕ)
    → Stage n
        (run_tokens index tokens fds background answer).0
        (run_tokens index tokens fds background answer).1
unfolding run_tokens
run_tokens-Stage n index [] fds background answer = record {
  no_open = refl;
  no_close = refl;
  one_start = refl;
  no_wait = refl;
}
run_tokens-Stage n index (name ∷ args) fds background answer =
    run_command-Stage n (index name) (name ∷ args) fds background answer

pub Stage-Settles :
    (background : Bool) (n owed children : ℕ) (pid : Option ℕ) (calls rest : List Call)
    → Stage n pid calls
    → Settles background n owed (one_of n pid + children) rest
    → Settles background n owed children (calls ++ rest)
Stage-Settles true n owed children pid calls rest s g = record {
  descriptors = omega (
    arith,
    total-append (closes n) calls rest,
    total-append (opens n) calls rest,
    s.no_open,
    s.no_close,
    g.descriptors,
  );
  processes = omega (arith, total-append (waits n) calls rest, s.no_wait, g.processes);
}
Stage-Settles false n owed children pid calls rest s g = record {
  descriptors = omega (
    arith,
    total-append (closes n) calls rest,
    total-append (opens n) calls rest,
    s.no_open,
    s.no_close,
    g.descriptors,
  );
  processes = omega (
    arith,
    total-append (waits n) calls rest,
    total-append (starts n) calls rest,
    s.no_wait,
    s.one_start,
    g.processes,
  );
}

pub close_stdin-Settles :
    (background : Bool) (n : ℕ) (fd : Option ℕ)
    → Settles background n (one_of n fd) 0 (close_stdin fd)
close_stdin-Settles true n none = record { descriptors = refl; processes = refl }
close_stdin-Settles false n none = record { descriptors = refl; processes = refl }
close_stdin-Settles true n (some fd) = record { descriptors = omega arith; processes = refl }
close_stdin-Settles false n (some fd) = record { descriptors = omega arith; processes = refl }

pub after_single-Settles :
    (background : Bool) (n : ℕ) (pid fd : Option ℕ)
    → Settles background n
        (one_of n fd)
        (one_of n pid + 0)
        (after_single background pid ++ close_stdin fd)
after_single-Settles b n none fd = close_stdin-Settles b n fd
after_single-Settles true n (some pid) fd =
    let g = close_stdin-Settles true n fd in
    record { descriptors = g.descriptors; processes = g.processes }
after_single-Settles false n (some pid) fd =
    let g = close_stdin-Settles false n fd in
    record { descriptors = omega (arith, g.descriptors); processes = omega (arith, g.processes) }

pub after_second-Settles :
    (background : Bool) (n read_end write_end pid1 : ℕ) (pid fd : Option ℕ)
    → Settles background n
        (one_if (read_end == n) + one_if (write_end == n) + one_of n fd)
        (one_of n pid + one_if (pid1 == n))
        (closed read_end ∷ closed write_end ∷ (after_second background pid1 pid ++ close_stdin fd))
after_second-Settles true n r w pid1 none fd =
    let g = close_stdin-Settles true n fd in
    record { descriptors = omega (arith, g.descriptors); processes = omega (arith, g.processes) }
after_second-Settles false n r w pid1 none fd =
    let g = close_stdin-Settles false n fd in
    record { descriptors = omega (arith, g.descriptors); processes = omega (arith, g.processes) }
after_second-Settles true n r w pid1 (some pid) fd =
    let g = close_stdin-Settles true n fd in
    record { descriptors = omega (arith, g.descriptors); processes = omega (arith, g.processes) }
after_second-Settles false n r w pid1 (some pid) fd =
    let g = close_stdin-Settles false n fd in
    record { descriptors = omega (arith, g.descriptors); processes = omega (arith, g.processes) }

pub run_stage-Stage :
    (n : ℕ) (index : List ℕ → Option ℕ) (answer : Option ℕ) (stage : List ℕ) (stdin_fd : Option ℕ)
    (stdout_fd : ℕ) (background : Bool) (fds : List ℕ)
    → Stage n
        (run_stage index answer stage stdin_fd stdout_fd background fds).0
        (run_stage index answer stage stdin_fd stdout_fd background fds).1
unfolding run_stage
run_stage-Stage n index answer stage stdin_fd stdout_fd background fds =
    run_tokens-Stage n index (tokenize max_tokens stage)
      (stdin_override stdin_fd ++ (stdout_override stdout_fd ++ close_each fds)) background answer
