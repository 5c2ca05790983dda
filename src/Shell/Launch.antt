-- ===== src/Shell/Launch.antt =====
-- runStage and runLine of shell.c: the system calls that a line makes. What the calls answer, and the
-- table of commands, are parameters.
use tp2_so_g.Base.{ℕ, Bool, Option, none, some, List, [], ◌∷◌, ◌++◌, ◌==◌, if◌then◌else◌}
use tp2_so_g.Spawn.{FdOverride}
use tp2_so_g.Shell.{tokenize, split_pipeline, has_background, max_tokens, max_pipeline}

abbrev pub stdin : ℕ
stdin = 0

abbrev pub stdout : ℕ
stdout = 1

-- The calls, with the answers of those that open a descriptor or start a process; `none` is below 0.
pub data Call : Type 0 where
  reopened : Option ℕ → Call
  piped : Option (ℕ × ℕ) → Call
  spawned : ℕ → List (List ℕ) → List FdOverride → Option ℕ → Call
  put_in_front : ℕ → Call
  waited : ℕ → Call
  closed : ℕ → Call
  killed : ℕ → Call
  complained : Call
  new_line : Call

-- What getCommandIndex finds, and what the calls answer.
pub record Answers : Type 0 where
  pub command_index : List ℕ → Option ℕ
  pub reopen : Option ℕ
  pub pipe_fds : Option (ℕ × ℕ)
  pub first_pid : Option ℕ
  pub second_pid : Option ℕ

-- The target -1 closes the descriptor.
abbrev pub redirect : ℕ → Option ℕ → FdOverride
redirect fd target = record { affected_fd = fd; target_fd = target }

abbrev pub close_each : List ℕ → List FdOverride
close_each [] = []
close_each (fd ∷ fds) = redirect fd none ∷ close_each fds

abbrev pub stdin_override : Option ℕ → List FdOverride
stdin_override none = redirect stdin none ∷ []
stdin_override (some fd) = if fd == stdin then [] else redirect stdin (some fd) ∷ []

abbrev pub stdout_override : ℕ → List FdOverride
stdout_override fd = if fd == stdout then [] else redirect stdout (some fd) ∷ []

-- A command that getCommandIndex finds or not, with its tokens. The result is the pid, or none, and the
-- calls.
unfoldable pub run_command :
    Option ℕ → List (List ℕ) → List FdOverride → Bool → Option ℕ → Option ℕ × List Call
run_command none tokens fds background answer = (none, complained ∷ [])
run_command (some i) tokens fds background none =
    (none, spawned i tokens fds none ∷ complained ∷ [])
run_command (some i) tokens fds background (some pid) =
    (some pid, spawned i tokens fds (some pid) ∷ (if background then [] else put_in_front pid ∷ []))

unfoldable pub run_tokens :
    (List ℕ → Option ℕ) → List (List ℕ) → List FdOverride → Bool → Option ℕ → Option ℕ × List Call
unfolding run_command
run_tokens index [] fds background answer = (none, [])
run_tokens index (name ∷ args) fds background answer =
    run_command (index name) (name ∷ args) fds background answer

-- The stdin of a stage is `none` for -1.
unfoldable pub run_stage :
    (List ℕ → Option ℕ) → Option ℕ → List ℕ → Option ℕ → ℕ → Bool → List ℕ → Option ℕ × List Call
unfolding tokenize run_tokens
run_stage index answer stage stdin_fd stdout_fd background close_fds =
    run_tokens index (tokenize max_tokens stage)
      (stdin_override stdin_fd ++ (stdout_override stdout_fd ++ close_each close_fds)) background
      answer

-- `if (childStdin >= 0) sys_close(childStdin)`
abbrev pub close_stdin : Option ℕ → List Call
close_stdin none = []
close_stdin (some fd) = closed fd ∷ []

abbrev pub first_stdin : Option ℕ → Bool → Option ℕ
first_stdin child_stdin background =
    if background then none else elim child_stdin [ none ↦ some stdin | some fd ↦ some fd ]

abbrev pub fds_of_stdin : Option ℕ → List ℕ
fds_of_stdin none = []
fds_of_stdin (some fd) = fd ∷ []

abbrev pub after_single : Bool → Option ℕ → List Call
after_single background none = []
after_single background (some pid) = if background then [] else waited pid ∷ new_line ∷ []

-- A line of one stage.
unfoldable pub run_single : Answers → Bool → List ℕ → List Call
unfolding run_stage
run_single a background stage =
    let (pid, calls) =
      run_stage a.command_index a.first_pid stage (first_stdin a.reopen background) stdout
        background (fds_of_stdin a.reopen) in
    calls ++ (after_single background pid ++ close_stdin a.reopen)

abbrev pub wait_for : Bool → ℕ → List Call
wait_for background pid = if background then [] else waited pid ∷ []

abbrev pub after_second : Bool → ℕ → Option ℕ → List Call
after_second background pid1 none = killed pid1 ∷ wait_for background pid1
after_second background pid1 (some pid2) =
    if background then [] else waited pid1 ∷ waited pid2 ∷ new_line ∷ []

-- The second stage, and the end of a line of two stages.
unfoldable pub run_second : Answers → Bool → List ℕ → ℕ → ℕ → ℕ → List Call
unfolding run_stage
run_second a background stage read_end write_end pid1 =
    let (pid, calls) =
      run_stage a.command_index a.second_pid stage (some read_end) stdout background
        (write_end ∷ fds_of_stdin a.reopen) in
    calls
    ++ (closed read_end
        ∷ closed write_end
        ∷ (after_second background pid1 pid ++ close_stdin a.reopen))

-- The stdin of the shell that the first stage need not close for itself.
abbrev pub not_first : Option ℕ → Bool → List ℕ
not_first child_stdin background = if background then fds_of_stdin child_stdin else []

unfoldable pub after_first : Answers → Bool → List ℕ → ℕ → ℕ → Option ℕ → List Call
unfolding run_second
after_first a background stage2 read_end write_end none =
    closed read_end ∷ closed write_end ∷ close_stdin a.reopen
after_first a background stage2 read_end write_end (some pid1) =
    run_second a background stage2 read_end write_end pid1

unfoldable pub run_double : Answers → Bool → List ℕ → List ℕ → ℕ → ℕ → List Call
unfolding run_stage after_first
run_double a background stage1 stage2 read_end write_end =
    let (pid, calls) =
      run_stage a.command_index a.first_pid stage1 (first_stdin a.reopen background) write_end
        background (read_end ∷ not_first a.reopen background) in
    calls ++ after_first a background stage2 read_end write_end pid

unfoldable pub run_piped : Answers → Bool → List ℕ → List ℕ → Option (ℕ × ℕ) → List Call
unfolding run_double
run_piped a background stage1 stage2 none = complained ∷ close_stdin a.reopen
run_piped a background stage1 stage2 (some fds) = run_double a background stage1 stage2 fds.0 fds.1

unfoldable pub run_stages : Answers → Bool → List (List ℕ) → List Call
unfolding run_single run_piped
run_stages a background [] = []
run_stages a background (stage ∷ []) = reopened a.reopen ∷ run_single a background stage
run_stages a background (stage1 ∷ stage2 ∷ more) =
    reopened a.reopen ∷ piped a.pipe_fds ∷ run_piped a background stage1 stage2 a.pipe_fds

-- `none` where splitPipeline answers -1.
unfoldable pub run_split : Answers → Bool → Option (List (List ℕ)) → List Call
unfolding run_stages
run_split a background none = complained ∷ []
run_split a background (some stages) = run_stages a background stages

unfoldable pub run_line : Answers → List ℕ → List Call
unfolding has_background split_pipeline run_split
run_line a line =
    let (background, rest) = has_background line in
    run_split a background (split_pipeline max_pipeline rest)
