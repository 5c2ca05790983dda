-- ===== src/Tests/Scheduling.antt =====
-- The scheduler on the demo system.
use tp2_so_g.Base.{◌==◌, ℕ, ◌+◌, ◌≡◌, refl, true, false, some, [], ◌∷◌, arith, inr, count}
use tp2_so_g.Kernel.{Kernel, ready, running, blocked, done, set_state}
use tp2_so_g.Kernel.Facts.{IsSound}
use tp2_so_g.Ready.{set_ready}
use tp2_so_g.Ready.Sound.{set_ready-lost}
use tp2_so_g.Schedule.{schedule}
use tp2_so_g.Schedule.Rotation.{Rotated, schedule-Rotated}
use tp2_so_g.Schedule.Turns.{schedule-Runs, Runs}
use tp2_so_g.Schedule.Fair.{set_ready-Behaved}
use tp2_so_g.Schedule.Fairness.{IsFair, Bytes, Live, Served, no_starvation, wait_bound}
use tp2_so_g.Table.{find_free_pid, free_from}
use tp2_so_g.Tests.Demo.{process, demo, demo-IsSound}

-- The stack stands at 77 whenever a tick comes.
abbrev frame : Kernel → ℕ
frame k = 77

demo-Bytes : Bytes demo
demo-Bytes i = ground arith

abbrev demo_live : Live demo
demo_live = record {
  runs = record {
    pid = 2;
    process = process 2 running 1;
    current_is = refl;
    found = refl;
    is_running = refl;
    sound = demo-IsSound;
  };
  memory = λ n h. refl;
  on = refl;
  bytes = demo-Bytes;
}

-- Somebody wakes process 3 after every tick.
abbrev wakes_three : ℕ → Kernel → Kernel
wakes_three i k = (set_ready 3 k).1

wakes_three-IsFair : IsFair wakes_three
wakes_three-IsFair i k l = set_ready-Behaved 3 k l

no_starvation_example : Served wakes_three frame demo 4 (wait_bound demo_live (0 ∷ []) + 1)
no_starvation_example =
    no_starvation wakes_three frame 4 demo demo_live (0 ∷ []) [] wakes_three-IsFair refl

schedule-Runs_example :
    (rsp : ℕ) × (after : Kernel) × (schedule 77 demo ≡ some (rsp, after)) × Runs after
schedule-Runs_example =
    schedule-Runs 77 2 (process 2 running 1) demo-IsSound (λ n h. refl) refl refl refl

-- The demo system once process 2 has used its quantum.
abbrev spent : Kernel
spent = record demo {
  table = λ i. elim (i == 2) [ true ↦ some (process 2 running 0) | false ↦ demo.table i ];
}

spent-IsSound : IsSound spent
spent-IsSound = record {
  exact = λ i. ground arith;
  owned = λ i. ground arith;
  inside = λ i h. ground arith;
  alone = λ i. ground arith;
  idle_up = ground arith;
}

schedule-Rotated_example : Rotated 77 2 (process 2 running 0) spent (schedule 77 spent)
schedule-Rotated_example =
    schedule-Rotated 77 2 (process 2 running 0) spent-IsSound (λ n h. refl) refl refl refl
      (inr refl)

-- Idle runs next, though process 4 is ready.
idle_before_others : (k : Kernel) → schedule 77 spent ≡ some (0x8000, k) → k.current ≡ some 0
unfolding schedule
idle_before_others k e = ground arith

-- No memory is left.
abbrev starved : Kernel
starved = record demo { grants = λ n. false }

starved-IsSound : IsSound starved
starved-IsSound = record {
  exact = demo-IsSound.exact;
  owned = demo-IsSound.owned;
  inside = demo-IsSound.inside;
  alone = demo-IsSound.alone;
  idle_up = demo-IsSound.idle_up;
}

set_ready-lost_example :
    let (code, k') = set_ready 3 starved in
    (code ≡ done)
    × (k'.table 3 ≡ some (set_state ready (process 3 blocked 0)))
    × (count 3 k'.ready_queue ≡ 0)
set_ready-lost_example =
    set_ready-lost 3 starved (process 3 blocked 0) starved-IsSound refl refl refl

find_free_pid-demo : find_free_pid demo ≡ 1
unfolding find_free_pid free_from
find_free_pid-demo = refl
