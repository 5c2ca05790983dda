-- ===== src/Spawn/Made.antt =====
-- newProcess of process.c with memory at hand: it makes the process and disturbs nothing.
use tp2_so_g.Base.{
  ℕ, suc, ◌+◌, ◌≡◌, ◌≤◌, refl, ◌∙◌, true, false, Option, none, some, List, [], ◌∷◌, arith,
  Bool-cases, inl, inr,
}
use tp2_so_g.Base.Int.{ℤ, pos}
use tp2_so_g.Kernel.{Kernel, Process, mem_alloc, ready}
use tp2_so_g.Kernel.Facts.{InOrder}
use tp2_so_g.Semaphore.{new_semaphore, put_sem}
use tp2_so_g.Semaphore.Post.{put_sem-IsSound}
use tp2_so_g.Pipe.Wake.{is_live}
use tp2_so_g.Spawn.{
  Start, new_process, new_list, copy_args, deep_copy_argv, has_args, count_of, copy_process_name,
}

-- Only memory is used and semaphores are made.
pub record Grown (k k' : Kernel) : Type 0 where
  pub order : InOrder k'
  pub files_kept : k'.files ≡ k.files
  pub pipes_kept : k'.pipes ≡ k.pipes
  pub table_kept : k'.table ≡ k.table
  pub current_kept : k'.current ≡ k.current
  pub queue_kept : k'.ready_queue ≡ k.ready_queue
  pub live_kept : (a : ℕ) → is_live (k.sems a) ≡ true → is_live (k'.sems a) ≡ true
  pub more_asked : k.asked ≤ k'.asked

pub Grown-trans : {a b c : Kernel} → Grown a b → Grown b c → Grown a c
Grown-trans p q = record {
  order = q.order;
  files_kept = q.files_kept ∙ p.files_kept;
  pipes_kept = q.pipes_kept ∙ p.pipes_kept;
  table_kept = q.table_kept ∙ p.table_kept;
  current_kept = q.current_kept ∙ p.current_kept;
  queue_kept = q.queue_kept ∙ p.queue_kept;
  live_kept = λ a l. q.live_kept a (p.live_kept a l);
  more_asked = omega (arith, p.more_asked, q.more_asked);
}

abbrev pub ask : Kernel → Kernel
ask k = record k { asked = suc k.asked }

pub ask-Grown : (k : Kernel) → InOrder k → Grown k (ask k)
ask-Grown k i = record {
  order = record {
    sound = record {
      exact = i.sound.exact;
      owned = i.sound.owned;
      inside = i.sound.inside;
      alone = i.sound.alone;
      idle_up = i.sound.idle_up;
    };
    memory = λ n l. i.memory n (omega arith);
    at_rest = i.at_rest;
  };
  files_kept = refl;
  pipes_kept = refl;
  table_kept = refl;
  current_kept = refl;
  queue_kept = refl;
  live_kept = λ a l. l;
  more_asked = omega arith;
}

pub mem_alloc-granted : (k : Kernel) → InOrder k → mem_alloc k ≡ (some k.asked, ask k)
unfolding mem_alloc
mem_alloc-granted k i = ground (arith, i.memory k.asked)

put_sem-Grown :
    (a : ℕ) (k : Kernel)
    → InOrder k
    → Grown k (put_sem a (some (record { value = pos 0; blocked_queue = []; lock = false })) k)
put_sem-Grown a k i = record {
  order = record {
    sound = put_sem-IsSound a _ i.sound;
    memory = i.memory;
    at_rest = λ b. ground (arith, i.at_rest b);
  };
  files_kept = refl;
  pipes_kept = refl;
  table_kept = refl;
  current_kept = refl;
  queue_kept = refl;
  live_kept = λ b l. ground (arith, l);
  more_asked = omega arith;
}

new_semaphore-Grown :
    (k : Kernel)
    → InOrder k
    → (a : ℕ) × (k' : Kernel) × (new_semaphore (pos 0) k ≡ (some a, k')) × Grown k k'
unfolding new_semaphore
new_semaphore-Grown k i =
    let g1 = ask-Grown k i in
    let g2 = ask-Grown (ask k) g1.order in
    (
      k.asked,
      put_sem k.asked (some (record { value = pos 0; blocked_queue = []; lock = false }))
          (ask (ask k)),
      ground (arith, mem_alloc-granted k i, mem_alloc-granted (ask k) g1.order),
      Grown-trans g1 (Grown-trans g2 (put_sem-Grown k.asked (ask (ask k)) g2.order)),
    )

new_list-Grown : (k : Kernel) → InOrder k → new_list k ≡ some (some [], ask k)
unfolding new_list
new_list-Grown k i = ground (arith, mem_alloc-granted k i)

Grown-refl : (k : Kernel) → InOrder k → Grown k k
Grown-refl k i = record {
  order = i;
  files_kept = refl;
  pipes_kept = refl;
  table_kept = refl;
  current_kept = refl;
  queue_kept = refl;
  live_kept = λ a l. l;
  more_asked = omega arith;
}

copy_args-Grown :
    (args : List (Option (List ℕ))) (k : Kernel)
    → InOrder k
    → (k' : Kernel) × (copy_args args k ≡ some (some args, k')) × Grown k k'
unfolding copy_args
copy_args-Grown [] k i = (k, refl, Grown-refl k i)
copy_args-Grown (none ∷ args) k i =
    let (k', r, g) = copy_args-Grown args k i in (k', ground (arith, r), g)
copy_args-Grown (some s ∷ args) k i =
    let g1 = ask-Grown k i in
    let (k', r, g) = copy_args-Grown args (ask k) g1.order in
    (k', ground (arith, mem_alloc-granted k i, r), Grown-trans g1 g)

-- The copy of the arguments, where the caller asks for one.
args_or_null :
    (argc : ℤ) (argv : Option (List (Option (List ℕ)))) (k : Kernel)
    → InOrder k
    → has_args argc argv ≡ true
    → (args : List (Option (List ℕ))) × (k' : Kernel) × (deep_copy_argv argc argv k
        ≡ some (some args, k'))
      × Grown k k'
unfolding deep_copy_argv
args_or_null argc none k i e = absurd (ground (arith, e))
args_or_null argc (some args) k i e =
    let g1 = ask-Grown k i in
    let (k', r, g) = copy_args-Grown args (ask k) g1.order in
    (args, k', ground (arith, e, mem_alloc-granted k i, r), Grown-trans g1 g)

-- The PCB that newProcess fills in, from the addresses of its parts.
abbrev pub blank_process : Start → ℕ → ℕ → ℕ → ℕ → ℕ → Option (List (Option (List ℕ))) → Process
blank_process s size pid base terminated child_terminated argv = record {
  pid = pid;
  stack_base = base;
  stack_size = size;
  rsp = base + size;
  rip = s.entry_point;
  state = ready;
  name = copy_process_name s.start_name;
  priority_level = s.start_priority;
  remaining_quantums = s.start_priority;
  ppid = 1;
  children = some [];
  terminated_children = some [];
  terminated = some terminated;
  child_terminated = some child_terminated;
  argc = count_of s.start_argc s.start_argv;
  argv = argv;
  fd_table = λ fd. none;
  eof_requests = λ fd. false;
}

made_without :
    (s : Start) (size pid t c : ℕ) (k k5 k6 : Kernel)
    → mem_alloc k ≡ (some k.asked, ask k)
    → mem_alloc (ask k) ≡ (some (suc k.asked), ask (ask k))
    → new_list (ask (ask k)) ≡ some (some [], ask (ask (ask k)))
    → new_list (ask (ask (ask k))) ≡ some (some [], ask (ask (ask (ask k))))
    → new_semaphore (pos 0) (ask (ask (ask (ask k)))) ≡ (some t, k5)
    → new_semaphore (pos 0) k5 ≡ (some c, k6)
    → has_args s.start_argc s.start_argv ≡ false
    → new_process s size pid k ≡ some (some (blank_process s size pid (suc k.asked) t c none), k6)
unfolding new_process
made_without s size pid t c k k5 k6 e1 e2 e3 e4 e5 e6 h = ground (arith, e1, e2, e3, e4, e5, e6, h)

made_with :
    (s : Start) (size pid t c : ℕ) (args : List (Option (List ℕ))) (k k5 k6 k7 : Kernel)
    → mem_alloc k ≡ (some k.asked, ask k)
    → mem_alloc (ask k) ≡ (some (suc k.asked), ask (ask k))
    → new_list (ask (ask k)) ≡ some (some [], ask (ask (ask k)))
    → new_list (ask (ask (ask k))) ≡ some (some [], ask (ask (ask (ask k))))
    → new_semaphore (pos 0) (ask (ask (ask (ask k)))) ≡ (some t, k5)
    → new_semaphore (pos 0) k5 ≡ (some c, k6)
    → has_args s.start_argc s.start_argv ≡ true
    → deep_copy_argv s.start_argc s.start_argv k6 ≡ some (some args, k7)
    → new_process s size pid k
      ≡ some (some (blank_process s size pid (suc k.asked) t c (some args)), k7)
unfolding new_process
made_with s size pid t c args k k5 k6 k7 e1 e2 e3 e4 e5 e6 h e7 =
    ground (arith, e1, e2, e3, e4, e5, e6, h, e7)

-- With memory at hand newProcess makes a process with this pid and no descriptors.
pub new_process-Grown :
    (s : Start) (size pid : ℕ) (k : Kernel)
    → InOrder k
    → (base t c : ℕ) × (argv : Option (List (Option (List ℕ)))) × (k' : Kernel) × (new_process s
          size pid k
        ≡ some (some (blank_process s size pid base t c argv), k'))
      × Grown k k'
new_process-Grown s size pid k i =
    let g1 = ask-Grown k i in
    let g2 = ask-Grown (ask k) g1.order in
    let g3 = ask-Grown (ask (ask k)) g2.order in
    let g4 = ask-Grown (ask (ask (ask k))) g3.order in
    let (t, k5, e5, g5) = new_semaphore-Grown (ask (ask (ask (ask k)))) g4.order in
    let (c, k6, e6, g6) = new_semaphore-Grown k5 g5.order in
    let made =
      Grown-trans g1 (Grown-trans g2 (Grown-trans g3 (Grown-trans g4 (Grown-trans g5 g6)))) in
    let e1 = mem_alloc-granted k i in
    let e2 = mem_alloc-granted (ask k) g1.order in
    let e3 = new_list-Grown (ask (ask k)) g2.order in
    let e4 = new_list-Grown (ask (ask (ask k))) g3.order in
    elim (Bool-cases (has_args s.start_argc s.start_argv)) [
      | inl h ↦
          let (args, k7, e7, g7) = args_or_null s.start_argc s.start_argv k6 g6.order h in
          (
            suc k.asked,
            t,
            c,
            some args,
            k7,
            made_with s size pid t c args k k5 k6 k7 e1 e2 e3 e4 e5 e6 h e7,
            Grown-trans made g7,
          )
      | inr h ↦ (
        suc k.asked,
        t,
        c,
        none,
        k6,
        made_without s size pid t c k k5 k6 e1 e2 e3 e4 e5 e6 h,
        made,
      )
    ]
