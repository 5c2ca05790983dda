-- ===== src/Spawn/Started.antt =====
-- startNewProcess of scheduler.c, called by a process.
use tp2_so_g.Base.{
  ℕ, ◌+◌, ◌≡◌, ◌≢◌, ◌<◌, ◌⊎◌, refl, ◌∙◌, sym, ap, subst, true, false, Option, none, some, List, [],
  ◌∷◌, ◌++◌, arith, update, update_self, update_ne, inl, inr, ◌==◌, ◌||◌, leb, count-append,
  sum_below-except, sum_below-none,
}
use tp2_so_g.Kernel.{Kernel, Process, ready, max_processes, idle_pid, no_pid, bad_pid, set_state}
use tp2_so_g.Kernel.Action.{Action, after, ◌>>◌}
use tp2_so_g.Kernel.Facts.{InOrder, IsSound}
use tp2_so_g.Ready.{enqueue_ready, get_current_pid}
use tp2_so_g.Table.{find_free_pid, is_used}
use tp2_so_g.Table.Free.{find_free_pid-FirstFree}
use tp2_so_g.File.Holders.{at_target}
use tp2_so_g.File.Counts.{IsFiled}
use tp2_so_g.Fds.{max_fds, has_process}
use tp2_so_g.Pipe.Wake.{fd_table_of}
use tp2_so_g.Fds.Wired.{IsWired, table_refs_same, table_refs, process_refs, IsFiled-same}
use tp2_so_g.Fds.Calls.{live_fd}
use tp2_so_g.Spawn.{
  Start, default_stack_size, new_process, add_child, inherit_fds, adopt, enter_process, set_ppid,
  prepare_stack, at_process, start_new_process_with_pid, start_new_process,
}
use tp2_so_g.Spawn.Made.{
  Grown, Grown-trans, ask, ask-Grown, mem_alloc-granted, blank_process, new_process-Grown,
}
use tp2_so_g.Spawn.Inherit.{
  Grown-IsFiled, moved-IsFiled, AreThere, Inherited, inherit_fds-Inherited,
}

-- The process `c` calls: it runs, it is not the idle process, and it has a queue of children.
pub record IsParent (k : Kernel) (c : ℕ) (p : Process) (queue : List ℕ) : Type 0 where
  pub current_is : k.current ≡ some c
  pub found : k.table c ≡ some p
  pub not_idle : c ≢ idle_pid
  pub children_are : p.children ≡ some queue

abbrev pub with_child : ℕ → Process → List ℕ → Process
with_child pid p queue = record p { children = some (queue ++ pid ∷ []) }

abbrev pub parent_table : ℕ → ℕ → Process → List ℕ → Kernel → ℕ → Option Process
parent_table pid c p queue k = update k.table c (some (with_child pid p queue))

add_child_is :
    (pid c : ℕ) (p : Process) (queue : List ℕ) (k : Kernel)
    → InOrder k
    → IsParent k c p queue
    → add_child c pid k ≡ some (true, record (ask k) { table = parent_table pid c p queue k })
unfolding add_child
add_child_is pid c p queue k i q = ground (arith, mem_alloc-granted k i, q.found, q.children_are)

parent-InOrder :
    (pid c : ℕ) (p : Process) (queue : List ℕ) (k : Kernel)
    → InOrder k
    → IsParent k c p queue
    → InOrder (record k { table = parent_table pid c p queue k })
parent-InOrder pid c p queue k i q = record {
  sound = record {
    exact = λ j. ground (arith, i.sound.exact j, q.found);
    owned = λ j. ground (arith, i.sound.owned j, q.found);
    inside = λ j l. ground (arith, i.sound.inside j l, q.found);
    alone = λ j. ground (arith, i.sound.alone j, q.found);
    idle_up = ground (arith, i.sound.idle_up, q.found);
  };
  memory = i.memory;
  at_rest = i.at_rest;
}

-- The new process enters the table and the ready queue.
enter-InOrder :
    (pid : ℕ) (child : Process) (k : Kernel)
    → InOrder k
    → pid < max_processes
    → k.table pid ≡ none
    → child.pid ≡ pid
    → InOrder (enter_process pid child k)
unfolding enter_process prepare_stack enqueue_ready
enter-InOrder pid child k i l e own = record {
  sound = record {
    exact = λ j.
        ground
          (arith, i.sound.exact j, e, i.memory k.asked, count-append j k.ready_queue (pid ∷ []));
    owned = λ j. ground (arith, i.sound.owned j, own, i.memory k.asked);
    inside = λ j m. ground (arith, i.sound.inside j m, i.memory k.asked);
    alone = λ j. ground (arith, i.sound.alone j, i.memory k.asked);
    idle_up = ground (arith, i.sound.idle_up, i.memory k.asked, e);
  };
  memory = λ n m. ground (arith, i.memory n, i.memory k.asked);
  at_rest = λ a. ground (arith, i.at_rest a, i.memory k.asked);
}

current_pid_is :
    (c : ℕ) (p : Process) (queue : List ℕ) (k : Kernel)
    → InOrder k
    → IsParent k c p queue
    → get_current_pid k ≡ c
unfolding get_current_pid
current_pid_is c p queue k i q = ground (arith, q.current_is, q.found, i.sound.owned c)

adopt_by :
    (pid c : ℕ) (child : Process) (k : Kernel)
    → k.current ≡ some c
    → (get_current_pid k == idle_pid) ≡ false
    → adopt pid child k
      ≡ (add_child c pid
            >> at_process c
                (λ parent. inherit_fds max_fds 0 parent (set_ppid (get_current_pid k) child)))
          k
unfolding adopt
adopt_by pid c child k e ne = ground (arith, e, ne)

there :
    {A : Type 0} (i : ℕ) (p : Process) (body : Process → Action A) (k : Kernel)
    → k.table i ≡ some p
    → at_process i body k ≡ body p k
there i p body k e = ground (arith, e)

at_parent :
    (pid c : ℕ) (p child : Process) (queue : List ℕ) (k : Kernel)
    → at_process c
        (λ parent. inherit_fds max_fds 0 parent child)
        (record (ask k) { table = parent_table pid c p queue k })
      ≡ inherit_fds max_fds 0
          (with_child pid p queue)
          child
          (record (ask k) { table = parent_table pid c p queue k })
at_parent pid c p child queue k =
    there c (with_child pid p queue) (λ parent. inherit_fds max_fds 0 parent child)
      (record (ask k) { table = parent_table pid c p queue k })
      (update_self k.table c (some (with_child pid p queue)))

adopt_is :
    (pid c : ℕ) (p child : Process) (queue : List ℕ) (k : Kernel)
    → InOrder k
    → IsParent k c p queue
    → adopt pid child k
      ≡ inherit_fds max_fds 0
          (with_child pid p queue)
          (set_ppid c child)
          (record (ask k) { table = parent_table pid c p queue k })
adopt_is pid c p child queue k i q =
    let own = current_pid_is c p queue k i q in
    let k1 = record (ask k) { table = parent_table pid c p queue k } in
    adopt_by pid c child k q.current_is (ground (arith, own, q.not_idle))
    ∙ after (add_child c pid)
        (at_process c (λ parent. inherit_fds max_fds 0 parent (set_ppid (get_current_pid k) child)))
        true k k1 (add_child_is pid c p queue k i q)
    ∙ at_parent pid c p (set_ppid (get_current_pid k) child) queue k
    ∙ ap (λ n. inherit_fds max_fds 0 (with_child pid p queue) (set_ppid n child) k1) own

abbrev pub entered : ℕ → Process → Kernel → Kernel
entered pid child k = record (ask k) {
  table = update k.table pid (some (set_state ready (prepare_stack child)));
  ready_queue = k.ready_queue ++ pid ∷ [];
}

enter_is :
    (pid : ℕ) (child : Process) (k : Kernel)
    → InOrder k
    → enter_process pid child k ≡ entered pid child k
unfolding enter_process enqueue_ready
enter_is pid child k i = ground (arith, mem_alloc-granted k i)

entered_refs :
    (pid : ℕ) (child : Process) (k : Kernel) (f : ℕ)
    → pid < max_processes
    → k.table pid ≡ none
    → table_refs (entered pid child k).table f ≡ table_refs k.table f + process_refs f (some child)
unfolding prepare_stack
entered_refs pid child k f l e =
    let q = some (set_state ready (prepare_stack child)) in
    let s =
      sum_below-except (λ j. process_refs f (update k.table pid q j))
        (λ j. process_refs f (k.table j)) pid max_processes
        (λ j ne. ap (process_refs f) (update_ne k.table pid j q ne)) l in
    let here : process_refs f (update k.table pid q pid) ≡ process_refs f (some child) =
      ap (process_refs f) (update_self k.table pid q) in
    let empty : process_refs f none ≡ 0 =
      sum_below-none (λ fd. at_target f none) max_fds (λ fd. refl) in
    let before : process_refs f (k.table pid) ≡ 0 = ap (process_refs f) e ∙ empty in
    omega (arith, s, here, before)

-- The counts hold when the process with its inherited descriptors is in the table.
entered-IsWired :
    (held : ℕ → ℕ) (pid : ℕ) (parent child child' : Process) (k k' : Kernel)
    → pid < max_processes
    → k.table pid ≡ none
    → child.pid ≡ pid
    → ((d : ℕ) → child.fd_table d ≡ none)
    → Inherited (λ f. table_refs k.table f + held f) 0 parent child k child' k'
    → IsWired held (entered pid child' k')
entered-IsWired held pid parent child child' k k' l e own closed s =
    let same : k'.table ≡ k.table = ap (λ (k : Kernel). k.table) s.kernel_is in
    let free : k'.table pid ≡ none = ap (λ t. t pid) same ∙ e in
    let i = s.filed.piped.order in
    let own' : child'.pid ≡ pid = ap (λ (p : Process). p.pid) s.child_is ∙ own in
    let order : InOrder (entered pid child' k') =
      subst InOrder (enter_is pid child' k' i) (enter-InOrder pid child' k' i l free own') in
    let none_yet : (f : ℕ) → process_refs f (some child) ≡ 0 = λ f.
      sum_below-none (λ fd. at_target f (child.fd_table fd)) max_fds
        (λ d. ap (at_target f) (closed d)) in
    let counts : (f : ℕ) → s.now_held f ≡ table_refs (entered pid child' k').table f + held f = λ f.
      let t : table_refs k'.table f ≡ table_refs k.table f = ap (λ t. table_refs t f) same in
      omega (arith, s.counts f, none_yet f, entered_refs pid child' k' f l free, t) in
    record {
      filed =
          IsFiled-same s.now_held (λ f. table_refs (entered pid child' k').table f + held f)
            (entered pid child' k') counts
            (moved-IsFiled s.now_held (entered pid child' k').table
              (entered pid child' k').ready_queue (ask k') order
              (Grown-IsFiled s.now_held k' (ask k') (ask-Grown k' i) s.filed));
    }

start_with :
    (s : Start) (pid : ℕ) (pr child : Process) (k k1 k3 : Kernel)
    → (bad_pid pid || has_process pid k) ≡ false
    → new_process s default_stack_size pid k ≡ some (some pr, k1)
    → adopt pid pr k1 ≡ some (child, k3)
    → start_new_process_with_pid s pid k ≡ some (pid, enter_process pid child k3)
unfolding start_new_process_with_pid
start_with s pid pr child k k1 k3 u r a = ground (arith, u, r, a)

start_by :
    (s : Start) (pid : ℕ) (k : Kernel)
    → find_free_pid k ≡ pid
    → leb 32768 pid ≡ false
    → start_new_process s k ≡ start_new_process_with_pid s pid k
unfolding start_new_process
start_by s pid k e l = ground (arith, e, l)

good_pid :
    (pid : ℕ) (k : Kernel)
    → pid < max_processes
    → is_used pid k ≡ false
    → (bad_pid pid || has_process pid k) ≡ false
good_pid pid k l u = ground (arith, l, u)

start_is :
    (s : Start) (pid : ℕ) (pr child : Process) (k k1 k3 : Kernel)
    → find_free_pid k ≡ pid
    → pid < max_processes
    → is_used pid k ≡ false
    → new_process s default_stack_size pid k ≡ some (some pr, k1)
    → adopt pid pr k1 ≡ some (child, k3)
    → start_new_process s k ≡ some (pid, enter_process pid child k3)
start_is s pid pr child k k1 k3 e l u r a =
    start_by s pid k e (ground (arith, l))
    ∙ start_with s pid pr child k k1 k3 (good_pid pid k l u) r a

start_refused :
    (s : Start) (k : Kernel) → find_free_pid k ≡ no_pid → start_new_process s k ≡ some (no_pid, k)
unfolding start_new_process
start_refused s k e = ground (arith, e)

-- A process that `c` has started: it is READY at the end of the ready queue, a child of `c`, and its
-- descriptors are those of `c`.
pub record Started (held : ℕ → ℕ) (c : ℕ) (p : Process) (queue : List ℕ) (k k' : Kernel) (pid : ℕ)
    (child : Process) : Type 0 where
  pub was_free : k.table pid ≡ none
  pub wired : IsWired held k'
  pub entered_is : k'.table pid ≡ some child
  pub state_is : child.state ≡ ready
  pub ppid_is : child.ppid ≡ c
  pub fds_are : (d : ℕ) → d < max_fds → child.fd_table d ≡ p.fd_table d
  pub parent_is : k'.table c ≡ some (with_child pid p queue)
  pub queue_is : k'.ready_queue ≡ k.ready_queue ++ pid ∷ []

unused : (o : Option Process) → elim o [ none ↦ false | some p ↦ true ] ≡ false → o ≡ none
unused none e = refl
unused (some p) e = absurd (ground (arith, e))

-- The state in which the child inherits.
abbrev pub before_inherit : ℕ → ℕ → Process → List ℕ → Kernel → Kernel
before_inherit pid c p queue k = record (ask k) { table = parent_table pid c p queue k }

before-IsFiled :
    (held : ℕ → ℕ) (pid c : ℕ) (p : Process) (queue : List ℕ) (k k1 : Kernel)
    → IsWired held k
    → Grown k k1
    → IsParent k1 c p queue
    → IsFiled
        (λ f. table_refs (before_inherit pid c p queue k1).table f + held f)
        (before_inherit pid c p queue k1)
before-IsFiled held pid c p queue k k1 w g q =
    let k2 = before_inherit pid c p queue k1 in
    let g1 = ask-Grown k1 g.order in
    let q1 : IsParent (ask k1) c p queue = record {
      current_is = q.current_is;
      found = q.found;
      not_idle = q.not_idle;
      children_are = q.children_are;
    } in
    let i =
      Grown-IsFiled (λ f. table_refs k.table f + held f) k (ask k1) (Grown-trans g g1) w.filed in
    let o : InOrder k2 = parent-InOrder pid c p queue (ask k1) g1.order q1 in
    let fds : (j : ℕ) → fd_table_of (k2.table j) ≡ fd_table_of (k.table j) =
      λ j. same_fds pid c j p queue k1 q.found ∙ ap (λ t. fd_table_of (t j)) g.table_kept in
    IsFiled-same (λ f. table_refs k.table f + held f) (λ f. table_refs k2.table f + held f) k2
      (λ f. ap (λ n. n + held f) (sym (table_refs_same k.table k2.table f fds)))
      (moved-IsFiled (λ f. table_refs k.table f + held f) k2.table k2.ready_queue (ask k1) o i)
  where
    same_fds :
        (pid c j : ℕ) (p : Process) (queue : List ℕ) (k : Kernel)
        → k.table c ≡ some p
        → fd_table_of (parent_table pid c p queue k j) ≡ fd_table_of (k.table j)
    same_fds pid c j p queue k e = ground (arith, e)

below_max : (c : ℕ) (p : Process) (k : Kernel) → IsSound k → k.table c ≡ some p → c < max_processes
below_max c p k s e = ground (arith, e, s.inside c)

ppid_of : (p : Process) → (prepare_stack p).ppid ≡ p.ppid
unfolding prepare_stack
ppid_of p = refl

fds_of_prepared : (p : Process) (d : ℕ) → (prepare_stack p).fd_table d ≡ p.fd_table d
unfolding prepare_stack
fds_of_prepared p d = refl

-- startNewProcess, called by a process other than the idle one, with every request for memory granted and
-- the counts of files and pipes in order: with all 64 slots in use it returns -1 and changes nothing;
-- otherwise it returns the pid of a slot that was free, whose process is a READY child of the caller with
-- the caller's descriptors, and the counts of files and pipes hold.
pub start_new_process-Started :
    (s : Start) (held : ℕ → ℕ) (c : ℕ) (p : Process) (queue : List ℕ) (k : Kernel)
    → IsWired held k
    → IsParent k c p queue
    → ((start_new_process s k ≡ some (no_pid, k))
        × ((j : ℕ) → j < max_processes → is_used j k ≡ true))
      ⊎ ((pid : ℕ) × (child : Process) × (k' : Kernel) × (start_new_process s k ≡ some (pid, k'))
          × Started held c p queue k k' pid child)
start_new_process-Started s held c p queue k w q = elim (find_free_pid-FirstFree k) [
  | inr (e, all) ↦ inl (start_refused s k e, λ j l. all j (omega arith) l)
  | inl (l, u, first) ↦
      let pid = find_free_pid k in
      let i = w.filed.piped.order in
      let free : k.table pid ≡ none = unused (k.table pid) u in
      let (base, t, ct, argv, k1, r1, g) = new_process-Grown s default_stack_size pid k i in
      let pr = blank_process s default_stack_size pid base t ct argv in
      let q1 : IsParent k1 c p queue = record {
        current_is = g.current_kept ∙ q.current_is;
        found = ap (λ t. t c) g.table_kept ∙ q.found;
        not_idle = q.not_idle;
        children_are = q.children_are;
      } in
      let k2 = before_inherit pid c p queue k1 in
      let lc : c < max_processes = below_max c p k i.sound q.found in
      let there : AreThere 0 (with_child pid p queue) k2 = λ d f a b e.
        let (x, at) = live_fd held c d f p k w lc b q.found e in
        (x, ap (λ m. m f) g.files_kept ∙ at) in
      let (child, k3, r3, s3) =
        inherit_fds-Inherited max_fds 0 (λ f. table_refs k2.table f + held f)
          (with_child pid p queue) (set_ppid c pr) k2 (omega arith)
          (before-IsFiled held pid c p queue k k1 w g q1) there (λ d a. refl) in
      let apart : c ≢ pid = λ e. cc in
      let free2 : k2.table pid ≡ none =
        update_ne k1.table c pid _ apart ∙ ap (λ t. t pid) g.table_kept ∙ free in
      let kept3 : k3.table ≡ k2.table = ap (λ (k : Kernel). k.table) s3.kernel_is in
      inr (
        pid,
        set_state ready (prepare_stack child),
        entered pid child k3,
        start_is s pid pr child k k1 k3 refl l u r1 (adopt_is pid c p pr queue k1 g.order q1 ∙ r3)
            ∙ ap (λ k. some (pid, k)) (enter_is pid child k3 s3.filed.piped.order),
        record {
          was_free = free;
          wired =
              entered-IsWired held pid (with_child pid p queue) (set_ppid c pr) child k2 k3 l free2
                refl (λ d. refl) s3;
          entered_is = update_self k3.table pid _;
          state_is = refl;
          ppid_is = ppid_of child ∙ ap (λ (p : Process). p.ppid) s3.child_is;
          fds_are = λ d m. fds_of_prepared child d ∙ s3.table_is d (omega arith) m;
          parent_is =
              update_ne k3.table pid c _ (λ e. apart (sym e))
              ∙ ap (λ t. t c) kept3
              ∙ update_self k1.table c _;
          queue_is =
              ap (λ x. x ++ pid ∷ [])
                (ap (λ (k : Kernel). k.ready_queue) s3.kernel_is ∙ g.queue_kept);
        },
      )
]
