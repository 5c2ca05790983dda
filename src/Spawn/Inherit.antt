-- ===== src/Spawn/Inherit.antt =====
-- copyFdTable onto a new process, and the counts of the files that it comes to refer to.
use tp2_so_g.Base.{
  ℕ, zero, suc, ◌+◌, ◌≡◌, ◌≤◌, ◌<◌, refl, ◌∙◌, sym, ap, subst, Option, none, some, List, arith,
  update, update_self, update_ne, same_or_not, inl, inr, Option-cases, sum_below,
}
use tp2_so_g.Base.Int.{inc}
use tp2_so_g.Kernel.{Kernel, Process, File}
use tp2_so_g.Kernel.Action.{put_file}
use tp2_so_g.Kernel.Facts.{InOrder}
use tp2_so_g.File.{add_file_ref}
use tp2_so_g.Pipe.Counts.{IsPiped, PipeFits}
use tp2_so_g.Pipe.Refs.{PipeFits-live}
use tp2_so_g.File.Holders.{at_target, points_to, writes_to, pipe_refs, pipe_writers, IsPiped-same}
use tp2_so_g.File.Counts.{IsFiled, FileFits, add_file_ref-IsFiled, sum_asked}
use tp2_so_g.Fds.{max_fds, set_fd}
use tp2_so_g.Fds.Tables.{first_or_later}
use tp2_so_g.Fds.Wired.{process_refs, process_refs_set}
use tp2_so_g.Spawn.{inherit_fds}
use tp2_so_g.Spawn.Made.{Grown}

-- The files and pipes do not notice new semaphores and requests for memory.
pub Grown-IsFiled : (held : ℕ → ℕ) (k k' : Kernel) → Grown k k' → IsFiled held k → IsFiled held k'
Grown-IsFiled held k k' g i =
    let same : (w : Option File → ℕ)
        → w none ≡ 0
        → sum_below (λ f. w (k.files f)) k.asked ≡ sum_below (λ f. w (k'.files f)) k'.asked =
      λ w z. sym (
        ap (λ m. sum_below (λ f. w (m f)) k'.asked) g.files_kept
        ∙ sum_asked w k.files k.asked k'.asked z g.more_asked i.filed) in
    let piped : IsPiped (pipe_refs k) (pipe_writers k) k' = record {
      order = g.order;
      owner = i.piped.owner;
      role = i.piped.role;
      fits = λ p.
          subst
            (λ m.
              PipeFits i.piped.owner i.piped.role (pipe_refs k p) (pipe_writers k p) p (m p)
                k'.sems)
            (sym g.pipes_kept)
            (PipeFits-live i.piped.owner i.piped.role (pipe_refs k p) (pipe_writers k p) p
              (k.pipes p) k.sems k'.sems (λ a o l. g.live_kept a l) (i.piped.fits p));
    } in
    record {
      piped =
          IsPiped-same (pipe_refs k) (pipe_writers k) (pipe_refs k') (pipe_writers k') k'
            (λ p. same (points_to p) refl) (λ p. same (writes_to p) refl) piped;
      counted = λ f. subst (λ m. FileFits (held f) (m f)) (sym g.files_kept) (i.counted f);
      filed = λ f l. ap (λ m. m f) g.files_kept ∙ i.filed f (omega (arith, l, g.more_asked));
    }

-- Another process table and ready queue, with which the kernel is in order.
pub moved-IsFiled :
    (held : ℕ → ℕ) (table : ℕ → Option Process) (queue : List ℕ) (k : Kernel)
    → InOrder (record k { table = table; ready_queue = queue })
    → IsFiled held k
    → IsFiled held (record k { table = table; ready_queue = queue })
moved-IsFiled held table queue k o i = record {
  piped = record { order = o; owner = i.piped.owner; role = i.piped.role; fits = i.piped.fits };
  counted = i.counted;
  filed = i.filed;
}

-- Every file that the parent refers to, in the descriptors from `fd` on, is there.
abbrev pub AreThere : ℕ → Process → Kernel → Type 0
AreThere fd parent k =
    (d f : ℕ)
    → fd ≤ d
    → d < max_fds
    → parent.fd_table d ≡ some f
    → (x : File) × (k.files f ≡ some x)

-- What the loop leaves: only counts of files change, and the child refers to what the parent does.
pub record Inherited (held : ℕ → ℕ) (fd : ℕ) (parent child : Process) (k : Kernel)
    (child' : Process) (k' : Kernel) : Type 0 where
  pub now_held : ℕ → ℕ
  pub filed : IsFiled now_held k'
  pub counts :
      (f : ℕ) → now_held f + process_refs f (some child) ≡ held f + process_refs f (some child')
  pub table_is : (d : ℕ) → fd ≤ d → d < max_fds → child'.fd_table d ≡ parent.fd_table d
  pub earlier : (d : ℕ) → d < fd → child'.fd_table d ≡ child.fd_table d
  pub child_is :
      child' ≡ record child { fd_table = child'.fd_table; eof_requests = child'.eof_requests }
  pub kernel_is : k' ≡ record k { files = k'.files }

add_ref_is :
    (f : ℕ) (x : File) (k : Kernel)
    → k.files f ≡ some x
    → add_file_ref (some f) k
      ≡ some (tt, put_file f (some (record x { ref_count = inc x.ref_count })) k)
unfolding add_file_ref
add_ref_is f x k e = ground (arith, e)

still_there :
    (fd g : ℕ) (y : File) (parent : Process) (k : Kernel)
    → AreThere fd parent k
    → AreThere (suc fd) parent (put_file g (some y) k)
still_there fd g y parent k h d f l m e = elim (same_or_not g f) [
  | inl s ↦ (y, ap (update k.files g (some y)) (sym s) ∙ update_self k.files g (some y))
  | inr ne ↦ let (x, t) = h d f (omega arith) m e in (x, update_ne k.files g f (some y) ne ∙ t)
]

inherit_none :
    (n fd : ℕ) (parent child : Process) (k : Kernel)
    → parent.fd_table fd ≡ none
    → inherit_fds (suc n) fd parent child k ≡ inherit_fds n (suc fd) parent child k
unfolding inherit_fds
inherit_none n fd parent child k e = ground (arith, e)

inherit_some :
    (n fd f : ℕ) (parent child : Process) (k k1 : Kernel)
    → parent.fd_table fd ≡ some f
    → add_file_ref (some f) k ≡ some (tt, k1)
    → inherit_fds (suc n) fd parent child k
      ≡ inherit_fds n (suc fd) parent (set_fd fd (some f) child) k1
unfolding inherit_fds
inherit_some n fd f parent child k k1 e r = ground (arith, e, r)

Inherited-none :
    (held : ℕ → ℕ) (fd : ℕ) (parent child child' : Process) (k k' : Kernel)
    → fd < max_fds
    → parent.fd_table fd ≡ none
    → child.fd_table fd ≡ none
    → Inherited held (suc fd) parent child k child' k'
    → Inherited held fd parent child k child' k'
Inherited-none held fd parent child child' k k' l e c i = record {
  now_held = i.now_held;
  filed = i.filed;
  counts = i.counts;
  table_is = λ d a b. elim (first_or_later fd d a) [
    | inl s ↦
        subst (λ d. child'.fd_table d ≡ parent.fd_table d) s
          (i.earlier fd (omega arith) ∙ c ∙ sym e)
    | inr m ↦ i.table_is d m b
  ];
  earlier = λ d a. i.earlier d (omega arith);
  child_is = i.child_is;
  kernel_is = i.kernel_is;
}

-- One more reference to `f`, for the descriptor that the child gets.
one_more : (x y n h c c1 c' : ℕ) → x + c1 ≡ n + c' → n ≡ h + y → c1 ≡ c + y → x + c ≡ h + c'
one_more x y n h c c1 c' a b d = omega (arith, a, b, d)

Inherited-some :
    (held : ℕ → ℕ) (fd f : ℕ) (y : File) (parent child child' : Process) (k k' : Kernel)
    → fd < max_fds
    → parent.fd_table fd ≡ some f
    → child.fd_table fd ≡ none
    → Inherited
        (update held f (suc (held f)))
        (suc fd)
        parent
        (set_fd fd (some f) child)
        (put_file f (some y) k)
        child'
        k'
    → Inherited held fd parent child k child' k'
Inherited-some held fd f y parent child child' k k' l e c i = record {
  now_held = i.now_held;
  filed = i.filed;
  counts = λ g.
      let s = process_refs_set g fd fd (some f) child l in
      let z : at_target g (child.fd_table fd) ≡ 0 = ap (at_target g) c in
      one_more (i.now_held g) (at_target g (some f)) (update held f (suc (held f)) g) (held g)
        (process_refs g (some child)) (process_refs g (some (set_fd fd (some f) child)))
        (process_refs g (some child')) (i.counts g) (ground arith) (omega (arith, s, z));
  table_is = λ d a b. elim (first_or_later fd d a) [
    | inl s ↦
        subst (λ d. child'.fd_table d ≡ parent.fd_table d) s
          (i.earlier fd (omega arith) ∙ update_self child.fd_table fd (some f) ∙ sym e)
    | inr m ↦ i.table_is d m b
  ];
  earlier =
      λ d a. i.earlier d (omega arith) ∙ update_ne child.fd_table fd d (some f) (λ s. omega arith);
  child_is = i.child_is;
  kernel_is = i.kernel_is;
}

pub inherit_fds-Inherited :
    (n fd : ℕ) (held : ℕ → ℕ) (parent child : Process) (k : Kernel)
    → fd + n ≡ max_fds
    → IsFiled held k
    → AreThere fd parent k
    → ((d : ℕ) → fd ≤ d → child.fd_table d ≡ none)
    → (child' : Process) × (k' : Kernel) × (inherit_fds n fd parent child k ≡ some (child', k'))
      × Inherited held fd parent child k child' k'
unfolding inherit_fds
inherit_fds-Inherited zero fd held parent child k e i there closed = (
  child,
  k,
  refl,
  record {
    now_held = held;
    filed = i;
    counts = λ f. refl;
    table_is = λ d a b. absurd (omega arith);
    earlier = λ d a. refl;
    child_is = refl;
    kernel_is = refl;
  },
)
inherit_fds-Inherited (suc n) fd held parent child k e i there closed =
    elim (Option-cases (parent.fd_table fd)) [
      | inl o ↦
          let (child', k', r, s) =
            inherit_fds-Inherited n (suc fd) held parent child k (omega arith) i
              (λ d f a b. there d f (omega arith) b) (λ d a. closed d (omega arith)) in
          (
            child',
            k',
            inherit_none n fd parent child k o ∙ r,
            Inherited-none held fd parent child child' k k' (omega arith) o
                (closed fd (omega arith)) s,
          )
      | inr (f, o) ↦
          let (x, t) = there fd f (omega arith) (omega arith) o in
          let y = record x { ref_count = inc x.ref_count } in
          let k1 = put_file f (some y) k in
          let (k2, r2, a2, i2) = add_file_ref-IsFiled held f x k i t in
          let same : k2 ≡ k1 = ground (arith, r2, add_ref_is f x k t) in
          let i1 : IsFiled (update held f (suc (held f))) k1 =
            subst (IsFiled (update held f (suc (held f)))) same i2 in
          let (child', k', r, s) =
            inherit_fds-Inherited n (suc fd) (update held f (suc (held f))) parent
              (set_fd fd (some f) child) k1 (omega arith) i1 (still_there fd f y parent k there)
              (λ d a.
                update_ne child.fd_table fd d (some f) (λ s. omega arith)
                ∙ closed d (omega arith)) in
          (
            child',
            k',
            inherit_some n fd f parent child k k1 o (add_ref_is f x k t) ∙ r,
            Inherited-some held fd f y parent child child' k k' (omega arith) o
                (closed fd (omega arith)) s,
          )
    ]
