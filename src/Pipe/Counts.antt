-- ===== src/Pipe/Counts.antt =====
-- The two counts of a pipe of pipe.c, and the life of its semaphores.
use tp2_so_g.Base.{
  ℕ, ◌≡◌, ◌≢◌, refl, ◌∙◌, sym, ap, true, false, Option, none, some, List, [], ◌∷◌, arith, update,
}
use tp2_so_g.Base.Int.{pos}
use tp2_so_g.Kernel.{Kernel, Semaphore, Pipe}
use tp2_so_g.Kernel.Action.{put_pipe}
use tp2_so_g.Kernel.Facts.{InOrder, AtRest}
use tp2_so_g.Semaphore.{free_semaphore, put_sem}
use tp2_so_g.Semaphore.Post.{put_sem-IsSound}
use tp2_so_g.Pipe.{free_pipe}
use tp2_so_g.Pipe.Wake.{is_live, live_sem}

-- The semaphore `a` is there, and is the `n`-th one of the pipe `p`.
abbrev pub Owned : (ℕ → ℕ) → (ℕ → ℕ) → ℕ → ℕ → ℕ → (ℕ → Option Semaphore) → Type 0
Owned owner role p n a sems = (owner a ≡ p) × (role a ≡ n) × (is_live (sems a) ≡ true)

-- A pipe whose counts are those given, with its four semaphores; nobody counts on a pipe that is gone.
abbrev pub PipeFits : (ℕ → ℕ) → (ℕ → ℕ) → ℕ → ℕ → ℕ → Option Pipe → (ℕ → Option Semaphore) → Type 0
PipeFits owner role r w p none sems = r ≡ 0
PipeFits owner role r w p (some q) sems =
    (q.ref_count ≡ pos r)
    × (q.writer_count ≡ pos w)
    × Owned owner role p 0 q.data_available sems
    × Owned owner role p 1 q.free_spaces sems
    × Owned owner role p 2 q.read_mutex sems
    × Owned owner role p 3 q.write_mutex sems

-- Every pipe has the references and writers given. `owner` and `role` tell the semaphores apart.
pub record IsPiped (refs writers : ℕ → ℕ) (k : Kernel) : Type 0 where
  pub order : InOrder k
  pub owner : ℕ → ℕ
  pub role : ℕ → ℕ
  pub fits : (p : ℕ) → PipeFits owner role (refs p) (writers p) p (k.pipes p) k.sems

-- What freeing a semaphore changes: that one, and nothing else.
pub record Freed (a : ℕ) (k k' : Kernel) : Type 0 where
  pub order : InOrder k'
  pub files_kept : k'.files ≡ k.files
  pub pipes_kept : k'.pipes ≡ k.pipes
  pub table_kept : k'.table ≡ k.table
  pub asked_kept : k'.asked ≡ k.asked
  pub others : (b : ℕ) → a ≢ b → k'.sems b ≡ k.sems b

put_free-Freed :
    (a : ℕ) (o : Option Semaphore) (k : Kernel) → InOrder k → AtRest o → Freed a k (put_sem a o k)
put_free-Freed a o k i r = record {
  order = record {
    sound = put_sem-IsSound a o i.sound;
    memory = i.memory;
    at_rest = λ b. ground (arith, i.at_rest b, r);
  };
  files_kept = refl;
  pipes_kept = refl;
  table_kept = refl;
  asked_kept = refl;
  others = λ b ne. ground arith;
}

free_unwanted :
    (a : ℕ) (s : Semaphore) (queue : List ℕ) (k : Kernel)
    → s.blocked_queue ≡ queue
    → InOrder k
    → k.sems a ≡ some s
    → (k' : Kernel) × (free_semaphore (some a) k ≡ some k') × Freed a k k'
unfolding free_semaphore
free_unwanted a s [] k q i e =
    (put_sem a none k, ground (arith, i.at_rest a), put_free-Freed a none k i tt)
free_unwanted a s (p ∷ rest) k q i e =
    let t : Semaphore = record s { lock = false } in
    (
      put_sem a (some t) k,
      ground (arith, i.at_rest a),
      put_free-Freed a (some t) k i (ground (arith, i.at_rest a)),
    )

pub free_live :
    (a : ℕ) (k : Kernel)
    → InOrder k
    → is_live (k.sems a) ≡ true
    → (k' : Kernel) × (free_semaphore (some a) k ≡ some k') × Freed a k k'
free_live a k i l =
    let (s, e) = live_sem (k.sems a) l in free_unwanted a s s.blocked_queue k refl i e

-- What freeing the pipe `p` changes: the pipe, and semaphores that it owns.
pub record Gone (owner : ℕ → ℕ) (p : ℕ) (k k' : Kernel) : Type 0 where
  pub order : InOrder k'
  pub files_kept : k'.files ≡ k.files
  pub pipe_gone : k'.pipes ≡ update k.pipes p none
  pub table_kept : k'.table ≡ k.table
  pub asked_kept : k'.asked ≡ k.asked
  pub others : (b : ℕ) → owner b ≢ p → k'.sems b ≡ k.sems b

still_live :
    (owner role : ℕ → ℕ) (p m n a b : ℕ) (k k' : Kernel)
    → m ≢ n
    → role a ≡ m
    → Owned owner role p n b k.sems
    → Freed a k k'
    → Owned owner role p n b k'.sems
still_live owner role p m n a b k k' ne ra (ob, rb, l) f =
    let apart : a ≢ b = λ e. ne (sym ra ∙ ap role e ∙ rb) in
    (ob, rb, ap is_live (f.others b apart) ∙ l)

not_owned : (owner : ℕ → ℕ) (p a b : ℕ) → owner a ≡ p → owner b ≢ p → a ≢ b
not_owned owner p a b oa ne e = ne (sym (ap owner e) ∙ oa)

pub free_pipe-Gone :
    (owner role : ℕ → ℕ) (p : ℕ) (q : Pipe) (k : Kernel)
    → InOrder k
    → k.pipes p ≡ some q
    → Owned owner role p 0 q.data_available k.sems
    → Owned owner role p 1 q.free_spaces k.sems
    → Owned owner role p 2 q.read_mutex k.sems
    → Owned owner role p 3 q.write_mutex k.sems
    → (k' : Kernel) × (free_pipe (some p) k ≡ some (tt, k')) × Gone owner p k k'
unfolding free_pipe
free_pipe-Gone owner role p q k i e d f r w =
    let (k1, e1, g1) = free_live q.data_available k i d.2 in
    let f1 =
      still_live owner role p 0 1 q.data_available q.free_spaces k k1 (λ e. omega (arith, e)) d.1 f
        g1 in
    let r1 =
      still_live owner role p 0 2 q.data_available q.read_mutex k k1 (λ e. omega (arith, e)) d.1 r
        g1 in
    let w1 =
      still_live owner role p 0 3 q.data_available q.write_mutex k k1 (λ e. omega (arith, e)) d.1 w
        g1 in
    let (k2, e2, g2) = free_live q.free_spaces k1 g1.order f1.2 in
    let r2 =
      still_live owner role p 1 2 q.free_spaces q.read_mutex k1 k2 (λ e. omega (arith, e)) f.1 r1
        g2 in
    let w2 =
      still_live owner role p 1 3 q.free_spaces q.write_mutex k1 k2 (λ e. omega (arith, e)) f.1 w1
        g2 in
    let (k3, e3, g3) = free_live q.read_mutex k2 g2.order r2.2 in
    let w3 =
      still_live owner role p 2 3 q.read_mutex q.write_mutex k2 k3 (λ e. omega (arith, e)) r.1 w2
        g3 in
    let (k4, e4, g4) = free_live q.write_mutex k3 g3.order w3.2 in
    (
      put_pipe p none k4,
      ground (arith, e1, e2, e3, e4),
      record {
        order = record {
          sound = record {
            exact = g4.order.sound.exact;
            owned = g4.order.sound.owned;
            inside = g4.order.sound.inside;
            alone = g4.order.sound.alone;
            idle_up = g4.order.sound.idle_up;
          };
          memory = g4.order.memory;
          at_rest = g4.order.at_rest;
        };
        files_kept = g4.files_kept ∙ g3.files_kept ∙ g2.files_kept ∙ g1.files_kept;
        pipe_gone =
            ap (λ m. update m p none)
              (g4.pipes_kept ∙ g3.pipes_kept ∙ g2.pipes_kept ∙ g1.pipes_kept);
        table_kept = g4.table_kept ∙ g3.table_kept ∙ g2.table_kept ∙ g1.table_kept;
        asked_kept = g4.asked_kept ∙ g3.asked_kept ∙ g2.asked_kept ∙ g1.asked_kept;
        others = λ b ne.
            g4.others b (not_owned owner p q.write_mutex b w.0 ne)
            ∙ g3.others b (not_owned owner p q.read_mutex b r.0 ne)
            ∙ g2.others b (not_owned owner p q.free_spaces b f.0 ne)
            ∙ g1.others b (not_owned owner p q.data_available b d.0 ne);
      },
    )
