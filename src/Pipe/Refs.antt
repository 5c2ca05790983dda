-- ===== src/Pipe/Refs.antt =====
-- The calls of pipe.c that count the references and the writers of a pipe.
use tp2_so_g.Base.{
  ℕ, zero, suc, ◌≡◌, ◌≢◌, ◌≤◌, refl, ◌∙◌, sym, ap, subst, true, Option, none, some, arith, update,
  update_self, update_ne, same_or_not, inl, inr,
}
use tp2_so_g.Base.Int.{pos, dec}
use tp2_so_g.Kernel.{Kernel, Semaphore, Pipe, max_processes}
use tp2_so_g.Kernel.Action.{put_pipe}
use tp2_so_g.Kernel.Facts.{InOrder}
use tp2_so_g.Pipe.{remove_pipe_ref, remove_pipe_writer, force_readers_wake_up}
use tp2_so_g.Pipe.Wake.{is_live, Kept, post_times-Posted, fd_table_of}
use tp2_so_g.Pipe.Counts.{PipeFits, IsPiped, Gone, free_pipe-Gone}

-- What the calls on pipes leave alone: files and descriptors.
pub record Onward (k k' : Kernel) : Type 0 where
  pub files_kept : k'.files ≡ k.files
  pub fds_kept : (i : ℕ) → fd_table_of (k'.table i) ≡ fd_table_of (k.table i)
  pub more_asked : k.asked ≤ k'.asked

put_pipe-InOrder : (p : ℕ) (o : Option Pipe) (k : Kernel) → InOrder k → InOrder (put_pipe p o k)
put_pipe-InOrder p o k i = record {
  sound = record {
    exact = i.sound.exact;
    owned = i.sound.owned;
    inside = i.sound.inside;
    alone = i.sound.alone;
    idle_up = i.sound.idle_up;
  };
  memory = i.memory;
  at_rest = i.at_rest;
}

pub PipeFits-live :
    (owner role : ℕ → ℕ) (r w p : ℕ) (o : Option Pipe) (sems sems' : ℕ → Option Semaphore)
    → ((a : ℕ) → owner a ≡ p → is_live (sems a) ≡ true → is_live (sems' a) ≡ true)
    → PipeFits owner role r w p o sems
    → PipeFits owner role r w p o sems'
PipeFits-live owner role r w p none sems sems' same f = f
PipeFits-live owner role r w p (some q) sems sems' same (x, y, a, b, c, d) = (
  x,
  y,
  (a.0, a.1, same q.data_available a.0 a.2),
  (b.0, b.1, same q.free_spaces b.0 b.2),
  (c.0, c.1, same q.read_mutex c.0 c.2),
  (d.0, d.1, same q.write_mutex d.0 d.2),
)

pub IsPiped-live :
    {refs writers : ℕ → ℕ} {k k' : Kernel}
    → IsPiped refs writers k
    → InOrder k'
    → Kept k k'
    → IsPiped refs writers k'
IsPiped-live {refs} {writers} {k} {k'} i o t = record {
  order = o;
  owner = i.owner;
  role = i.role;
  fits = λ p.
      subst (λ m. PipeFits i.owner i.role (refs p) (writers p) p (m p) k'.sems) (sym t.pipes_kept)
        (PipeFits-live i.owner i.role (refs p) (writers p) p (k.pipes p) k.sems k'.sems
          (λ a e l. t.live_kept a ∙ l) (i.fits p));
}

pub fits_at :
    (refs writers : ℕ → ℕ) (p : ℕ) (q : Pipe) (k : Kernel)
    → (i : IsPiped refs writers k) → k.pipes p ≡ some q
    → PipeFits i.owner i.role (refs p) (writers p) p (some q) k.sems
fits_at refs writers p q k i e =
    subst (λ o. PipeFits i.owner i.role (refs p) (writers p) p o k.sems) e (i.fits p)

pub IsPiped-counts :
    (refs writers refs' writers' : ℕ → ℕ) (p : ℕ) (q : Pipe) (k : Kernel)
    → IsPiped refs writers k
    → k.pipes p ≡ some q
    → ((b : ℕ) → p ≢ b → refs' b ≡ refs b)
    → ((b : ℕ) → p ≢ b → writers' b ≡ writers b)
    → IsPiped refs' writers' (
        put_pipe p
          (some (record q { ref_count = pos (refs' p); writer_count = pos (writers' p) }))
          k)
IsPiped-counts refs writers refs' writers' p q k i e same_r same_w = record {
  order = put_pipe-InOrder p _ k i.order;
  owner = i.owner;
  role = i.role;
  fits = λ b. elim (same_or_not p b) [
    | inl here ↦
        let q' = record q { ref_count = pos (refs' p); writer_count = pos (writers' p) } in
        let f = fits_at refs writers p q k i e in
        subst
          (λ c.
            PipeFits i.owner i.role (refs' c) (writers' c) c (update k.pipes p (some q') c) k.sems)
          here
          (subst (λ o. PipeFits i.owner i.role (refs' p) (writers' p) p o k.sems)
            (sym (update_self k.pipes p (some q'))) (refl, refl, f.2, f.3, f.4, f.5))
    | inr ne ↦
        let at : PipeFits i.owner i.role (refs b) (writers b) b (k.pipes b) k.sems = i.fits b in
        rw (same_r b ne, same_w b ne, update_ne k.pipes p b _ ne) at
  ];
}

is_there :
    (o : Option Pipe) (r w p n : ℕ) (owner role : ℕ → ℕ) (sems : ℕ → Option Semaphore)
    → r ≡ suc n
    → PipeFits owner role r w p o sems
    → (q : Pipe) × (o ≡ some q)
is_there none r w p n owner role sems e f = absurd (omega (arith, e, f))
is_there (some q) r w p n owner role sems e f = (q, refl)

-- A pipe with a reference is there.
pub live_pipe :
    (refs writers : ℕ → ℕ) (p n : ℕ) (k : Kernel)
    → IsPiped refs writers k
    → refs p ≡ suc n
    → (q : Pipe) × (k.pipes p ≡ some q)
live_pipe refs writers p n k i e =
    is_there (k.pipes p) (refs p) (writers p) p n i.owner i.role k.sems e (i.fits p)

-- The counts of a pipe that is there are those given.
pub counts_at :
    (refs writers : ℕ → ℕ) (p : ℕ) (q : Pipe) (k : Kernel)
    → IsPiped refs writers k
    → k.pipes p ≡ some q
    → (q.ref_count ≡ pos (refs p)) × (q.writer_count ≡ pos (writers p))
counts_at refs writers p q k i e = let f = fits_at refs writers p q k i e in (f.0, f.1)

put_Onward : (p : ℕ) (o : Option Pipe) (k : Kernel) → Onward k (put_pipe p o k)
put_Onward p o k = record { files_kept = refl; fds_kept = λ i. refl; more_asked = omega arith }

-- One writer fewer, in the count.
pub fewer_writers :
    (refs writers : ℕ → ℕ) (p n : ℕ) (q : Pipe) (k : Kernel)
    → IsPiped refs writers k
    → k.pipes p ≡ some q
    → writers p ≡ suc n
    → IsPiped refs
        (update writers p n)
        (put_pipe p (some (record q { writer_count = dec q.writer_count })) k)
fewer_writers refs writers p n q k i e c =
    let (r, w) = counts_at refs writers p q k i e in
    let same : record q { ref_count = pos (refs p); writer_count = pos (update writers p n p) }
        ≡ record q { writer_count = dec q.writer_count } =
      ground (arith, r, w, c) in
    subst (λ q'. IsPiped refs (update writers p n) (put_pipe p (some q') k)) same
      (IsPiped-counts refs writers refs (update writers p n) p q k i e (λ b ne. refl)
        (λ b ne. update_ne writers p b n ne))

fewer_refs :
    (refs writers : ℕ → ℕ) (p n : ℕ) (q : Pipe) (k : Kernel)
    → IsPiped refs writers k
    → k.pipes p ≡ some q
    → refs p ≡ suc n
    → IsPiped
        (update refs p n)
        writers
        (put_pipe p (some (record q { ref_count = dec q.ref_count })) k)
fewer_refs refs writers p n q k i e c =
    let (r, w) = counts_at refs writers p q k i e in
    let same : record q { ref_count = pos (update refs p n p); writer_count = pos (writers p) }
        ≡ record q { ref_count = dec q.ref_count } =
      ground (arith, r, w, c) in
    subst (λ q'. IsPiped (update refs p n) writers (put_pipe p (some q') k)) same
      (IsPiped-counts refs writers (update refs p n) writers p q k i e
        (λ b ne. update_ne refs p b n ne) (λ b ne. refl))

pub remove_pipe_writer-IsPiped :
    (refs writers : ℕ → ℕ) (p n : ℕ) (q : Pipe) (k : Kernel)
    → IsPiped refs writers k
    → k.pipes p ≡ some q
    → writers p ≡ suc n
    → (k' : Kernel) × (remove_pipe_writer (some p) k ≡ some (tt, k'))
      × Onward k k'
      × IsPiped refs (update writers p n) k'
unfolding remove_pipe_writer force_readers_wake_up
remove_pipe_writer-IsPiped refs writers p zero q k i e c =
    let q1 = record q { writer_count = dec q.writer_count } in
    let k1 = put_pipe p (some q1) k in
    let i1 : IsPiped refs (update writers p 0) k1 = fewer_writers refs writers p 0 q k i e c in
    let at : k1.pipes p ≡ some q1 = update_self k.pipes p (some q1) in
    let f = fits_at refs (update writers p 0) p q1 k1 i1 at in
    let (k2, e2, t) = post_times-Posted max_processes q.data_available k1 i1.order f.2.2 in
    let w = (counts_at refs writers p q k i e).1 in
    (
      k2,
      ground (arith, e2, w, c, at),
      record {
        files_kept = t.kept.files_kept;
        fds_kept = t.kept.fds_kept;
        more_asked = t.kept.more_asked;
      },
      IsPiped-live i1 t.order t.kept,
    )
remove_pipe_writer-IsPiped refs writers p (suc n) q k i e c =
    let q1 = record q { writer_count = dec q.writer_count } in
    let w = (counts_at refs writers p q k i e).1 in
    (
      put_pipe p (some q1) k,
      ground (arith, w, c),
      put_Onward p (some q1) k,
      fewer_writers refs writers p (suc n) q k i e c,
    )

-- Freeing the pipe that nobody refers to.
pipe_out :
    (refs writers : ℕ → ℕ) (p : ℕ) (k k' : Kernel)
    → refs p ≡ 0
    → (i : IsPiped refs writers k) → Gone i.owner p k k'
    → IsPiped refs writers k'
pipe_out refs writers p k k' c i g = record {
  order = g.order;
  owner = i.owner;
  role = i.role;
  fits = λ b.
      subst (λ m. PipeFits i.owner i.role (refs b) (writers b) b (m b) k'.sems) (sym g.pipe_gone)
        (elim (same_or_not p b) [
          | inl here ↦
              subst
                (λ c.
                  PipeFits i.owner i.role (refs c) (writers c) c (update k.pipes p none c) k'.sems)
                here
                (subst (λ o. PipeFits i.owner i.role (refs p) (writers p) p o k'.sems)
                  (sym (update_self k.pipes p none)) c)
          | inr ne ↦
              let still =
                PipeFits-live i.owner i.role (refs b) (writers b) b (k.pipes b) k.sems k'.sems
                  (λ a o l. ap is_live (g.others a (λ e. ne (sym e ∙ o))) ∙ l) (i.fits b) in
              rw (update_ne k.pipes p b none ne) still
        ]);
}

pub remove_pipe_ref-IsPiped :
    (refs writers : ℕ → ℕ) (p n : ℕ) (q : Pipe) (k : Kernel)
    → IsPiped refs writers k
    → k.pipes p ≡ some q
    → refs p ≡ suc n
    → (k' : Kernel) × (remove_pipe_ref (some p) k ≡ some (tt, k'))
      × Onward k k'
      × IsPiped (update refs p n) writers k'
unfolding remove_pipe_ref
remove_pipe_ref-IsPiped refs writers p zero q k i e c =
    let q1 = record q { ref_count = dec q.ref_count } in
    let k1 = put_pipe p (some q1) k in
    let i1 : IsPiped (update refs p 0) writers k1 = fewer_refs refs writers p 0 q k i e c in
    let at : k1.pipes p ≡ some q1 = update_self k.pipes p (some q1) in
    let f = fits_at (update refs p 0) writers p q1 k1 i1 at in
    let (k2, e2, g) = free_pipe-Gone i1.owner i1.role p q1 k1 i1.order at f.2 f.3 f.4 f.5 in
    let r = (counts_at refs writers p q k i e).0 in
    (
      k2,
      ground (arith, e2, r, c),
      record {
        files_kept = g.files_kept;
        fds_kept = λ j. ap (λ t. fd_table_of (t j)) g.table_kept;
        more_asked = omega (arith, g.asked_kept);
      },
      pipe_out (update refs p 0) writers p k1 k2 (update_self refs p 0) i1 g,
    )
remove_pipe_ref-IsPiped refs writers p (suc n) q k i e c =
    let q1 = record q { ref_count = dec q.ref_count } in
    let r = (counts_at refs writers p q k i e).0 in
    (
      put_pipe p (some q1) k,
      ground (arith, r, c),
      put_Onward p (some q1) k,
      fewer_refs refs writers p (suc n) q k i e c,
    )
