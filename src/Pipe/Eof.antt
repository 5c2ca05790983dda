-- ===== src/Pipe/Eof.antt =====
-- removePipeWriter of pipe.c: the end of file reaches those who wait for data.
use tp2_so_g.Base.{
  ℕ, ◌≡◌, ◌≤◌, refl, sym, ◌∙◌, true, not, ◌||◌, Option, none, some, List, [], ◌∷◌, length, arith,
  update, update_self,
}
use tp2_so_g.Base.Int.{dec}
use tp2_so_g.Kernel.{Kernel, Pipe, Semaphore, ready, max_processes}
use tp2_so_g.Kernel.Action.{put_pipe}
use tp2_so_g.Pipe.{remove_pipe_writer, force_readers_wake_up}
use tp2_so_g.Pipe.Wake.{waiting, queue_of, post_times-Posted}
use tp2_so_g.Semaphore.Rouse.{Rouses, is_in, is_pending}
use tp2_so_g.Pipe.Counts.{IsPiped}
use tp2_so_g.Pipe.Refs.{fewer_writers, fits_at, IsPiped-live, counts_at}

done_waiting :
    (j : ℕ) (queue left : List ℕ) (k k' : Kernel)
    → Rouses j queue left k k'
    → length left ≡ 0
    → (not (is_pending j queue k) || is_in ready (k'.table j)) ≡ true
done_waiting j queue [] k k' r e = ground (arith, r.roused)
done_waiting j queue (q ∷ left) k k' r e = absurd (omega arith)

length_queue : (o : Option Semaphore) → waiting o ≡ length (queue_of o)
length_queue none = refl
length_queue (some s) = refl

-- When the last writer of a pipe goes, with memory left, the scheduler's accounts in order and at most
-- MAX_PROCESSES waiting for the data of the pipe, the call returns, every BLOCKED process that waited for
-- them is READY, and nobody is left in the queue; the counts of all pipes hold, and so do the accounts, by
-- which a READY process stands in the ready queue.
pub remove_pipe_writer-wakes :
    (refs writers : ℕ → ℕ) (p : ℕ) (q : Pipe) (k : Kernel)
    → IsPiped refs writers k
    → k.pipes p ≡ some q
    → writers p ≡ 1
    → waiting (k.sems q.data_available) ≤ max_processes
    → (k' : Kernel) × (remove_pipe_writer (some p) k ≡ some (tt, k'))
      × IsPiped refs (update writers p 0) k'
      × (waiting (k'.sems q.data_available) ≡ 0)
      × ((j : ℕ)
          → (not (is_pending j (queue_of (k.sems q.data_available)) k) || is_in ready (k'.table j))
            ≡ true)
unfolding remove_pipe_writer force_readers_wake_up
remove_pipe_writer-wakes refs writers p q k i e c few =
    let q1 = record q { writer_count = dec q.writer_count } in
    let k1 = put_pipe p (some q1) k in
    let i1 : IsPiped refs (update writers p 0) k1 = fewer_writers refs writers p 0 q k i e c in
    let at : k1.pipes p ≡ some q1 = update_self k.pipes p (some q1) in
    let f = fits_at refs (update writers p 0) p q1 k1 i1 at in
    let (k2, e2, t) = post_times-Posted max_processes q.data_available k1 i1.order f.2.2 in
    let w = (counts_at refs writers p q k i e).1 in
    let empty : waiting (k2.sems q.data_available) ≡ 0 = omega (arith, t.fewer, few) in
    (
      k2,
      ground (arith, e2, w, c, at),
      IsPiped-live i1 t.order t.kept,
      empty,
      λ j.
          done_waiting j (queue_of (k.sems q.data_available)) (queue_of (k2.sems q.data_available))
            k k2 (record { ready_kept = (t.rouses j).ready_kept; roused = (t.rouses j).roused })
            (sym (length_queue (k2.sems q.data_available)) ∙ empty),
    )
