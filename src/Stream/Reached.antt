-- ===== src/Stream/Reached.antt =====
-- The states that the readers and writers of a new pipe reach.
use tp2_so_g.Base.{ℕ, ◌≡◌, ◌≤◌, refl, ap, Bool, true, false, ◌++◌, arith, inl, inr, length}
use tp2_so_g.Pipe.{pipe_buf_size}
use tp2_so_g.Stream.{
  Phase, outside, wants_data, has_data, reads, wants_now, reads_now, wants_write, writes, has_space,
  Stream, is_empty, Step, take_data, lock_read, finish_read, finish_read_now, Run, stay, go,
  new_stream,
}
use tp2_so_g.Stream.Locks.{Lock, Lock-alone, Lock-held}
use tp2_so_g.Stream.Order.{
  in_read, in_write, keeps_space, will_look, IsKept, ReadLock, WriteLock, Step-IsKept,
  Step-ReadLock, Step-WriteLock,
}
use tp2_so_g.Stream.Space.{IsSpaced, Step-IsSpaced}
use tp2_so_g.Stream.Signal.{IsSignalled, Step-IsSignalled}

pub record IsReached (m : Stream) : Type 0 where
  pub kept : IsKept m
  pub read_lock : ReadLock m
  pub write_lock : WriteLock m
  pub spaced : IsSpaced m
  pub signalled : IsSignalled m

Run-IsReached : {m : Stream} → Run new_stream m → IsReached m
Run-IsReached stay = record {
  kept = refl;
  read_lock = inl (refl, λ v. refl);
  write_lock = inl (refl, λ v. refl);
  spaced = record { spare = 1; lock = inl (refl, λ v. refl); total = omega arith };
  signalled = inl refl;
}
Run-IsReached (go w r s) =
    let i = Run-IsReached r in
    record {
      kept = Step-IsKept w s i.kept;
      read_lock = Step-ReadLock w s i.read_lock;
      write_lock = Step-WriteLock w s i.write_lock;
      spaced = Step-IsSpaced w s i.write_lock i.spaced;
      signalled = Step-IsSignalled w s i.signalled;
    }

spare_low : (u : ℕ) (f : ℕ → Phase) → Lock keeps_space u f → u ≤ 1
spare_low u f (inl (x, h)) = omega arith
spare_low u f (inr (o, x, h)) = omega arith

-- In every interleaving of readers and writers on a new pipe, none of which is killed inside a call and
-- without forceWakeOnPipe from outside, the bytes read and then those in the buffer
-- are the bytes written, in order; the buffer holds at most PIPE_BUF_SIZE; and one process at a time
-- has the lock of the readers and one that of the writers.
pub Run-carries :
    {m : Stream}
    → Run new_stream m
    → (m.written ≡ m.taken ++ m.contents)
      × (length m.contents ≤ pipe_buf_size)
      × ((v w : ℕ) → in_read (m.process v) ≡ true → in_read (m.process w) ≡ true → v ≡ w)
      × ((v w : ℕ) → in_write (m.process v) ≡ true → in_write (m.process w) ≡ true → v ≡ w)
Run-carries {m} r =
    let i = Run-IsReached r in
    let low = spare_low i.spaced.spare m.process i.spaced.lock in
    (
      i.kept,
      omega (arith, i.spaced.total, low),
      λ v w. Lock-alone in_read m.read_units m.process v w i.read_lock,
      λ v w. Lock-alone in_write m.write_units m.process v w i.write_lock,
    )

-- Whether the process stands in pipeRead.
abbrev pub is_reading : Phase → Bool
is_reading (wants_data count) = true
is_reading (has_data count) = true
is_reading (reads count) = true
is_reading (wants_now count) = true
is_reading (reads_now count) = true
is_reading _ = false

-- A reader that goes on.
abbrev pub ReaderSteps : Stream → Type 0
ReaderSteps m = (w : ℕ) × (is_reading (m.process w) ≡ true) × (m' : Stream) × Step w m m'

holder_steps :
    (w : ℕ) (m : Stream) (p : Phase)
    → m.process w ≡ p
    → in_read p ≡ true
    → is_empty m.contents ≡ false
    → ReaderSteps m
holder_steps w m (reads count) e h d = (w, ap is_reading e, _, finish_read count e d)
holder_steps w m (reads_now count) e h d = (w, ap is_reading e, _, finish_read_now count e)
holder_steps w m outside e h d = absurd (ground (arith, h))
holder_steps w m (wants_data count) e h d = absurd (ground (arith, h))
holder_steps w m (has_data count) e h d = absurd (ground (arith, h))
holder_steps w m (wants_now count) e h d = absurd (ground (arith, h))
holder_steps w m (wants_write nb bytes) e h d = absurd (ground (arith, h))
holder_steps w m (writes nb bytes) e h d = absurd (ground (arith, h))
holder_steps w m (has_space nb b bytes) e h d = absurd (ground (arith, h))

looker_steps :
    (w : ℕ) (m : Stream) (p : Phase)
    → m.process w ≡ p
    → will_look p ≡ true
    → is_empty m.contents ≡ false
    → ReadLock m
    → ReaderSteps m
looker_steps w m (has_data count) e h d k = elim (Lock-held in_read m.read_units m.process k) [
  | inl (n, x) ↦ (w, ap is_reading e, _, lock_read count n e x)
  | inr (o, x) ↦ holder_steps o m (m.process o) refl x d
]
looker_steps w m (reads count) e h d k = (w, ap is_reading e, _, finish_read count e d)
looker_steps w m outside e h d k = absurd (ground (arith, h))
looker_steps w m (wants_data count) e h d k = absurd (ground (arith, h))
looker_steps w m (wants_now count) e h d k = absurd (ground (arith, h))
looker_steps w m (reads_now count) e h d k = absurd (ground (arith, h))
looker_steps w m (wants_write nb bytes) e h d k = absurd (ground (arith, h))
looker_steps w m (writes nb bytes) e h d k = absurd (ground (arith, h))
looker_steps w m (has_space nb b bytes) e h d k = absurd (ground (arith, h))

-- No signal is lost: in every state that such steps reach from a new pipe, if there is data and a process
-- waits for it in pipeRead, then a reader can go on.
pub Run-reads :
    {m : Stream} (v count : ℕ)
    → Run new_stream m
    → is_empty m.contents ≡ false
    → m.process v ≡ wants_data count
    → ReaderSteps m
Run-reads {m} v count r d e =
    let i = Run-IsReached r in
    elim i.signalled [
      | inl x ↦ absurd (ground (arith, x, d))
      | inr (inl (n, x)) ↦ (v, ap is_reading e, _, take_data count n e x)
      | inr (inr (u, x)) ↦ looker_steps u m (m.process u) refl x d i.read_lock
    ]
