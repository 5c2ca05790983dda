-- ===== src/Tests/Slots.antt =====
-- One writer and one reader share the slot.
use tp2_so_g.Base.{ℕ, ◌≡◌, ◌≤◌, refl, true, ◌++◌, arith, ◌==◌, if◌then◌else◌}
use tp2_so_g.Mvar.{
  Phase, wants_free, wants_full, Mvar, start_mvar, Step, Run, stay, go, wait_free, wait_to_write,
  write_slot, post_written,
}
use tp2_so_g.Mvar.Order.{rests, excludes, slot_holds, Run-keeps}
use tp2_so_g.Mvar.Progress.{Run-steps}

-- Worker 0 writes, the others read.
abbrev workers : ℕ → Phase
workers v = if v == 0 then wants_free else wants_full

workers-rests : (v : ℕ) → rests (workers v) ≡ true
workers-rests v = ground arith

-- Worker 0 has written `A`.
has_written : (m : Mvar) × Run (start_mvar workers) m
has_written = (
  _,
  go
      (go (go (go stay (wait_free 0 0 refl refl)) (wait_to_write 0 0 refl refl))
        (write_slot 0 b'A' refl))
      (post_written 0 refl),
)

Run-keeps_example :
    let m = has_written.0 in
    ((n : ℕ) × (n ≤ 1) × (m.written ≡ m.taken ++ slot_holds n m.slot_value))
    × ((v w : ℕ) → excludes (m.worker v) ≡ 1 → excludes (m.worker w) ≡ 1 → v ≡ w)
Run-keeps_example = Run-keeps workers has_written.0 workers-rests has_written.1

Run-steps_example : (m' : Mvar) × Step has_written.0 m'
Run-steps_example = Run-steps workers has_written.0 0 1 workers-rests refl refl has_written.1
