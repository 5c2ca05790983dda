-- ===== src/Mvar/Progress.antt =====
-- The writers and the readers of mvar.c never wait for each other in a circle.
use tp2_so_g.Base.{ℕ, zero, suc, ◌≡◌, refl, ◌∙◌, inl, inr, Bool, true, false, arith}
use tp2_so_g.Mvar.{
  Phase, wants_free, has_free, writes, wrote, left_writing, wants_full, has_full, reads, has_read,
  left_reading, Mvar, start_mvar, Step, wait_free, wait_to_write, write_slot, post_written,
  post_full, wait_full, wait_to_read, read_slot, post_read, post_free, Run, stay, go,
}
use tp2_so_g.Mvar.Order.{rests, IsIdle, IsHeld, Run-InOrder, start-InOrder}

abbrev pub is_writer : Phase → Bool
is_writer wants_free = true
is_writer has_free = true
is_writer writes = true
is_writer wrote = true
is_writer left_writing = true
is_writer _ = false

-- A worker stays what it is.
Step-is_writer :
    {m m' : Mvar} (v : ℕ) → Step m m' → is_writer (m'.worker v) ≡ is_writer (m.worker v)
Step-is_writer v (wait_free w n p u) = ground (arith, p)
Step-is_writer v (wait_to_write w n p u) = ground (arith, p)
Step-is_writer v (write_slot w ch p) = ground (arith, p)
Step-is_writer v (post_written w p) = ground (arith, p)
Step-is_writer v (post_full w p) = ground (arith, p)
Step-is_writer v (wait_full w n p u) = ground (arith, p)
Step-is_writer v (wait_to_read w n p u) = ground (arith, p)
Step-is_writer v (read_slot w p) = ground (arith, p)
Step-is_writer v (post_read w p) = ground (arith, p)
Step-is_writer v (post_free w p) = ground (arith, p)

Run-is_writer : {m m' : Mvar} (v : ℕ) → Run m m' → is_writer (m'.worker v) ≡ is_writer (m.worker v)
Run-is_writer v stay = refl
Run-is_writer v (go r s) = Step-is_writer v s ∙ Run-is_writer v r

resting_writer : (p : Phase) → rests p ≡ true → is_writer p ≡ true → p ≡ wants_free
resting_writer wants_free r w = refl
resting_writer wants_full r w = absurd (ground (arith, w))
resting_writer _ r w = absurd (ground (arith, r))

resting_reader : (p : Phase) → rests p ≡ true → is_writer p ≡ false → p ≡ wants_full
resting_reader wants_full r w = refl
resting_reader wants_free r w = absurd (ground (arith, w))
resting_reader _ r w = absurd (ground (arith, r))

-- The worker with the unit of the slot can always go on.
held-steps : (w : ℕ) (m : Mvar) (p : Phase) → m.worker w ≡ p → IsHeld w m → (m' : Mvar) × Step m m'
held-steps w m wants_free e i = absurd (ground (arith, e, i.resting w))
held-steps w m has_free e i = (_, wait_to_write w 0 e (ground (arith, e, i.excl)))
held-steps w m writes e i = (_, write_slot w 0 e)
held-steps w m wrote e i = (_, post_written w e)
held-steps w m left_writing e i = (_, post_full w e)
held-steps w m wants_full e i = absurd (ground (arith, e, i.resting w))
held-steps w m has_full e i = (_, wait_to_read w 0 e (ground (arith, e, i.excl)))
held-steps w m reads e i = (_, read_slot w e)
held-steps w m has_read e i = (_, post_read w e)
held-steps w m left_reading e i = (_, post_free w e)

-- With at least one writer and one reader, some worker can go on in every state that is reached.
pub Run-steps :
    (worker : ℕ → Phase) (m : Mvar) (v r : ℕ)
    → ((u : ℕ) → rests (worker u) ≡ true)
    → is_writer (worker v) ≡ true
    → is_writer (worker r) ≡ false
    → Run (start_mvar worker) m
    → (m' : Mvar) × Step m m'
Run-steps worker m v r rest a b run = elim (Run-InOrder run (start-InOrder worker rest)) [
  | inl i ↦ idle i m.free_units refl
  | inr (w, i) ↦ held-steps w m (m.worker w) refl i
]
  where
    idle : IsIdle m → (n : ℕ) → m.free_units ≡ n → (m' : Mvar) × Step m m'
    idle i zero e =
        let at = resting_reader (m.worker r) (i.resting r) (Run-is_writer r run ∙ b) in
        (_, wait_full r 0 at (omega (arith, e, i.units)))
    idle i (suc n) e =
        let at = resting_writer (m.worker v) (i.resting v) (Run-is_writer v run ∙ a) in
        (_, wait_free v n at e)
