-- ===== src/Tests/Names.antt =====
-- Named semaphores over the demo system.
use tp2_so_g.Base.{ℕ, refl, true, false, none, some, List, [], ◌∷◌, arith}
use tp2_so_g.Base.Int.{pos}
use tp2_so_g.Text.{strlen, strcmp}
use tp2_so_g.Text.Compare.{NoNul}
use tp2_so_g.Shared.{Slot, Shared, find_slot, shared_sem_open, shared_sem_close}
use tp2_so_g.Shared.Calls.{
  IsOpenable, Opened, Closed, SemIsFree, shared_sem_open-Opened, shared_sem_close-Closed,
}
use tp2_so_g.Tests.Demo.{demo, available}

abbrev free_slot : Slot
free_slot = record { used = false; name = []; sem = none; ref_count = pos 0 }

-- "mv" with two references, and a free slot.
abbrev mv_slot : Slot
mv_slot = record { used = true; name = b'm' ∷ b'v' ∷ []; sem = some 8; ref_count = pos 2 }

abbrev demo_table : Shared
demo_table = record { kernel = demo; slots = mv_slot ∷ free_slot ∷ []; table_lock = false }

demo_table-IsOpenable : IsOpenable demo_table
unfolding find_slot strcmp
demo_table-IsOpenable = record {
  unlocked = refl;
  table = ((λ u. ((1, refl, (8, refl), omega arith), refl)), ((λ u. cc), tt));
}

abbrev mv_name : List ℕ
mv_name = b'm' ∷ b'v' ∷ []

mv_name-NoNul : NoNul mv_name
mv_name-NoNul = omega arith

shared_sem_open-Opened_example :
    Opened mv_name demo_table (shared_sem_open (some mv_name) (pos 1) demo_table)
unfolding strlen
shared_sem_open-Opened_example =
    shared_sem_open-Opened b'm' (b'v' ∷ []) mv_name-NoNul demo_table demo_table-IsOpenable (pos 1)
      (omega arith)

mv_free : SemIsFree mv_name demo_table
unfolding SemIsFree find_slot strcmp
mv_free s a e q = (available, ground arith, refl)

shared_sem_close-Closed_example :
    Closed mv_name demo_table (shared_sem_close (some mv_name) demo_table)
shared_sem_close-Closed_example =
    shared_sem_close-Closed b'm' (b'v' ∷ []) mv_name-NoNul demo_table demo_table-IsOpenable mv_free
