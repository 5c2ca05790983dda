-- ===== src/Table/Info.antt =====
-- getProcessInfo against getProcessesCount.
use tp2_so_g.Base.{ℕ, zero, suc, ◌≡◌, arith, length, min, Option-cases, inl, inr}
use tp2_so_g.Kernel.{Kernel}
use tp2_so_g.Table.{count_from, get_processes_count, info_from, get_process_info}

length-info_from :
    (n i left : ℕ) (k : Kernel) → length (info_from n i left k) ≡ min left (count_from n i k)
unfolding info_from count_from
length-info_from zero i left k = ground arith
length-info_from (suc n) i zero k = ground arith
length-info_from (suc n) i (suc left) k = elim (Option-cases (k.table i)) [
  | inl e ↦ ground (arith, e, length-info_from n (suc i) (suc left) k)
  | inr (p, e) ↦ ground (arith, e, length-info_from n (suc i) left k)
]

-- getProcessInfo fills in as many entries as there are processes, but no more than maxCount.
pub length-get_process_info :
    (max_count : ℕ) (k : Kernel)
    → length (get_process_info max_count k) ≡ min max_count (get_processes_count k)
unfolding get_process_info get_processes_count
length-get_process_info max_count k = length-info_from 64 0 max_count k
