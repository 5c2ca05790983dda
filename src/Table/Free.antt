-- ===== src/Table/Free.antt =====
-- findFreePid.
use tp2_so_g.Base.{
  ℕ, zero, suc, ◌+◌, ◌≤◌, ◌<◌, ◌≡◌, ◌⊎◌, inl, inr, true, false, arith, subst, sym, refl, Bool-cases,
}
use tp2_so_g.Kernel.{Kernel, no_pid, max_processes}
use tp2_so_g.Table.{is_used, free_from, find_free_pid}

-- The first slot from `i` to `top` that is free, or -1 when none is.
abbrev pub FirstFree : ℕ → ℕ → Kernel → ℕ → Type 0
FirstFree i top k p =
    ((p < top) × (is_used p k ≡ false) × ((j : ℕ) → i ≤ j → j < p → is_used j k ≡ true))
    ⊎ ((p ≡ no_pid) × ((j : ℕ) → i ≤ j → j < top → is_used j k ≡ true))

free_from-FirstFree : (n i top : ℕ) (k : Kernel) → i + n ≡ top → FirstFree i top k (free_from n i k)
unfolding free_from
free_from-FirstFree zero i top k e = inr (ground arith, λ j a b. absurd (omega (arith, a, b, e)))
free_from-FirstFree (suc n) i top k e = elim (Bool-cases (is_used i k)) [
  | inl u ↦
      subst (FirstFree i top k) (later u)
        (used (free_from n (suc i) k) u (free_from-FirstFree n (suc i) top k (omega (arith, e))))
  | inr u ↦
      subst (FirstFree i top k) (here u)
        (inl (omega (arith, e), u, λ j a b. absurd (omega (arith, a, b))))
]
  where
    later : is_used i k ≡ true → free_from n (suc i) k ≡ free_from (suc n) i k
    later u = rw u refl

    here : is_used i k ≡ false → i ≡ free_from (suc n) i k
    here u = rw u refl

    first : (j : ℕ) → i ≤ j → (j ≡ i) ⊎ (suc i ≤ j)
    first j a = ground (arith, a)

    extend :
        (q : ℕ)
        → is_used i k ≡ true
        → ((j : ℕ) → suc i ≤ j → j < q → is_used j k ≡ true)
        → (j : ℕ) → i ≤ j
        → j < q
        → is_used j k ≡ true
    extend q u f j a b = elim (first j a) [
      | inl eq ↦ subst (λ t. is_used t k ≡ true) (sym eq) u
      | inr lt ↦ f j lt b
    ]

    used : (q : ℕ) → is_used i k ≡ true → FirstFree (suc i) top k q → FirstFree i top k q
    used q u (inl (a, b, f)) = inl (a, b, extend q u f)
    used q u (inr (a, f)) = inr (a, extend top u f)

-- findFreePid returns the least pid whose slot is free, and -1 exactly when all 64 are in use.
pub find_free_pid-FirstFree : (k : Kernel) → FirstFree 0 max_processes k (find_free_pid k)
unfolding find_free_pid
find_free_pid-FirstFree k = free_from-FirstFree 64 0 64 k (omega arith)
