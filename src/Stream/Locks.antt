-- ===== src/Stream/Locks.antt =====
-- A mutex of a pipe: its unit is in the semaphore, or with one process.
use tp2_so_g.Base.{ℕ, suc, ◌≡◌, ◌⊎◌, Bool, true, false, update, arith, inl, inr, ◌==◌}
use tp2_so_g.Stream.{Phase}

-- `bit` tells who is in the section that the mutex guards.
abbrev pub Lock : (Phase → Bool) → ℕ → (ℕ → Phase) → Type 0
Lock bit units process =
    ((units ≡ 1) × ((v : ℕ) → bit (process v) ≡ false))
    ⊎ ((w : ℕ) × (units ≡ 0) × ((v : ℕ) → bit (process v) ≡ (w == v)))

pub keep-Lock :
    (bit : Phase → Bool) (units : ℕ) (f : ℕ → Phase) (w : ℕ) (p q : Phase)
    → f w ≡ p
    → bit p ≡ bit q
    → Lock bit units f
    → Lock bit units (update f w q)
keep-Lock bit units f w p q e same (inl (u, h)) = inl (u, λ v. ground (arith, e, same, h v, h w))
keep-Lock bit units f w p q e same (inr (o, u, h)) =
    inr (o, u, λ v. ground (arith, e, same, h v, h w))

pub take-Lock :
    (bit : Phase → Bool) (units n : ℕ) (f : ℕ → Phase) (w : ℕ) (q : Phase)
    → units ≡ suc n
    → bit q ≡ true
    → Lock bit units f
    → Lock bit n (update f w q)
take-Lock bit units n f w q e on (inl (u, h)) =
    inr (w, omega (arith, e, u), λ v. ground (arith, on, h v))
take-Lock bit units n f w q e on (inr (o, u, h)) = absurd (omega (arith, e, u))

pub drop-Lock :
    (bit : Phase → Bool) (units : ℕ) (f : ℕ → Phase) (w : ℕ) (p q : Phase)
    → f w ≡ p
    → bit p ≡ true
    → bit q ≡ false
    → Lock bit units f
    → Lock bit (suc units) (update f w q)
drop-Lock bit units f w p q e on off (inl (u, h)) = absurd (ground (arith, e, on, h w))
drop-Lock bit units f w p q e on off (inr (o, u, h)) =
    inl (omega (arith, u), λ v. ground (arith, e, on, off, h v, h w))

-- Two processes in the section are the same.
pub Lock-alone :
    (bit : Phase → Bool) (units : ℕ) (f : ℕ → Phase) (v w : ℕ)
    → Lock bit units f
    → bit (f v) ≡ true
    → bit (f w) ≡ true
    → v ≡ w
Lock-alone bit units f v w (inl (u, h)) a b = absurd (ground (arith, h v, a))
Lock-alone bit units f v w (inr (o, u, h)) a b = ground (arith, h v, h w, a, b)

-- Where the unit is not in the semaphore, somebody is in the section.
pub Lock-held :
    (bit : Phase → Bool) (units : ℕ) (f : ℕ → Phase)
    → Lock bit units f
    → ((n : ℕ) × (units ≡ suc n)) ⊎ ((w : ℕ) × (bit (f w) ≡ true))
Lock-held bit units f (inl (u, h)) = inl (0, u)
Lock-held bit units f (inr (o, u, h)) = inr (o, ground (arith, h o))
