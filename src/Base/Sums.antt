-- ===== src/Base/Sums.antt =====
-- Sums over the indices below a bound.
use Prim.Native.Nat.{ℕ, zero, suc, ◌+◌, ◌≤◌, ◌<◌}
use mathlib.Core.Path.{◌≡◌, refl, ap, sym}
use mathlib.Core.Logic.{◌≢◌, ◌⊎◌, inl, inr}
use native.Mathlib.Omega.{arith}

unfoldable pub sum_below : (ℕ → ℕ) → ℕ → ℕ
sum_below f zero = 0
sum_below f (suc n) = sum_below f n + f n

last_or_before : (a n : ℕ) → a < suc n → (a ≡ n) ⊎ (a < n)
last_or_before a n l = ground arith

pub sum_below-same :
    (f g : ℕ → ℕ) (n : ℕ) → ((i : ℕ) → i < n → f i ≡ g i) → sum_below f n ≡ sum_below g n
unfolding sum_below
sum_below-same f g zero h = refl
sum_below-same f g (suc n) h = omega (arith, h n, sum_below-same f g n (λ i l. h i (omega arith)))

-- Two functions that agree but at `a`.
pub sum_below-except :
    (f g : ℕ → ℕ) (a n : ℕ)
    → ((i : ℕ) → a ≢ i → f i ≡ g i)
    → a < n
    → sum_below f n + g a ≡ sum_below g n + f a
unfolding sum_below
sum_below-except f g a zero h l = absurd (omega arith)
sum_below-except f g a (suc n) h l = elim (last_or_before a n l) [
  | inl e ↦
      let same = sum_below-same f g n (λ i b. h i (omega arith)) in
      let at_f : f a ≡ f n = ap f e in
      let at_g : g a ≡ g n = ap g e in omega (arith, same, at_f, at_g)
  | inr b ↦ omega (arith, sum_below-except f g a n h b, h n (omega arith))
]

pub sum_below-more :
    (f : ℕ → ℕ) (n m : ℕ) → n ≤ m → ((i : ℕ) → n ≤ i → f i ≡ 0) → sum_below f m ≡ sum_below f n
unfolding sum_below
sum_below-more f n zero l h = let e : 0 ≡ n = omega arith in ap (sum_below f) e
sum_below-more f n (suc m) l h = elim (last_or_before n (suc m) (omega arith)) [
  | inl e ↦ ap (sum_below f) (sym e)
  | inr b ↦ omega (arith, sum_below-more f n m (omega arith) h, h m (omega arith))
]

pub sum_below-zero : (f : ℕ → ℕ) (n i : ℕ) → sum_below f n ≡ 0 → i < n → f i ≡ 0
unfolding sum_below
sum_below-zero f zero i e l = absurd (omega arith)
sum_below-zero f (suc n) i e l = elim (last_or_before i n l) [
  | inl a ↦ let at : f i ≡ f n = ap f a in omega arith
  | inr b ↦ sum_below-zero f n i (omega arith) b
]

pub sum_below-none : (f : ℕ → ℕ) (n : ℕ) → ((i : ℕ) → f i ≡ 0) → sum_below f n ≡ 0
unfolding sum_below
sum_below-none f zero h = refl
sum_below-none f (suc n) h = omega (arith, h n, sum_below-none f n h)
