-- ===== src/Buddy/Blocks.antt =====
-- The allocated blocks of a tree of memoryManagerBuddy.c: where they lie.
use tp2_so_g.Base.{ℕ, zero, suc, ◌+◌, ◌^◌, ◌≡◌, ◌≤◌, ◌⊎◌, ap, true, false, arith, inl, inr}
use tp2_so_g.Buddy.Trees.{Tree, leaf, fork, used, hit}

hit_at : (off o a k : ℕ) → 1 ≤ hit off o a k → (off ≡ a) × (o ≡ k)
hit_at off o a k h = ground (arith, h)

either : (x y : ℕ) → 1 ≤ x + y → (1 ≤ x) ⊎ (1 ≤ y)
either x y h = ground (arith, h)

-- The block of order `k` at `a` lies in the area of order `o` at `off`.
abbrev pub IsInside : ℕ → ℕ → ℕ → ℕ → Type 0
IsInside off o a k = (off ≤ a) × (a + 2 ^ k ≤ off + 2 ^ o)

pub used-IsInside : (o off : ℕ) (t : Tree) (a k : ℕ) → 1 ≤ used o off t a k → IsInside off o a k
used-IsInside o off (leaf i true) a k h = absurd (omega (arith, h))
used-IsInside o off (leaf i false) a k h =
    let (x, y) = hit_at off o a k h in
    let z : 2 ^ o ≡ 2 ^ k = ap (λ n. 2 ^ n) y in (omega arith, omega arith)
used-IsInside zero off (fork i l r) a k h = absurd (omega (arith, h))
used-IsInside (suc o) off (fork i l r) a k h =
    elim (either (used o off l a k) (used o (off + 2 ^ o) r a k) h) [
      | inl u ↦ let (x, y) = used-IsInside o off l a k u in (omega arith, omega arith)
      | inr u ↦ let (x, y) = used-IsInside o (off + 2 ^ o) r a k u in (omega arith, omega arith)
    ]

-- Two blocks are the same or do not overlap.
abbrev pub AreApart : ℕ → ℕ → ℕ → ℕ → Type 0
AreApart a k a' k' = ((a ≡ a') × (k ≡ k')) ⊎ ((a + 2 ^ k ≤ a') ⊎ (a' + 2 ^ k' ≤ a))

pub used-AreApart :
    (o off : ℕ) (t : Tree) (a k a' k' : ℕ)
    → 1 ≤ used o off t a k
    → 1 ≤ used o off t a' k'
    → AreApart a k a' k'
used-AreApart o off (leaf i true) a k a' k' h h' = absurd (omega (arith, h))
used-AreApart o off (leaf i false) a k a' k' h h' =
    let (x, y) = hit_at off o a k h in
    let (x', y') = hit_at off o a' k' h' in inl (omega arith, omega arith)
used-AreApart zero off (fork i l r) a k a' k' h h' = absurd (omega (arith, h))
used-AreApart (suc o) off (fork i l r) a k a' k' h h' =
    elim (either (used o off l a k) (used o (off + 2 ^ o) r a k) h) [
      | inl u ↦ elim (either (used o off l a' k') (used o (off + 2 ^ o) r a' k') h') [
        | inl v ↦ used-AreApart o off l a k a' k' u v
        | inr v ↦
            let (x, y) = used-IsInside o off l a k u in
            let (x', y') = used-IsInside o (off + 2 ^ o) r a' k' v in inr (inl (omega arith))
      ]
      | inr u ↦ elim (either (used o off l a' k') (used o (off + 2 ^ o) r a' k') h') [
        | inl v ↦
            let (x, y) = used-IsInside o (off + 2 ^ o) r a k u in
            let (x', y') = used-IsInside o off l a' k' v in inr (inr (omega arith))
        | inr v ↦ used-AreApart o (off + 2 ^ o) r a k a' k' u v
      ]
    ]

-- No block is allocated twice.
pub used_once : (o off : ℕ) (t : Tree) (a k : ℕ) → used o off t a k ≤ 1
used_once o off (leaf i true) a k = omega arith
used_once o off (leaf i false) a k = ground arith
used_once zero off (fork i l r) a k = omega arith
used_once (suc o) off (fork i l r) a k =
    elim (both_or_one (used o off l a k) (used o (off + 2 ^ o) r a k) (used_once o off l a k)
      (used_once o (off + 2 ^ o) r a k)) [
        | inl small ↦ small
        | inr (u, v) ↦
            let (x, y) = used-IsInside o off l a k u in
            let (x', y') = used-IsInside o (off + 2 ^ o) r a k v in
            absurd (overlap (2 ^ k) off (2 ^ o) a (positive k) y x')
      ]
  where
    both_or_one : (x y : ℕ) → x ≤ 1 → y ≤ 1 → (x + y ≤ 1) ⊎ ((1 ≤ x) × (1 ≤ y))
    both_or_one x y a b = ground (arith, a, b)

    overlap : (w off s a : ℕ) → 1 ≤ w → a + w ≤ off + s → off + s ≤ a → ⊥
    overlap w off s a p q r = omega arith

    positive : (k : ℕ) → 1 ≤ 2 ^ k
    positive zero = omega arith
    positive (suc k) = omega (arith, positive k)
