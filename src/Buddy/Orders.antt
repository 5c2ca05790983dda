-- ===== src/Buddy/Orders.antt =====
-- log2Int and getOrder of memoryManagerBuddy.c.
use tp2_so_g.Base.{
  ℕ, zero, suc, ap, ◌+◌, ◌-◌, ◌*◌, ◌/◌, ◌^◌, ◌≡◌, ◌≤◌, ◌<◌, ◌⊎◌, refl, sym, subst, true, false,
  arith, inl, inr, leb, ltb, ◌&&◌, Bool-cases,
}
use tp2_so_g.Buddy.{Buddy, min_order, order_loop, get_order, log2_loop, log2_int, raise_order}

-- The order `r`, looked for from `from` on: no smaller one holds the size, and `r` does unless the search
-- was stopped at `top`.
pub record IsOrder (from size top r : ℕ) : Type 0 where
  pub above : from ≤ r
  pub below : r ≤ top
  pub least : (j : ℕ) → from ≤ j → j < r → 2 ^ j < size
  pub enough : (size ≤ 2 ^ r) ⊎ (r ≡ top)

stays :
    (order size top : ℕ)
    → order ≤ top
    → (ltb (2 ^ order) size && ltb order top) ≡ false
    → IsOrder order size top order
stays order size top l e = record {
  above = omega arith;
  below = l;
  least = λ j a b. absurd (omega arith);
  enough = ground (arith, e, l);
}

goes_on :
    (order size top : ℕ)
    → (ltb (2 ^ order) size && ltb order top) ≡ true
    → (2 ^ order < size) × (order < top)
goes_on order size top e = ground (arith, e)

same_or_more : (a b : ℕ) → a ≤ b → (a ≡ b) ⊎ (suc a ≤ b)
same_or_more a b l = ground arith

order_loop-IsOrder :
    (fuel order size top : ℕ)
    → order ≤ top
    → top ≤ order + fuel
    → IsOrder order size top (order_loop fuel order size top)
unfolding order_loop
order_loop-IsOrder zero order size top l f = record {
  above = omega arith;
  below = l;
  least = λ j a b. absurd (omega arith);
  enough = inr (omega arith);
}
order_loop-IsOrder (suc fuel) order size top l f =
    elim (Bool-cases (ltb (2 ^ order) size && ltb order top)) [
      | inl e ↦
          let (small, more) = goes_on order size top e in
          let rest = order_loop-IsOrder fuel (suc order) size top (omega arith) (omega arith) in
          rw e (record {
            above = omega (arith, rest.above);
            below = rest.below;
            least = λ j a b. elim (same_or_more order j a) [
              | inl s ↦ subst (λ j. 2 ^ j < size) s small
              | inr m ↦ rest.least j m b
            ];
            enough = rest.enough;
          })
      | inr e ↦ rw e (stays order size top l e)
    ]

-- getOrder returns, within its 64 rounds, the least order from MIN_ORDER on whose block holds the size,
-- but never more than maxOrder: a size beyond the whole memory gets maxOrder.
pub get_order-IsOrder :
    (size : ℕ) (b : Buddy)
    → min_order ≤ b.max_order
    → b.max_order ≤ 63
    → IsOrder min_order size b.max_order (get_order size b)
unfolding get_order
get_order-IsOrder size b l u = order_loop-IsOrder 64 min_order size b.max_order l (omega arith)

halved : (n : ℕ) → leb 2 n ≡ true → (1 ≤ n / 2) × (2 * (n / 2) ≤ n) × (n < 2 * (n / 2) + 2)
halved n e = ground (arith, e)

log2_loop-round :
    (fuel n : ℕ) → leb 2 n ≡ true → log2_loop (suc fuel) n ≡ suc (log2_loop fuel (n / 2))
unfolding log2_loop
log2_loop-round fuel n e = rw e refl

log2_loop-end : (fuel n : ℕ) → leb 2 n ≡ false → log2_loop (suc fuel) n ≡ 0
unfolding log2_loop
log2_loop-end fuel n e = rw e refl

-- r is the floor of the logarithm of n.
abbrev pub IsLog2 : ℕ → ℕ → Type 0
IsLog2 n r = (2 ^ r ≤ n) × (n < 2 ^ suc r)

doubled :
    (n r : ℕ) → (2 * (n / 2) ≤ n) × (n < 2 * (n / 2) + 2) → IsLog2 (n / 2) r → IsLog2 n (suc r)
doubled n r (b, c) (x, y) = (omega (arith, b, c, x, y), omega (arith, b, c, x, y))

only_one : (n : ℕ) → 1 ≤ n → n < 2 ^ 1 → IsLog2 n (log2_loop 0 n)
unfolding log2_loop
only_one n l u = (omega arith, omega arith)

log2_loop-IsLog2 : (fuel n : ℕ) → 1 ≤ n → n < 2 ^ suc fuel → IsLog2 n (log2_loop fuel n)
log2_loop-IsLog2 zero n l u = only_one n l u
log2_loop-IsLog2 (suc fuel) n l u = elim (Bool-cases (leb 2 n)) [
  | inl e ↦
      let (a, b, c) = halved n e in
      subst (IsLog2 n) (sym (log2_loop-round fuel n e))
        (doubled n (log2_loop fuel (n / 2)) (b, c) (log2_loop-IsLog2 fuel (n / 2) a (omega arith)))
  | inr e ↦ subst (IsLog2 n) (sym (log2_loop-end fuel n e)) (l, ground (arith, e))
]

-- log2Int of a word other than 0 is the floor of its logarithm, within 64 rounds.
pub log2_int-IsLog2 : (n : ℕ) → 1 ≤ n → n < 2 ^ 64 → IsLog2 n (log2_int n)
unfolding log2_int
log2_int-IsLog2 n l u = log2_loop-IsLog2 64 n l (omega arith)

-- The greatest order of mem_init: at most one that fits, and one more does not.
raise_order-bounds :
    (fuel order size capacity : ℕ)
    → order ≤ capacity
    → (order ≤ raise_order fuel order size capacity)
      × (raise_order fuel order size capacity ≤ capacity)
unfolding raise_order
raise_order-bounds zero order size capacity l = (omega arith, l)
raise_order-bounds (suc fuel) order size capacity l =
    elim (Bool-cases (leb (2 ^ suc order) size && ltb order capacity)) [
      | inl e ↦
          let m = room_above order size capacity e in
          let (x, y) = raise_order-bounds fuel (suc order) size capacity m in
          rw e (omega (arith, x), y)
      | inr e ↦ rw e (omega arith, l)
    ]
  where
    room_above :
        (order size capacity : ℕ)
        → (leb (2 ^ suc order) size && ltb order capacity) ≡ true
        → suc order ≤ capacity
    room_above order size capacity e = ground (arith, e)

log2_small : (n r : ℕ) → IsLog2 n r → 2 ^ 4 ≤ n → n < 2 ^ 63 → (4 ≤ r) × (r ≤ 63)
log2_small n r (x, y) l u = (at_least r (omega (arith, y, l)), at_most r (omega (arith, x, u)))
  where
    at_least : (r : ℕ) → 2 ^ 4 < 2 ^ suc r → 4 ≤ r
    at_least zero h = absurd (omega arith)
    at_least (suc zero) h = absurd (omega arith)
    at_least (suc (suc zero)) h = absurd (omega arith)
    at_least (suc (suc (suc zero))) h = absurd (omega arith)
    at_least (suc (suc (suc (suc r)))) h = omega arith

    grown : (d r : ℕ) → r ≡ 63 + d → 2 ^ 63 ≤ 2 ^ r
    grown zero r e =
        let at : r ≡ 63 = omega arith in
        let same : 2 ^ r ≡ 2 ^ 63 = ap (λ n. 2 ^ n) at in omega arith
    grown (suc d) zero e = absurd (omega arith)
    grown (suc d) (suc r) e = omega (arith, grown d r (omega arith))

    below_or : (r : ℕ) → (r ≤ 63) ⊎ (63 < r)
    below_or r = ground arith

    at_most : (r : ℕ) → 2 ^ r < 2 ^ 63 → r ≤ 63
    at_most r h = elim (below_or r) [
      | inl l ↦ l
      | inr m ↦ absurd (omega (arith, h, grown (r - 63) r (omega arith)))
    ]

-- The greatest order that mem_init sets, for a memory of 16 bytes to less than 2^63.
pub top_order-bounds :
    (size : ℕ)
    → 2 ^ 4 ≤ size
    → size < 2 ^ 63
    → (4 ≤ raise_order 64 min_order size (log2_int size))
      × (raise_order 64 min_order size (log2_int size) ≤ 63)
top_order-bounds size l u =
    let log = log2_int-IsLog2 size (omega arith) (omega arith) in
    let (x, y) = log2_small size (log2_int size) log l u in
    let (a, b) = raise_order-bounds 64 min_order size (log2_int size) x in (a, omega (arith, b, y))
