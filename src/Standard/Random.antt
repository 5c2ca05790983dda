-- ===== src/Standard/Random.antt =====
-- The range of randomRange.
use tp2_so_g.Base.{
  ℕ, ◌≡◌, ◌-◌, ◌+◌, ◌*◌, ◌/◌, ◌%◌, ◌^◌, ◌<◌, ◌≤◌, arith, true, inl, inr, Bool-cases, ==→eq,
}
use tp2_so_g.Base.{◌==◌, if◌then◌else◌, ltb}
use native.Mathlib.Nat.{mul-le-mul, mul-le-mul_right}
use tp2_so_g.Standard.{random_range}

-- The scaled number fits 31 bits, so the cast keeps it.
cast-keeps :
    (low scaled : ℕ)
    → low < 2 ^ 31
    → scaled ≤ 65535 * (2 ^ 31 - 1)
    → (low
          + (let word = scaled % 2 ^ 64 / 65535 % 2 ^ 32 in
              if ltb word (2 ^ 31) then word else word + (2 ^ 64 - 2 ^ 32)))
        % 2 ^ 64
      ≡ low + scaled / 65535
cast-keeps low scaled l h =
    let w : scaled % 2 ^ 64 / 65535 % 2 ^ 32 ≡ scaled / 65535 = omega (arith, h) in
    let small : ltb (scaled / 65535) (2 ^ 31) ≡ true = ground (arith, h) in
    rw (w, small) (omega (arith, l, h))

-- What randomRange computes for bounds that fit an `int`.
random_range-value :
    (next low high : ℕ)
    → next ≤ 65535
    → low ≤ high
    → high < 2 ^ 31 - 1
    → random_range next low high ≡ low + next * (high - low + 1) / 65535
unfolding random_range
random_range-value next low high n l h =
    let r : ((high + (2 ^ 64 - low)) % 2 ^ 64 + 1) % 2 ^ 64 ≡ high - low + 1 =
      omega (arith, l, h) in
    let bound : high - low + 1 ≤ 2 ^ 31 - 1 = omega (arith, h) in
    rw r (cast-keeps low (next * (high - low + 1)) (omega (arith, l, h)) (mul-le-mul n bound))

-- The scaled number is at most the range, and is the range for 65535 only.
scaled-bounds :
    (next range : ℕ)
    → next ≤ 65535
    → 0 < range
    → if next == 65535 then next * range / 65535 ≡ range else next * range / 65535 < range
scaled-bounds next range n p = elim (Bool-cases (next == 65535)) [
  | inl e ↦ rw e (rw (==→eq next 65535 e) (omega arith))
  | inr e ↦
      let less : next ≤ 65534 = ground (arith, e, n) in
      let product = mul-le-mul_right range less in rw e (omega (arith, product, p))
]

-- For bounds from 0 to 2^31 - 2, the lower one not above the upper one, and a random number of 16
-- bits, randomRange stays between the bounds, except that it returns the upper bound plus one when
-- randomNext returns 65535.
pub random_range-bounds :
    (next low high : ℕ)
    → next ≤ 65535
    → low ≤ high
    → high < 2 ^ 31 - 1
    → let r = random_range next low high in
      (low ≤ r) × (if next == 65535 then r ≡ high + 1 else r ≤ high)
random_range-bounds next low high n l h =
    let value = random_range-value next low high n l h in
    let scaled = scaled-bounds next (high - low + 1) n (omega arith) in
    (omega (arith, value), ground (arith, value, scaled, l))
