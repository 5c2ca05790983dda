-- ===== src/Text/Hex.antt =====
-- uint64ToHex, read back.
use tp2_so_g.Base.{
  ℕ, zero, suc, ◌+◌, ◌-◌, ◌*◌, ◌/◌, ◌%◌, ◌^◌, ◌<◌, ◌≡◌, refl, ap, ◌∙◌, true, Bool, ◌&&◌, ◌||◌, List,
  [], ◌∷◌, ◌++◌, arith, get_or, passes_below, passes_below_lem, ==→eq, ◌==◌, if◌then◌else◌, leb,
  length,
}
use native.Mathlib.Nat.{mul_comm, pow-suc, mod-lt, mod-eq_of_lt, add-mul-mod_self_left, div-add-mod}
use tp2_so_g.Base.{sym, ◌≤◌}
use tp2_so_g.Text.{hex_chars, hex_digits, uint64_to_hex}

-- The value of a hexadecimal digit.
abbrev pub digit_value : ℕ → ℕ
digit_value c = if leb c b'9' then c - b'0' else c - b'A' + 10

-- The number that a row of digits stands for.
unfoldable pub hex_value : ℕ → List ℕ → ℕ
hex_value acc [] = acc
hex_value acc (c ∷ s) = hex_value (acc * 16 + digit_value c) s

digit_table : passes_below (λ d. digit_value (get_or hex_chars d 0) == d) 16 ≡ true
unfolding passes_below
digit_table = refl

digit_of_nibble : (d : ℕ) → d < 16 → digit_value (get_or hex_chars d 0) ≡ d
digit_of_nibble d h = ==→eq _ d (passes_below_lem _ 16 digit_table h)

-- One of 0 to 9 and A to F.
abbrev pub is_hex_digit : ℕ → Bool
is_hex_digit c = (leb b'0' c && leb c b'9') || (leb b'A' c && leb c b'F')

abbrev pub all_hex : List ℕ → Bool
all_hex [] = true
all_hex (c ∷ s) = is_hex_digit c && all_hex s

hex_table : passes_below (λ d. is_hex_digit (get_or hex_chars d 0)) 16 ≡ true
unfolding passes_below
hex_table = refl

hex_of_nibble : (d : ℕ) → d < 16 → is_hex_digit (get_or hex_chars d 0) ≡ true
hex_of_nibble d h = passes_below_lem _ 16 hex_table h

hex_digits-all : (i value : ℕ) → all_hex (hex_digits i value) ≡ true
unfolding hex_digits
hex_digits-all zero value = refl
hex_digits-all (suc i) value =
    let d = value / 2 ^ (i * 4) % 16 in rw (hex_of_nibble d (omega arith)) (hex_digits-all i value)

suc_four : (i : ℕ) → suc i * 4 ≡ suc (suc (suc (suc (i * 4))))
suc_four i = omega arith

sixteen_pos : (i : ℕ) → 0 < 16 ^ i
sixteen_pos zero = omega arith
sixteen_pos (suc i) = omega (arith, pow-suc 16 i, sixteen_pos i)

pow-sixteen : (i : ℕ) → 2 ^ (i * 4) ≡ 16 ^ i
pow-sixteen zero = refl
pow-sixteen (suc i) =
    let e : 2 ^ (suc i * 4) ≡ 2 ^ (i * 4) * 16 = simp (suc_four, pow-suc) (omega arith) in
    e ∙ ap (λ t. t * 16) (pow-sixteen i) ∙ sym (pow-suc 16 i)

-- The digits of a number, one more in front.
mod-split : (v m : ℕ) → 0 < m → v % (16 * m) ≡ v / m % 16 * m + v % m
mod-split v m h =
    let q = v / m in
    let x = q % 16 * m + v % m in
    let small : x < 16 * m = ground (arith, mod-lt v h, mul-le q m) in
    let whole : v ≡ x + 16 * m * (q / 16) =
      omega (arith, div-add-mod v m, ap (λ (t : ℕ). t * m) (div-add-mod q 16)) in
    ap (λ t. t % (16 * m)) whole ∙ add-mul-mod_self_left x (16 * m) (q / 16) ∙ mod-eq_of_lt small
  where
    mul-le : (q m : ℕ) → q % 16 * m ≤ 15 * m
    mul-le q m = grind arith

hex_value-digits :
    (i acc value : ℕ) → hex_value acc (hex_digits i value) ≡ acc * 16 ^ i + value % 16 ^ i
unfolding hex_value hex_digits
hex_value-digits zero acc value = omega arith
hex_value-digits (suc i) acc value =
    let d = value / 16 ^ i % 16 in
    rw (pow-sixteen i, digit_of_nibble d (omega arith))
      (hex_value-digits i (acc * 16 + d) value
        ∙ omega (
          arith,
          pow-suc 16 i,
          mod-split value (16 ^ i) (sixteen_pos i),
          ap (λ (t : ℕ). acc * t) (pow-suc 16 i),
          ap (λ (t : ℕ). value % t) (pow-suc 16 i ∙ mul_comm (16 ^ i) 16),
        ))

-- uint64ToHex writes "0x", sixteen bytes out of 0 to 9 and A to F, whose number in base 16 is
-- the value, and a NUL.
pub uint64_to_hex-value :
    (value : ℕ)
    → value < 2 ^ 64
    → (digits : List ℕ) × (uint64_to_hex value ≡ b'0' ∷ b'x' ∷ (digits ++ 0 ∷ []))
      × (length digits ≡ 16)
      × (all_hex digits ≡ true)
      × (hex_value 0 digits ≡ value)
unfolding uint64_to_hex
uint64_to_hex-value value h = (
  hex_digits 16 value,
  refl,
  unfold hex_digits in refl,
  hex_digits-all 16 value,
  hex_value-digits 16 0 value ∙ omega arith,
)
