-- ===== src/Tests/Numbers.antt =====
-- The conversions of the user library at fixed numbers.
use tp2_so_g.Base.{ℕ, ◌≡◌, ◌-◌, ◌^◌, refl, some, List, [], ◌∷◌, arith}
use tp2_so_g.Standard.{push_digits, num_to_string, string_to_int}
use tp2_so_g.Standard.Decimal.{string_to_int-num_to_string}
use tp2_so_g.Standard.{random_range}
use tp2_so_g.Standard.Random.{random_range-bounds}
use tp2_so_g.Base.{◌==◌, if◌then◌else◌, ◌≤◌, ◌+◌}

minus_42 : num_to_string (2 ^ 64 - 42) ≡ some (b'-' ∷ b'4' ∷ b'2' ∷ [])
unfolding num_to_string push_digits
minus_42 = refl

string_to_int-num_to_string_example :
    (s : List ℕ) × (num_to_string (2 ^ 64 - 42) ≡ some s) × (string_to_int s ≡ 2 ^ 64 - 42)
string_to_int-num_to_string_example =
    string_to_int-num_to_string (2 ^ 64 - 42) (omega arith) (omega arith)

random_range-bounds_example :
    let r = random_range 65535 1 6 in (1 ≤ r) × (if 65535 == 65535 then r ≡ 6 + 1 else r ≤ 6)
random_range-bounds_example =
    random_range-bounds 65535 1 6 (omega arith) (omega arith) (omega arith)
