-- ===== src/Standard.antt =====
-- Userland/SampleCodeModule/cstandard.c: the conversions and the tests on characters.
--
-- A `long` or an `int64_t` is its 64-bit pattern, so that a negative number is 2^63 or more; a `char`
-- is a byte, and a C string the list of the bytes before its NUL.
pub mod Decimal
pub mod Letters
pub mod Random
use tp2_so_g.Base.{
  ℕ, zero, suc, ◌+◌, ◌-◌, ◌*◌, ◌/◌, ◌%◌, ◌^◌, Bool, true, false, not, ◌&&◌, ◌||◌, Option, none,
  some, List, [], ◌∷◌,
}
use tp2_so_g.Base.{ltb, leb, ◌==◌, if◌then◌else◌}

abbrev pub is_number : ℕ → Bool
is_number c = leb b'0' c && leb c b'9'

abbrev pub is_lower : ℕ → Bool
is_lower c = leb b'a' c && leb c b'z'

abbrev pub is_upper : ℕ → Bool
is_upper c = leb b'A' c && leb c b'Z'

abbrev pub is_letter : ℕ → Bool
is_letter c = is_lower c || is_upper c

abbrev pub to_lower : ℕ → ℕ
to_lower c = if is_upper c then c + (b'a' - b'A') else c

-- `'A'-'a'` is negative.
abbrev pub to_upper : ℕ → ℕ
to_upper c = if is_lower c then c - (b'a' - b'A') else c

abbrev pub is_alnum : ℕ → Bool
is_alnum c = is_letter c || is_number c

-- `number * -1`
abbrev pub negate64 : ℕ → ℕ
negate64 n = (2 ^ 64 - n) % 2 ^ 64

-- The first loop of numToString: the digits pushed on `stack`, the last one first. `room` is what is
-- left of the 20 places, and a push without room has no result.
unfoldable pub push_digits : ℕ → ℕ → List ℕ → Option (List ℕ)
push_digits zero number stack = none
push_digits (suc room) number stack =
    let pushed = (number % 10 + b'0') ∷ stack in
    let rest = push_digits room (number / 10) pushed in
    if number / 10 == 0 then some pushed else rest

-- The number whose negation overflows has no result.
unfoldable pub num_to_string : ℕ → Option (List ℕ)
num_to_string number =
    if number == 2 ^ 63
    then none
    else (if ltb number (2 ^ 63)
        then push_digits 20 number []
        else elim (push_digits 20 (negate64 number) []) [
          | none ↦ none
          | some digits ↦ some (b'-' ∷ digits)
        ])

-- The loop of stringToInt; `none` is its early return.
unfoldable pub read_digits : ℕ → List ℕ → Option ℕ
read_digits out [] = some out
read_digits out (c ∷ s) =
    let rest = read_digits ((out * 10 + (c - b'0')) % 2 ^ 64) s in
    if is_number c then rest else none

unfoldable pub read_signed : Bool → List ℕ → ℕ
read_signed negative s = elim (read_digits 0 s) [
  | none ↦ 2 ^ 64 - 1
  | some out ↦ if negative then negate64 out else out
]

unfoldable pub string_to_int : List ℕ → ℕ
string_to_int [] = read_signed false []
string_to_int (c ∷ s) =
    let positive = read_signed false (c ∷ s) in
    let negative = read_signed true s in if c == b'-' then negative else positive

abbrev pub only_numbers : List ℕ → Bool
only_numbers [] = true
only_numbers (c ∷ s) = let rest = only_numbers s in if is_number c then rest else false

abbrev pub is_numerical_string : List ℕ → Bool
is_numerical_string [] = false
is_numerical_string (c ∷ s) = only_numbers (c ∷ s)

abbrev pub random_max : ℕ
random_max = 65535

-- `next` is what randomNext returns. The bounds are `int64_t` patterns, and the cast of the scaled number
-- to `int` keeps 32 bits with their sign.
unfoldable pub random_range : ℕ → ℕ → ℕ → ℕ
random_range next low high =
    let range = ((high + (2 ^ 64 - low)) % 2 ^ 64 + 1) % 2 ^ 64 in
    let scaled = next * range % 2 ^ 64 / random_max in
    let word = scaled % 2 ^ 32 in
    let cast = if ltb word (2 ^ 31) then word else word + (2 ^ 64 - 2 ^ 32) in (low + cast) % 2 ^ 64
