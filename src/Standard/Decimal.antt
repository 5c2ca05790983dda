-- ===== src/Standard/Decimal.antt =====
-- numToString, read back by stringToInt.
use tp2_so_g.Base.{
  ℕ, zero, suc, ◌+◌, ◌-◌, ◌*◌, ◌/◌, ◌%◌, ◌^◌, ◌<◌, ◌≡◌, ◌≢◌, refl, sym, subst, ◌∙◌, Bool, true,
  false, none, some, List, [], ◌∷◌, arith, Bool-cases, ltb→lt, ==→eq, inl, inr,
}
use native.Mathlib.Nat.{pow-suc}
use tp2_so_g.Base.{ltb, ◌==◌, if◌then◌else◌}
use tp2_so_g.Standard.{
  is_number, negate64, push_digits, num_to_string, read_digits, read_signed, string_to_int,
}

-- A row of digits that continues as `stack` does after `number` is read.
abbrev pub Reads : ℕ → List ℕ → List ℕ → Type 0
Reads number stack digits =
    (c : ℕ) × ((s : List ℕ) × (digits ≡ c ∷ s)
      × (is_number c ≡ true)
      × (read_digits 0 digits ≡ read_digits number stack))

read_digits-push :
    (number : ℕ) (stack : List ℕ)
    → number < 2 ^ 64
    → read_digits (number / 10) ((number % 10 + b'0') ∷ stack) ≡ read_digits number stack
unfolding read_digits
read_digits-push number stack h =
    let w : (number / 10 * 10 + (number % 10 + b'0' - b'0')) % 2 ^ 64 ≡ number = omega (arith, h) in
    let d : is_number (number % 10 + b'0') ≡ true = ground arith in rw (d, w) refl

push_digits-last :
    (room number : ℕ) (stack : List ℕ)
    → (number / 10 == 0) ≡ true
    → number < 2 ^ 64
    → (digits : List ℕ) × (push_digits (suc room) number stack ≡ some digits)
      × Reads number stack digits
unfolding push_digits
push_digits-last room number stack e w = (
  (number % 10 + b'0') ∷ stack,
  rw e refl,
  (
    number % 10 + b'0',
    (
      stack,
      refl,
      ground arith,
      subst (λ q. read_digits q ((number % 10 + b'0') ∷ stack) ≡ read_digits number stack)
          (==→eq (number / 10) 0 e) (read_digits-push number stack w),
    ),
  ),
)

push_digits-Reads :
    (room number : ℕ) (stack : List ℕ)
    → number < 10 ^ suc room
    → number < 2 ^ 64
    → (digits : List ℕ) × (push_digits (suc room) number stack ≡ some digits)
      × Reads number stack digits
unfolding push_digits
push_digits-Reads zero number stack h w =
    push_digits-last zero number stack (ground (arith, h, pow-suc 10 0)) w
push_digits-Reads (suc room) number stack h w =
    let shorter : number / 10 < 10 ^ suc room = omega (arith, h, pow-suc 10 (suc room)) in
    let (digits, p, (c, (s, e, d, r))) =
      push_digits-Reads room (number / 10) ((number % 10 + b'0') ∷ stack) shorter
        (omega (arith, w)) in
    elim (Bool-cases (number / 10 == 0)) [
      | inl t ↦ push_digits-last (suc room) number stack t w
      | inr t ↦ (digits, rw t p, (c, (s, e, d, r ∙ read_digits-push number stack w)))
    ]

-- What numToString prints of a number below 2^63.
printed :
    (number : ℕ)
    → number < 2 ^ 63
    → (digits : List ℕ) × (push_digits 20 number [] ≡ some digits) × Reads number [] digits
printed number h = push_digits-Reads 19 number [] (omega (arith, h)) (omega (arith, h))

read_signed-Reads :
    (negative : Bool) (number : ℕ) (digits : List ℕ)
    → Reads number [] digits
    → read_signed negative digits ≡ (if negative then negate64 number else number)
unfolding read_signed read_digits
read_signed-Reads negative number digits (c, (s, e, d, r)) =
    subst
      (λ o.
        (elim o [ none ↦ 2 ^ 64 - 1 | some out ↦ if negative then negate64 out else out ])
        ≡ (if negative then negate64 number else number))
      (sym r) refl

string_to_int-digits :
    (number : ℕ) (digits : List ℕ) → Reads number [] digits → string_to_int digits ≡ number
unfolding string_to_int
string_to_int-digits number digits (c, (s, e, d, r)) =
    let whole =
      read_signed-Reads false number (c ∷ s)
        (c, (s, refl, d, subst (λ t. read_digits 0 t ≡ read_digits number []) e r)) in
    let plain : (c == b'-') ≡ false = ground (arith, d) in
    subst (λ t. string_to_int t ≡ number) (sym e) (rw plain whole)

num_to_string-positive :
    (number : ℕ) (digits : List ℕ)
    → ltb number (2 ^ 63) ≡ true
    → push_digits 20 number [] ≡ some digits
    → num_to_string number ≡ some digits
unfolding num_to_string
num_to_string-positive number digits e p =
    let other : (number == 2 ^ 63) ≡ false = ground (arith, e) in ground (arith, other, e, p)

num_to_string-negative :
    (number : ℕ) (digits : List ℕ)
    → ltb number (2 ^ 63) ≡ false
    → number ≢ 2 ^ 63
    → push_digits 20 (negate64 number) [] ≡ some digits
    → num_to_string number ≡ some (b'-' ∷ digits)
unfolding num_to_string
num_to_string-negative number digits e ne p =
    let other : (number == 2 ^ 63) ≡ false = ground (arith, ne) in ground (arith, other, e, p)

-- Every number but the least one of 64 bits is printed within the 20 places, and is read back.
pub string_to_int-num_to_string :
    (number : ℕ)
    → number < 2 ^ 64
    → number ≢ 2 ^ 63
    → (s : List ℕ) × (num_to_string number ≡ some s) × (string_to_int s ≡ number)
unfolding string_to_int
string_to_int-num_to_string number h ne = elim (Bool-cases (ltb number (2 ^ 63))) [
  | inl e ↦
      let (digits, p, r) = printed number (ltb→lt number (2 ^ 63) e) in
      (digits, num_to_string-positive number digits e p, string_to_int-digits number digits r)
  | inr e ↦
      let small : negate64 number < 2 ^ 63 = ground (arith, e, h, ne) in
      let (digits, p, r) = printed (negate64 number) small in
      (
        b'-' ∷ digits,
        num_to_string-negative number digits e ne p,
        read_signed-Reads true (negate64 number) digits r ∙ ground (arith, e, h),
      )
]
