-- ===== src/Keyboard/Keys.antt =====
-- getKeyPress: which keys are held, and which byte a key gives.
use tp2_so_g.Base.{
  ℕ, ◌+◌, ◌-◌, ◌<◌, ◌≡◌, refl, subst, Bool, true, false, not, ◌&&◌, ◌||◌, ◌%◌, arith, length,
  update, get_or, passes_below, passes_below_lem, ==→eq,
}
use tp2_so_g.Base.{◌==◌, if◌then◌else◌, ltb, leb}
use tp2_so_g.Keyboard.{
  Keyboard, is_pressed, is_alpha, bool_ne, normalized_code, key_value, get_key_press, lshift,
  rshift, capslock, scancode_to_ascii, shifted_scancode_to_ascii, table_size,
}

table_size-length : length scancode_to_ascii ≡ table_size
unfolding scancode_to_ascii
table_size-length = refl

shifted-length : length shifted_scancode_to_ascii ≡ table_size
unfolding shifted_scancode_to_ascii
shifted-length = refl

-- The key of a scancode: the lower 128 numbers without the prefix, and those from 127 on behind it. A
-- scancode from 128 on is that of the key 128 below, which goes up.
abbrev pub key_number : Bool → ℕ → ℕ
key_number prefix scancode =
    if prefix
    then (if ltb scancode 128 then scancode + 127 else scancode - 1)
    else (if ltb scancode 128 then scancode else scancode - 128)

letter_table :
    passes_below
      (λ c.
        not (is_alpha c)
        || (get_or shifted_scancode_to_ascii c 0 == get_or scancode_to_ascii c 0 - 32)
          && not (c == lshift)
          && not (c == rshift)
          && not (c == capslock))
      59
    ≡ true
unfolding passes_below scancode_to_ascii shifted_scancode_to_ascii
letter_table = refl

is_alpha-below : (c : ℕ) → is_alpha c ≡ true → c < 59
is_alpha-below c a = ground (arith, a)

-- What the tables say of a letter.
abbrev Letter : ℕ → Type 0
Letter c =
    (get_or shifted_scancode_to_ascii c 0 ≡ get_or scancode_to_ascii c 0 - 32)
    × ((c == lshift) ≡ false)
    × ((c == rshift) ≡ false)
    × ((c == capslock) ≡ false)

is_alpha-Letter : (c : ℕ) → is_alpha c ≡ true → Letter c
is_alpha-Letter c a =
    let row = passes_below_lem _ 59 letter_table (is_alpha-below c a) in
    let (s, l, r, k) =
      read (is_alpha c) (get_or shifted_scancode_to_ascii c 0 == get_or scancode_to_ascii c 0 - 32)
        a row in
    (==→eq _ _ s, l, r, k)
  where
    read :
        (alpha same : Bool)
        → alpha ≡ true
        → (not alpha || same && not (c == lshift) && not (c == rshift) && not (c == capslock))
          ≡ true
        → (same ≡ true)
          × ((c == lshift) ≡ false)
          × ((c == rshift) ≡ false)
          × ((c == capslock) ≡ false)
    read true true e row = (refl, ground (arith, row), ground (arith, row), ground (arith, row))
    read true false e row = absurd (ground (arith, row))
    read false same e row = absurd (ground (arith, e))

key_value-letter :
    (c : ℕ) (kb : Keyboard)
    → is_alpha c ≡ true
    → (key_value c kb).0 ≡ (
        if bool_ne (is_pressed lshift kb || is_pressed rshift kb) kb.caps_lock_active
        then get_or scancode_to_ascii c 0 - 32
        else get_or scancode_to_ascii c 0)
unfolding key_value
key_value-letter c kb a =
    let (up, l, r, k) = is_alpha-Letter c a in
    let small : ltb c 59 ≡ true = ground (arith, is_alpha-below c a) in
    rw (k, small)
      (shifted (leb b'a' (get_or scancode_to_ascii c 0) && leb (get_or scancode_to_ascii c 0) b'z')
        (ground (arith, a, small)) up)
  where
    shifted :
        (alpha : Bool)
        → alpha ≡ true
        → get_or shifted_scancode_to_ascii c 0 ≡ get_or scancode_to_ascii c 0 - 32
        → get_or
            (if bool_ne
                (kb.keyboard_status lshift || kb.keyboard_status rshift)
                (kb.caps_lock_active && alpha)
              then shifted_scancode_to_ascii
              else scancode_to_ascii)
            c
            0
          ≡ (if bool_ne (is_pressed lshift kb || is_pressed rshift kb) kb.caps_lock_active
              then get_or scancode_to_ascii c 0 - 32
              else get_or scancode_to_ascii c 0)
    shifted alpha e up = ground (arith, e, up)

-- The scancode of a letter, without the prefix, gives the letter in lower case, and in upper case
-- when either Shift is held or CapsLock is on, not both.
pub get_key_press-letter :
    (scancode : ℕ) (kb : Keyboard)
    → is_alpha scancode ≡ true
    → kb.multi_byte_flag ≡ false
    → let lower = get_or scancode_to_ascii scancode 0 in
      let shift = is_pressed lshift kb || is_pressed rshift kb in
      (get_key_press scancode kb).0
      ≡ (if bool_ne shift kb.caps_lock_active then lower - 32 else lower)
unfolding get_key_press
get_key_press-letter scancode kb a m =
    let small = is_alpha-below scancode a in
    let (up, l, r, k) = is_alpha-Letter scancode a in
    let down : leb 128 (scancode % 256) ≡ false = ground (arith, small) in
    let code : normalized_code scancode kb ≡ scancode = ground (arith, m, small) in
    let kb1 = record kb {
      multi_byte_flag = false;
      keyboard_status = update kb.keyboard_status scancode true;
    } in
    rw (down, code)
      (subst
        (λ held. (key_value scancode kb1).0 ≡ (
          if bool_ne held kb.caps_lock_active
          then get_or scancode_to_ascii scancode 0 - 32
          else get_or scancode_to_ascii scancode 0))
        (ground (arith, l, r)) (key_value-letter scancode kb1 a))
