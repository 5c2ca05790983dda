-- ===== src/Keyboard/Interrupt.antt =====
-- keyboardInterrupt: what it asks of the scheduler and of the pipe of the keyboard.
use tp2_so_g.Base.{
  ℕ, ◌<◌, ◌≡◌, refl, inl, inr, Bool, true, false, not, ◌&&◌, ◌%◌, arith, get_or, passes_below,
  passes_below_lem, Bool-cases, ltb→lt, List, [], ◌∷◌,
}
use tp2_so_g.Base.{◌==◌, if◌then◌else◌, ltb, leb}
use tp2_so_g.Keyboard.{
  Keyboard, Effect, kill_foreground, request_eof_on_foreground, is_pressed, normalized_code,
  key_value, get_key_press, scancode_to_ascii, shifted_scancode_to_ascii, lcontrol, press_c,
  press_d, keyboard_has_data, capslock, key_of, key_effects, process_control, keyboard_interrupt,
}

abbrev pub kills : List Effect → Bool
kills [] = false
kills (kill_foreground ∷ _) = true
kills (_ ∷ es) = kills es

abbrev pub ends_input : List Effect → Bool
ends_input [] = false
ends_input (request_eof_on_foreground ∷ _) = true
ends_input (_ ∷ es) = ends_input es

plain : ℕ → Bool
plain key = not (key == 3) && not (key == 4)

plain_tables :
    passes_below
      (λ c. plain (get_or scancode_to_ascii c 0) && plain (get_or shifted_scancode_to_ascii c 0))
      59
    ≡ true
unfolding passes_below plain scancode_to_ascii shifted_scancode_to_ascii
plain_tables = refl

table-plain :
    (c : ℕ) (shift : Bool)
    → c < 59
    → plain (get_or (if shift then shifted_scancode_to_ascii else scancode_to_ascii) c 0) ≡ true
table-plain c true h = ground (arith, passes_below_lem _ 59 plain_tables h)
table-plain c false h = ground (arith, passes_below_lem _ 59 plain_tables h)

large-plain : (code : ℕ) → plain (if leb 127 code then code else 0) ≡ true
unfolding plain
large-plain code = ground arith

key_value-plain : (code : ℕ) (kb : Keyboard) → plain (key_value code kb).0 ≡ true
unfolding key_value
key_value-plain code kb = elim (Bool-cases (code == capslock)) [
  | inl e ↦ rw e (unfold plain in refl)
  | inr e ↦ elim (Bool-cases (ltb code 59)) [
    | inl l ↦ rw (e, l) (table-plain code _ (ltb→lt code 59 l))
    | inr l ↦ rw (e, l) (large-plain code)
  ]
]

-- No key gives the byte of Ctrl+C or Ctrl+D by itself.
get_key_press-plain : (scancode : ℕ) (kb : Keyboard) → plain (get_key_press scancode kb).0 ≡ true
unfolding get_key_press
get_key_press-plain scancode kb = elim (Bool-cases (leb 128 (scancode % 256))) [
  | inl e ↦ rw e (unfold plain in refl)
  | inr e ↦ rw e (key_value-plain (normalized_code scancode kb) _)
]

kills-key : (key : ℕ) → plain key ≡ true → kills (key_effects key) ≡ false
unfolding key_effects plain
kills-key key h = ground (arith, h)

ends_input-key : (key : ℕ) → plain key ≡ true → ends_input (key_effects key) ≡ false
unfolding key_effects plain
ends_input-key key h = ground (arith, h)

control_effects :
    (kills (key_effects 3) ≡ true)
    × (ends_input (key_effects 3) ≡ false)
    × (kills (key_effects 4) ≡ false)
    × (ends_input (key_effects 4) ≡ true)
unfolding key_effects
control_effects = (refl, refl, refl, refl)

-- What one key asks for.
key_of-asks :
    (scancode : ℕ) (kb : Keyboard)
    → let effects = key_effects (key_of scancode kb).0 in
      (kills effects ≡ (is_pressed lcontrol kb && scancode == press_c))
      × (ends_input effects ≡ (is_pressed lcontrol kb && scancode == press_d))
unfolding key_of process_control
key_of-asks scancode kb =
    let p = get_key_press-plain scancode kb in
    let no_kill = kills-key (get_key_press scancode kb).0 p in
    let no_end = ends_input-key (get_key_press scancode kb).0 p in
    let (k3, e3, k4, e4) = control_effects in
    (ground (arith, no_kill, k3, k4), ground (arith, no_end, e3, e4))

-- The foreground is killed exactly when the controller has the scancode of C going down while the
-- left Control is held, and the end of the input is asked for exactly when it has that of D.
pub keyboard_interrupt-asks :
    (status scancode : ℕ) (kb : Keyboard)
    → let (effects, kb') = keyboard_interrupt status scancode kb in
      let control = keyboard_has_data status && is_pressed lcontrol kb in
      (kills effects ≡ (control && scancode == press_c))
      × (ends_input effects ≡ (control && scancode == press_d))
unfolding keyboard_interrupt
keyboard_interrupt-asks status scancode kb =
    let (k, e) = key_of-asks scancode kb in (ground (arith, k), ground (arith, e))
