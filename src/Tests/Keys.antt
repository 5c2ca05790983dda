-- ===== src/Tests/Keys.antt =====
-- The keyboard at fixed scancodes.
use tp2_so_g.Base.{◌-◌, ◌||◌, ◌≡◌, refl, true, false, ◌&&◌, get_or, ◌==◌, if◌then◌else◌}
use tp2_so_g.Keyboard.{
  Keyboard, is_pressed, bool_ne, get_key_press, keyboard_interrupt, lcontrol, press_c, press_d,
  scancode_to_ascii, shifted_scancode_to_ascii, key_value, keyboard_has_data, lshift, rshift,
}
use tp2_so_g.Keyboard.Keys.{get_key_press-letter}
use tp2_so_g.Keyboard.Interrupt.{kills, ends_input, keyboard_interrupt-asks}

-- CapsLock is on and the left Control is held.
abbrev caps : Keyboard
caps = record { keyboard_status = λ c. c == 0x1D; multi_byte_flag = false; caps_lock_active = true }

upper_a : (get_key_press 0x1E caps).0 ≡ b'A'
unfolding get_key_press key_value scancode_to_ascii shifted_scancode_to_ascii
upper_a = refl

-- The right Control goes up: the prefix has come before.
abbrev prefixed : Keyboard
prefixed = record {
  keyboard_status = λ c. c == 156;
  multi_byte_flag = true;
  caps_lock_active = false;
}

get_key_press-letter_example :
    let lower = get_or scancode_to_ascii 0x1E 0 in
    let shift = is_pressed lshift caps || is_pressed rshift caps in
    (get_key_press 0x1E caps).0
    ≡ (if bool_ne shift caps.caps_lock_active then lower - 32 else lower)
unfolding scancode_to_ascii
get_key_press-letter_example = get_key_press-letter 0x1E caps refl refl

keyboard_interrupt-asks_example :
    let (effects, kb') = keyboard_interrupt 1 0x2E caps in
    let control = keyboard_has_data 1 && is_pressed lcontrol caps in
    (kills effects ≡ (control && 0x2E == press_c))
    × (ends_input effects ≡ (control && 0x2E == press_d))
keyboard_interrupt-asks_example = keyboard_interrupt-asks 1 0x2E caps
