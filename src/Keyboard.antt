-- ===== src/Keyboard.antt =====
-- Drivers/keyboardDriver.c: from scancodes to the bytes and the requests of the keyboard interrupt.
--
-- What the handler asks of other files (registers.c, scheduler.c, fileAccess.c) is an effect, in the
-- order of the calls. The status and the scancode are what readPort returns.
pub mod Keys
pub mod Interrupt
use tp2_so_g.Base.{
  ℕ, ◌+◌, ◌-◌, ◌/◌, ◌%◌, Bool, true, false, not, ◌||◌, ◌&&◌, List, [], ◌∷◌, update, get_or,
}
use tp2_so_g.Base.{ltb, leb, ◌==◌, if◌then◌else◌}

-- The static variables of the driver.
pub record Keyboard : Type 0 where
  pub keyboard_status : ℕ → Bool
  pub multi_byte_flag : Bool
  pub caps_lock_active : Bool

abbrev pub multi_byte_scancode : ℕ
multi_byte_scancode = 0xE0

abbrev pub keycode_shift : ℕ
keycode_shift = 0x7F

abbrev pub lshift : ℕ
lshift = 0x2A

abbrev pub rshift : ℕ
rshift = 0x36

abbrev pub capslock : ℕ
capslock = 0x3A

abbrev pub lcontrol : ℕ
lcontrol = 0x1D

abbrev pub press_c : ℕ
press_c = 0x2E

abbrev pub press_d : ℕ
press_d = 0x20

abbrev pub end_of_text : ℕ
end_of_text = 0x03

abbrev pub end_of_transmission : ℕ
end_of_transmission = 0x04

-- The scancode of F6, registers.h.
abbrev pub snapshot_scancode : ℕ
snapshot_scancode = 0x40

unfoldable pub scancode_to_ascii : List ℕ
scancode_to_ascii =
    0 ∷ 0 ∷ b'1' ∷ b'2' ∷ b'3' ∷ b'4' ∷ b'5' ∷ b'6' ∷ b'7' ∷ b'8' ∷ b'9' ∷ b'0' ∷ b'-' ∷ b'=' ∷ 8
    ∷ 9 ∷ b'q' ∷ b'w' ∷ b'e' ∷ b'r' ∷ b't' ∷ b'y' ∷ b'u' ∷ b'i' ∷ b'o' ∷ b'p' ∷ b'[' ∷ b']' ∷ 10 ∷ 0
    ∷ b'a' ∷ b's' ∷ b'd' ∷ b'f' ∷ b'g' ∷ b'h' ∷ b'j' ∷ b'k' ∷ b'l' ∷ b';' ∷ 39 ∷ b'`' ∷ 0 ∷ 92
    ∷ b'z' ∷ b'x' ∷ b'c' ∷ b'v' ∷ b'b' ∷ b'n' ∷ b'm' ∷ b',' ∷ b'.' ∷ b'/' ∷ 0 ∷ b'*' ∷ 0 ∷ b' ' ∷ 0
    ∷ []

unfoldable pub shifted_scancode_to_ascii : List ℕ
shifted_scancode_to_ascii =
    0 ∷ 0 ∷ b'!' ∷ 34 ∷ b'#' ∷ b'$' ∷ b'%' ∷ b'^' ∷ b'&' ∷ b'*' ∷ b'(' ∷ b')' ∷ b'_' ∷ b'+' ∷ 8 ∷ 9
    ∷ b'Q' ∷ b'W' ∷ b'E' ∷ b'R' ∷ b'T' ∷ b'Y' ∷ b'U' ∷ b'I' ∷ b'O' ∷ b'P' ∷ b'{' ∷ b'}' ∷ 10 ∷ 0
    ∷ b'A' ∷ b'S' ∷ b'D' ∷ b'F' ∷ b'G' ∷ b'H' ∷ b'J' ∷ b'K' ∷ b'L' ∷ b':' ∷ b'@' ∷ b'~' ∷ 0 ∷ b'|'
    ∷ b'Z' ∷ b'X' ∷ b'C' ∷ b'V' ∷ b'B' ∷ b'N' ∷ b'M' ∷ b'<' ∷ b'>' ∷ b'?' ∷ 0 ∷ b'*' ∷ 0 ∷ b' ' ∷ 0
    ∷ []

-- `sizeof(scancodeToAscii)`; Keyboard/Keys compares it with the table.
abbrev pub table_size : ℕ
table_size = 59

abbrev pub keyboard_has_data : ℕ → Bool
keyboard_has_data status = status % 2 == 1

abbrev pub is_pressed : ℕ → Keyboard → Bool
is_pressed keycode kb = kb.keyboard_status keycode

abbrev pub is_alpha : ℕ → Bool
is_alpha scancode =
    ltb scancode table_size
    && (let ascii = get_or scancode_to_ascii scancode 0 in leb b'a' ascii && leb ascii b'z')

abbrev pub bool_ne : Bool → Bool → Bool
bool_ne true b = not b
bool_ne false b = b

abbrev pub should_shift : ℕ → Keyboard → Bool
should_shift scancode kb =
    bool_ne (kb.keyboard_status lshift || kb.keyboard_status rshift)
      (kb.caps_lock_active && is_alpha scancode)

-- `scancode & 0x7F`, moved past the table behind the prefix, in a `uint8_t`.
abbrev pub normalized_code : ℕ → Keyboard → ℕ
normalized_code scancode kb =
    if kb.multi_byte_flag then (scancode % 128 + keycode_shift) % 256 else scancode % 128

-- What getKeyPress returns for a key that goes down.
unfoldable pub key_value : ℕ → Keyboard → ℕ × Keyboard
key_value code kb =
    if code == capslock then (0, record kb { caps_lock_active = not kb.caps_lock_active }) else (
      if ltb code table_size
          then get_or
              (if should_shift code kb then shifted_scancode_to_ascii else scancode_to_ascii) code 0
          else (if leb keycode_shift code then code else 0),
      kb,
    )

unfoldable pub get_key_press : ℕ → Keyboard → ℕ × Keyboard
get_key_press scancode kb =
    let release = leb 128 (scancode % 256) in
    let code = normalized_code scancode kb in
    let kb1 = record kb {
      multi_byte_flag = false;
      keyboard_status = update kb.keyboard_status code (not release);
    } in
    if release then (0, kb1) else key_value code kb1

unfoldable pub process_control : ℕ → Keyboard → ℕ
process_control scancode kb =
    if not (is_pressed lcontrol kb)
    then 0
    else (if scancode == press_c
        then end_of_text
        else (if scancode == press_d then end_of_transmission else 0))

-- The calls that the handler makes.
pub data Effect : Type 0 where
  save_register_snapshot : Effect
  kill_foreground : Effect
  request_eof_on_foreground : Effect
  file_write : (byte : ℕ) → Effect

-- The switch of the handler.
unfoldable pub key_effects : ℕ → List Effect
key_effects key =
    if key == 0
    then []
    else (if key == end_of_text
        then kill_foreground ∷ []
        else (if key == end_of_transmission
            then request_eof_on_foreground ∷ file_write 0 ∷ []
            else file_write key ∷ []))

unfoldable pub key_of : ℕ → Keyboard → ℕ × Keyboard
key_of scancode kb =
    let ctrl = process_control scancode kb in
    if ctrl == 0 then get_key_press scancode kb else (ctrl, kb)

unfoldable pub keyboard_interrupt : ℕ → ℕ → Keyboard → List Effect × Keyboard
keyboard_interrupt status scancode kb =
    let (key, kb1) = key_of scancode kb in
    let asked = key_effects key in
    if not (keyboard_has_data status)
    then ([], kb)
    else (if scancode == multi_byte_scancode then ([], record kb { multi_byte_flag = true }) else (
      (if scancode == snapshot_scancode then save_register_snapshot ∷ asked else asked),
      kb1,
    ))
