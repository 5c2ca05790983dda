-- ===== src/Text.antt =====
-- lib.c: the string routines. A C string is the list of the bytes before its NUL; past the end a
-- read gives the NUL.
pub mod Compare
pub mod Hex
pub mod Memory
use tp2_so_g.Base.{
  ℕ, zero, suc, ◌+◌, ◌-◌, ◌*◌, ◌/◌, ◌%◌, ◌^◌, Bool, true, false, List, [], ◌∷◌, ◌++◌, get_or, ◌==◌,
  if◌then◌else◌, ltb,
}
use tp2_so_g.Base.Int.{ℤ, pos, negsuc, sub_ℕ}

-- `strcmp`: the first two bytes that differ, subtracted, or 0.
unfoldable pub strcmp : List ℕ → List ℕ → ℤ
strcmp [] [] = sub_ℕ 0 0
strcmp [] (c2 ∷ s2) = sub_ℕ 0 c2
strcmp (c1 ∷ s1) [] = sub_ℕ c1 0
strcmp (c1 ∷ s1) (c2 ∷ s2) = if c1 == c2 then strcmp s1 s2 else sub_ℕ c1 c2

-- `strlen`
unfoldable pub strlen : List ℕ → ℕ
strlen [] = 0
strlen (c ∷ s) = suc (strlen s)

-- The loops of `concat_strings`: what has been written so far, and a source.
unfoldable pub copy_onto : List ℕ → List ℕ → List ℕ
copy_onto dest [] = dest
copy_onto dest (c ∷ s) = copy_onto (dest ++ c ∷ []) s

-- `concat_strings`: the destination with its NUL.
unfoldable pub concat_strings : List ℕ → List ℕ → List ℕ
unfolding copy_onto
concat_strings str1 str2 = copy_onto (copy_onto [] str1) str2 ++ 0 ∷ []

-- "0123456789ABCDEF"
abbrev pub hex_chars : List ℕ
hex_chars =
    b'0' ∷ b'1' ∷ b'2' ∷ b'3' ∷ b'4' ∷ b'5' ∷ b'6' ∷ b'7' ∷ b'8' ∷ b'9' ∷ b'A' ∷ b'B' ∷ b'C' ∷ b'D'
    ∷ b'E' ∷ b'F' ∷ []

-- `hexChars[(value >> (i * 4)) & 0xF]` for i from `n - 1` down to 0.
unfoldable pub hex_digits : ℕ → ℕ → List ℕ
hex_digits zero value = []
hex_digits (suc i) value = get_or hex_chars (value / 2 ^ (i * 4) % 16) 0 ∷ hex_digits i value

-- `uint64ToHex`: what the buffer holds, with its NUL.
unfoldable pub uint64_to_hex : ℕ → List ℕ
unfolding hex_digits
uint64_to_hex value = b'0' ∷ b'x' ∷ (hex_digits 16 value ++ 0 ∷ [])
