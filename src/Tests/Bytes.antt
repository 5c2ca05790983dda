-- ===== src/Tests/Bytes.antt =====
-- The circular buffer and the string routines at fixed inputs.
use tp2_so_g.Base.{ℕ, ◌≡◌, ◌⊎◌, refl, List, [], ◌∷◌, ◌++◌, arith, length, ltb, if◌then◌else◌}
use tp2_so_g.Text.{uint64_to_hex}
use tp2_so_g.Text.Memory.{memcpy}
use tp2_so_g.Text.Memory.Copy.{copied, memcpy-copied}
use tp2_so_g.Base.{inr, true}
use tp2_so_g.Text.Hex.{all_hex, hex_value, uint64_to_hex-value}
use tp2_so_g.Buffer.{Buffer, buffer_write, buffer_read}
use tp2_so_g.Buffer.Valid.{IsValid}
use tp2_so_g.Buffer.Fifo.{held, buffer_write-held, buffer_read-held}

-- 8 and then 9, round the end of the array.
abbrev round_end : Buffer
round_end = record {
  contents = 9 ∷ 7 ∷ 8 ∷ [];
  max_size = 3;
  read_idx = 2;
  write_idx = 1;
  count = 2;
}

round_end-IsValid : IsValid round_end
round_end-IsValid = omega arith

held-round_end : held round_end ≡ 8 ∷ 9 ∷ []
unfolding held
held-round_end = refl

buffer_write-held_example :
    let (ok, b) = buffer_write round_end 5 in
    (ok ≡ ltb (length (held round_end)) 3)
    × (held b ≡ (if ok then held round_end ++ 5 ∷ [] else held round_end))
    × IsValid b
buffer_write-held_example = buffer_write-held round_end 5 round_end-IsValid

buffer_read-held_example :
    let (byte, b) = buffer_read round_end in
    ((byte ∷ held b ≡ held round_end) ⊎ ((held round_end ≡ []) × (byte ≡ 0) × (b ≡ round_end)))
    × IsValid b
buffer_read-held_example = buffer_read-held round_end round_end-IsValid

uint64_to_hex-value_example :
    (digits : List ℕ) × (uint64_to_hex 0xBEEF ≡ b'0' ∷ b'x' ∷ (digits ++ 0 ∷ []))
    × (length digits ≡ 16)
    × (all_hex digits ≡ true)
    × (hex_value 0 digits ≡ 0xBEEF)
uint64_to_hex-value_example = uint64_to_hex-value 0xBEEF (omega arith)

-- Every byte is its address.
abbrev counting : ℕ → ℕ
counting i = i

memcpy-copied_example : memcpy 8 0 4 counting 9 ≡ copied 8 0 4 counting 9
memcpy-copied_example = memcpy-copied 8 0 4 counting 9 (inr (omega arith))
