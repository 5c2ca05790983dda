-- ===== src/Text/Memory.antt =====
-- memset and memcpy of Kernel/lib.c on a memory of bytes.
pub mod Copy
use tp2_so_g.Base.{ℕ, zero, suc, ◌+◌, ◌*◌, ◌/◌, ◌%◌, Bool, ◌&&◌, update}
use tp2_so_g.Base.{◌==◌, if◌then◌else◌}

-- `while (length--) dst[length] = chr;`
unfoldable pub memset : ℕ → ℕ → ℕ → (ℕ → ℕ) → ℕ → ℕ
memset destination c zero m = m
memset destination c (suc length) m =
    memset destination c length (update m (destination + length) (c % 256))

-- The loop over bytes, after `i` rounds.
unfoldable pub copy_bytes : ℕ → ℕ → ℕ → (ℕ → ℕ) → ℕ → ℕ
copy_bytes destination source zero m = m
copy_bytes destination source (suc i) m =
    let done_before = copy_bytes destination source i m in
    update done_before (destination + i) (done_before (source + i))

-- A word of four bytes is read and then written.
abbrev pub copy_word : ℕ → ℕ → (ℕ → ℕ) → ℕ → ℕ
copy_word d s m =
    update (update (update (update m d (m s)) (d + 1) (m (s + 1))) (d + 2) (m (s + 2))) (d + 3)
      (m (s + 3))

-- The loop over words, after `i` rounds.
unfoldable pub copy_words : ℕ → ℕ → ℕ → (ℕ → ℕ) → ℕ → ℕ
copy_words destination source zero m = m
copy_words destination source (suc i) m =
    copy_word (destination + 4 * i) (source + 4 * i) (copy_words destination source i m)

unfoldable pub memcpy : ℕ → ℕ → ℕ → (ℕ → ℕ) → ℕ → ℕ
memcpy destination source length m =
    if destination % 4 == 0 && source % 4 == 0 && length % 4 == 0
    then copy_words destination source (length / 4) m
    else copy_bytes destination source length m
