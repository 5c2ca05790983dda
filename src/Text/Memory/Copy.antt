-- ===== src/Text/Memory/Copy.antt =====
-- What memset and memcpy leave in each byte of the memory.
use tp2_so_g.Base.{
  ℕ, zero, suc, ◌+◌, ◌-◌, ◌*◌, ◌/◌, ◌%◌, ◌≤◌, ◌<◌, ◌≡◌, ◌⊎◌, Bool, ◌&&◌, arith, update, Bool-cases,
  inl, inr, ==→eq, sym, ap, refl, ◌∙◌,
}
use tp2_so_g.Base.{◌==◌, if◌then◌else◌, leb, ltb}
use tp2_so_g.Text.Memory.{memset, copy_bytes, copy_words, memcpy}

abbrev pub within : ℕ → ℕ → ℕ → Bool
within start length j = leb start j && ltb j (start + length)

-- The byte at `j` when `n` bytes are copied at once.
abbrev pub copied : ℕ → ℕ → ℕ → (ℕ → ℕ) → ℕ → ℕ
copied d s n m j = if within d n j then m (s + (j - d)) else m j

-- memset writes the low byte of `c` into the `length` bytes from the destination on, and nothing else.
memset-bytes :
    (d c length : ℕ) (m : ℕ → ℕ) (j : ℕ)
    → memset d c length m j ≡ (if within d length j then c % 256 else m j)
unfolding memset
memset-bytes d c zero m j = ground arith
memset-bytes d c (suc n) m j = ground (arith, memset-bytes d c n (update m (d + n) (c % 256)) j)

-- One byte more.
copied-next :
    (d s n a v : ℕ) (m f : ℕ → ℕ) (j : ℕ)
    → a ≡ d + n
    → v ≡ m (s + n)
    → f j ≡ copied d s n m j
    → update f a v j ≡ copied d s (suc n) m j
copied-next d s n a v m f j at value rest = elim (Bool-cases (a == j)) [
  | inl e ↦
      let here : j ≡ d + n = sym (==→eq a j e) ∙ at in
      let source : s + (j - d) ≡ s + n = omega (arith, here) in
      ground (arith, e, here, value, ap m source)
  | inr e ↦ ground (arith, e, at, rest)
]

-- The bytes to be read are not among those written.
copied-source :
    (d s n i : ℕ) (m : ℕ → ℕ) → (d + n ≤ s) ⊎ (s + i < d) → copied d s n m (s + i) ≡ m (s + i)
copied-source d s n i m h = ground (arith, h)

copy_bytes-copied :
    (d s n : ℕ) (m : ℕ → ℕ) (j : ℕ)
    → (d + n ≤ s) ⊎ (s + n ≤ d)
    → copy_bytes d s n m j ≡ copied d s n m j
unfolding copy_bytes
copy_bytes-copied d s zero m j h = ground arith
copy_bytes-copied d s (suc n) m j h =
    let apart : (d + n ≤ s) ⊎ (s + n ≤ d) = ground (arith, h) in
    let value =
      copy_bytes-copied d s n m (s + n) apart ∙ copied-source d s n n m (ground (arith, h)) in
    copied-next d s n (d + n) _ m (copy_bytes d s n m) j refl value
      (copy_bytes-copied d s n m j apart)

copy_words-copied :
    (d s n : ℕ) (m : ℕ → ℕ) (j : ℕ)
    → (d + 4 * n ≤ s) ⊎ (s + 4 * n ≤ d)
    → copy_words d s n m j ≡ copied d s (4 * n) m j
unfolding copy_words
copy_words-copied d s zero m j h = ground arith
copy_words-copied d s (suc n) m j h =
    let k = 4 * n in
    let apart : (d + k ≤ s) ⊎ (s + k ≤ d) = ground (arith, h) in
    let before = copy_words d s n m in
    let read = λ (i : ℕ) (away : (d + k ≤ s) ⊎ (s + i < d)).
      copy_words-copied d s n m (s + i) apart ∙ copied-source d s k i m away in
    let f1 = update before (d + k) (before (s + k)) in
    let f2 = update f1 (d + k + 1) (before (s + k + 1)) in
    let f3 = update f2 (d + k + 2) (before (s + k + 2)) in
    let one =
      copied-next d s k (d + k) (before (s + k)) m before j refl (read k (ground (arith, h)))
        (copy_words-copied d s n m j apart) in
    let two =
      copied-next d s (suc k) (d + k + 1) (before (s + k + 1)) m f1 j (omega arith)
        (ap before (omega arith) ∙ read (suc k) (ground (arith, h))) one in
    let three =
      copied-next d s (suc (suc k)) (d + k + 2) (before (s + k + 2)) m f2 j (omega arith)
        (ap before (omega arith) ∙ read (suc (suc k)) (ground (arith, h))) two in
    let four =
      copied-next d s (suc (suc (suc k))) (d + k + 3) (before (s + k + 3)) m f3 j (omega arith)
        (ap before (omega arith) ∙ read (suc (suc (suc k))) (ground (arith, h))) three in
    four ∙ ap (λ t. copied d s t m j) (omega arith)

-- memcpy between areas that do not overlap copies the bytes, by words or one by one, and changes no
-- other byte.
pub memcpy-copied :
    (d s length : ℕ) (m : ℕ → ℕ) (j : ℕ)
    → (d + length ≤ s) ⊎ (s + length ≤ d)
    → memcpy d s length m j ≡ copied d s length m j
unfolding memcpy
memcpy-copied d s length m j h = elim (Bool-cases (d % 4 == 0 && s % 4 == 0 && length % 4 == 0)) [
  | inl e ↦
      let whole : 4 * (length / 4) ≡ length = ground (arith, e) in
      rw e (
        copy_words-copied d s (length / 4) m j (ground (arith, h, whole))
        ∙ ap (λ t. copied d s t m j) whole)
  | inr e ↦ rw e (copy_bytes-copied d s length m j h)
]
