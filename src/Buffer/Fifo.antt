-- ===== src/Buffer/Fifo.antt =====
-- The circular buffer against its contract: a FIFO of at most max_size bytes.
use tp2_so_g.Base.{
  ℕ, zero, suc, ◌+◌, ◌-◌, ◌%◌, ◌≤◌, ◌<◌, ◌≡◌, ◌≢◌, refl, ap, ap₂, sym, ◌⊎◌, inl, inr, ◌^◌, ◌∙◌,
  List, [], ◌∷◌, ◌++◌, arith, length, get_or, set, get_or-set_self, get_or-set_ne, ltb,
  if◌then◌else◌,
}
use native.Mathlib.Nat.{mod-add-mod}
use tp2_so_g.Buffer.{Buffer, buffer_write, buffer_read}
use tp2_so_g.Buffer.Valid.{IsValid, mod_twice, buffer_write-IsValid, buffer_read-IsValid}

-- `n` bytes of an array from the `j`-th after `r` on, round at `m`.
bytes_from : List ℕ → ℕ → ℕ → ℕ → ℕ → List ℕ
bytes_from xs m r j zero = []
bytes_from xs m r j (suc n) = get_or xs ((r + j) % m) 0 ∷ bytes_from xs m r (suc j) n

-- The bytes that the buffer holds, oldest first.
unfoldable pub held : Buffer → List ℕ
unfolding bytes_from
held b = bytes_from b.contents b.max_size b.read_idx 0 b.count

length-bytes_from : (xs : List ℕ) (m r j n : ℕ) → length (bytes_from xs m r j n) ≡ n
unfolding bytes_from
length-bytes_from xs m r j zero = refl
length-bytes_from xs m r j (suc n) = ap suc (length-bytes_from xs m r (suc j) n)

pub length-held : (b : Buffer) → length (held b) ≡ b.count
unfolding held
length-held b = length-bytes_from b.contents b.max_size b.read_idx 0 b.count

-- Two positions less than `m` apart stand in different slots.
slot-ne : (r m i j : ℕ) → r < m → i < j → j < m → (r + j) % m ≢ (r + i) % m
slot-ne r m i j h a c e = ground (arith, mod_twice (r + i) m, mod_twice (r + j) m)

-- A write into the slot past the bytes leaves them as they are and appends itself.
bytes_from-set :
    (xs : List ℕ) (m r x j n w : ℕ)
    → r < m
    → m ≤ length xs
    → j + n < m
    → w ≡ (r + (j + n)) % m
    → bytes_from (set xs w x) m r j (suc n) ≡ bytes_from xs m r j n ++ x ∷ []
unfolding bytes_from
bytes_from-set xs m r x j zero w h l c e =
    let at : (r + j) % m ≡ w = sym (e ∙ ap (λ t. (r + t) % m) (omega arith)) in
    rw (at, get_or-set_self xs w x 0 (ground (arith, mod_twice (r + j) m)))
bytes_from-set xs m r x j (suc n) w h l c e =
    let at : w ≡ (r + (suc j + n)) % m = e ∙ ap (λ t. (r + t) % m) (omega arith) in
    ap₂ ◌∷◌
      (get_or-set_ne xs w ((r + j) % m) x 0
        (rw at (slot-ne r m j (suc j + n) h (omega arith) (omega arith))))
      (bytes_from-set xs m r x (suc j) n w h l (omega arith) at)

-- After the oldest byte is taken every other one stands a place further on.
bytes_from-shift :
    (xs : List ℕ) (m r j n : ℕ) → bytes_from xs m ((r + 1) % m) j n ≡ bytes_from xs m r (suc j) n
unfolding bytes_from
bytes_from-shift xs m r j zero = refl
bytes_from-shift xs m r j (suc n) =
    let at : ((r + 1) % m + j) % m ≡ (r + suc j) % m =
      mod-add-mod (r + 1) m j ∙ ap (λ t. t % m) (omega arith) in
    ap₂ ◌∷◌ (ap (λ t. get_or xs t 0) at) (bytes_from-shift xs m r (suc j) n)

write-fits :
    (b : Buffer) (x : ℕ)
    → IsValid b
    → b.count < b.max_size
    → held (buffer_write b x).1 ≡ held b ++ x ∷ []
unfolding buffer_write held
write-fits b x v h =
    let shape =
      bytes_from-set b.contents b.max_size b.read_idx x 0 b.count b.write_idx v.read_in v.storage
        (omega arith) (v.written ∙ ap (λ t. (b.read_idx + t) % b.max_size) (omega arith)) in
    let c : (b.count + 1) % 2 ^ 64 ≡ suc b.count = omega (arith, v.word) in ground (arith, shape, c)

read-takes :
    (b : Buffer) (n : ℕ)
    → IsValid b
    → b.count ≡ suc n
    → let (byte, b') = buffer_read b in byte ∷ held b' ≡ held b
unfolding buffer_read held
read-takes b n v e =
    let all = ap (bytes_from b.contents b.max_size b.read_idx 0) e in
    let i : (b.read_idx + 1) % 2 ^ 64 ≡ b.read_idx + 1 = omega (arith, v.word, v.read_in) in
    let c : b.count - 1 ≡ n = omega arith in
    let first : (b.read_idx + 0) % b.max_size ≡ b.read_idx =
      ground (arith, mod_twice (b.read_idx + 0) b.max_size, v.read_in) in
    ground (arith, all, i, c, first, bytes_from-shift b.contents b.max_size b.read_idx 0 n)

-- bufferWrite takes a byte exactly when fewer than max_size bytes are held, and then it comes last;
-- on a full buffer it changes nothing.
pub buffer_write-held :
    (b : Buffer) (x : ℕ)
    → IsValid b
    → let (ok, b') = buffer_write b x in
      (ok ≡ ltb (length (held b)) b.max_size)
      × (held b' ≡ (if ok then held b ++ x ∷ [] else held b))
      × IsValid b'
unfolding buffer_write
buffer_write-held b x v = (
  ground (arith, length-held b, v.count_in),
  ground (arith, write-fits b x v, v.count_in),
  buffer_write-IsValid v x,
)

-- bufferRead returns the oldest byte and leaves the rest; on an empty buffer it returns EOF.
pub buffer_read-held :
    (b : Buffer)
    → IsValid b
    → let (byte, b') = buffer_read b in
      ((byte ∷ held b' ≡ held b) ⊎ ((held b ≡ []) × (byte ≡ 0) × (b' ≡ b))) × IsValid b'
unfolding buffer_read
buffer_read-held b v = (cases b.count refl, buffer_read-IsValid v)
  where
    cases :
        (n : ℕ)
        → b.count ≡ n
        → let (byte, b') = buffer_read b in
          (byte ∷ held b' ≡ held b) ⊎ ((held b ≡ []) × (byte ≡ 0) × (b' ≡ b))
    cases zero e = inr (
      unfold held in ap (bytes_from b.contents b.max_size b.read_idx 0) e,
      ground arith,
      ground arith,
    )
    cases (suc n) e = inl (read-takes b n v e)
