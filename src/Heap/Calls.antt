-- ===== src/Heap/Calls.antt =====
-- mem_init, mem_alloc and mem_free on a heap whose blocks lie as they should.
use tp2_so_g.Base.{
  ℕ, ◌+◌, ◌-◌, ◌%◌, ◌^◌, ◌≤◌, ◌<◌, ◌≡◌, refl, sym, ap, subst, ◌∙◌, ◌⊎◌, inl, inr, true, false,
  Option, none, some, List, [], ◌∷◌, arith, length, Bool-cases,
}
use tp2_so_g.Base.{◌==◌, if◌then◌else◌}
use tp2_so_g.Heap.{Heap, align_up, mem_init, mem_alloc, mem_free, first_fit}
use tp2_so_g.Heap.Layout.{Piece, start, Laid, Laid-below, taken}
use tp2_so_g.Heap.Fit.{fit, fit_at, start-fit, first_fit-Laid}
use tp2_so_g.Heap.Release.{release}
use tp2_so_g.Heap.Freed.{freed, freed-Laid, start-release}
use tp2_so_g.Heap.Pieces.{
  served, coalesced, fit_at-above, fit_at-served, fit_at-finds, fit-Gives, coalesced-fit,
}
use tp2_so_g.Heap.Returns.{taken-release, coalesced-release, release-fit}

-- The heap is the row of blocks `xs`, which starts at `base` and fills its bytes.
pub record IsRow (base : ℕ) (xs : List Piece) (h : Heap) : Type 0 where
  pub based : h.base_block ≡ start base xs
  pub laid : Laid h.memory none base xs (base + h.total_bytes)
  pub small : base + h.total_bytes < 2 ^ 63
  pub apart : coalesced xs ≡ true

-- On memory below the address 2^63 that holds a header, mem_init leaves one free block, which fills
-- the memory but for its header.
pub mem_init-IsRow :
    (base size : ℕ) (h : Heap)
    → 32 ≤ size
    → base + size < 2 ^ 63
    → IsRow base (record { bytes = size - 32; free = true } ∷ []) (mem_init base size h)
unfolding mem_init
mem_init-IsRow base size h big b = record {
  based = refl;
  laid =
      let w : (size + (2 ^ 64 - 32)) % 2 ^ 64 ≡ size - 32 = omega (arith, big, b) in
      (ground (arith, w), omega (arith, big));
  small = b;
  apart = refl;
}

pub row-steps :
    {base : ℕ} {xs : List Piece} {h : Heap} → IsRow base xs h → length xs ≤ h.total_bytes
row-steps {base} {xs} {h} r =
    omega (arith, Laid-below h.memory none base xs (base + h.total_bytes) r.laid)

mem_alloc-walks :
    (size b : ℕ) (h : Heap)
    → 0 < size
    → h.base_block ≡ some b
    → let (q, m) = first_fit h.total_bytes h.memory (align_up size) (some b) in
      (q, record h { memory = m }) ≡ mem_alloc size h
unfolding mem_alloc
mem_alloc-walks size b h pos e = rw e (ground arith)

-- mem_alloc is first fit on the row of blocks, the size rounded up to eight bytes.
pub mem_alloc-IsRow :
    (size base : ℕ) (xs : List Piece) (h : Heap)
    → 0 < size
    → IsRow base xs h
    → let (ptr, h') = mem_alloc size h in
      (ptr ≡ fit_at (align_up size) base xs) × IsRow base (fit (align_up size) xs) h'
unfolding mem_alloc
mem_alloc-IsRow size base [] h pos r =
    subst (λ (s : Option ℕ × Heap). (s.0 ≡ none) × IsRow base [] s.1) {x = (none, h)}
      (ground (arith, r.based)) (refl, r)
mem_alloc-IsRow size base (x ∷ xs) h pos r =
    let (q, l, below) =
      first_fit-Laid h.total_bytes h.memory none base (align_up size) (x ∷ xs)
        (base + h.total_bytes) (row-steps r) r.small r.laid in
    subst
      (λ (s : Option ℕ × Heap).
        (s.0 ≡ fit_at (align_up size) base (x ∷ xs))
        × IsRow base (fit (align_up size) (x ∷ xs)) s.1)
      (mem_alloc-walks size base h pos r.based)
      (
        q,
        record {
          based = r.based ∙ sym (start-fit (align_up size) base (x ∷ xs));
          laid = l;
          small = r.small;
          apart = coalesced-fit (align_up size) (x ∷ xs) r.apart;
        },
      )

-- mem_free of a block in use.
pub mem_free-IsRow :
    (b n base : ℕ) (xs : List Piece) (h : Heap)
    → IsRow base xs h
    → taken base xs b ≡ some n
    → IsRow base (release base b xs) (mem_free (some (b + 32)) h)
unfolding mem_free
mem_free-IsRow b n base [] h r t = absurd (ground (arith, t))
mem_free-IsRow b n base (x ∷ xs) h r t =
    subst (λ c. IsRow base (release base b (x ∷ xs)) (record h { memory = freed h.memory c }))
      {x = b} (omega arith)
      (record {
        based = r.based ∙ sym (start-release base b x xs);
        laid = freed-Laid h.memory base b n (x ∷ xs) (base + h.total_bytes) r.small t r.laid;
        small = r.small;
        apart = coalesced-release base b (x ∷ xs) r.apart;
      })

-- What a successful request for `size` bytes leaves: the block at `b`, which was not in use, has at
-- least the bytes and fewer than 47 more, and the other blocks in use are the same.
abbrev pub Handed : ℕ → ℕ → List Piece → List Piece → ℕ → Type 0
Handed base size xs ys b =
    (taken base xs b ≡ none)
    × ((n : ℕ) × (taken base ys b ≡ some n) × (size ≤ n) × (n < size + 47))
    × ((c : ℕ) → (b == c) ≡ false → taken base ys c ≡ taken base xs c)

-- For a size from 1 to 2^64 - 8, mem_alloc keeps the heap a row of blocks without two free
-- neighbours. It returns NULL exactly when no free block holds the size rounded up, and then the
-- blocks stay as they are; otherwise it returns a block that was not in use, with at least the bytes
-- asked for and fewer than 47 more, and no other block goes into or out of use.
pub mem_alloc-Handed :
    (size base : ℕ) (xs : List Piece) (h : Heap)
    → 0 < size
    → size + 7 < 2 ^ 64
    → IsRow base xs h
    → let (ptr, h') = mem_alloc size h in
      let fits = served (align_up size) xs in
      (ys : List Piece) × IsRow base ys h'
      × (((fits ≡ false) × (ptr ≡ none) × (ys ≡ xs))
          ⊎ ((fits ≡ true) × ((b : ℕ) × (ptr ≡ some (b + 32)) × Handed base size xs ys b)))
mem_alloc-Handed size base xs h pos hi r =
    let (ptr, row) = mem_alloc-IsRow size base xs h pos r in
    (
      fit (align_up size) xs,
      row,
      elim (Bool-cases (served (align_up size) xs)) [
        | inl e ↦
            let (b, f) = fit_at-finds (align_up size) base xs e in
            let (fresh, (n, t, le, lt), same) = fit-Gives (align_up size) base b xs f in
            inr (e, (b, ptr ∙ f, (fresh, (n, t, omega (arith, le), omega (arith, lt)), same)))
        | inr e ↦
            let (no_ptr, kept) = fit_at-served (align_up size) base xs e in
            inl (e, ptr ∙ no_ptr, kept)
      ],
    )

-- A block that mem_alloc returned for a size above 0 and mem_free takes back leaves the row of blocks,
-- without two free neighbours, as it was.
pub mem_free-mem_alloc :
    (size base p : ℕ) (xs : List Piece) (h : Heap)
    → 0 < size
    → IsRow base xs h
    → (mem_alloc size h).0 ≡ some p
    → IsRow base xs (mem_free (some p) (mem_alloc size h).1)
mem_free-mem_alloc size base p xs h pos r e =
    let (ptr, row) = mem_alloc-IsRow size base xs h pos r in
    let b = p - 32 in
    let at : p ≡ b + 32 = omega (arith, fit_at-above (align_up size) base p xs (sym ptr ∙ e)) in
    let f : fit_at (align_up size) base xs ≡ some (b + 32) = sym ptr ∙ e ∙ ap some at in
    let (fresh, (n, t, le, lt), same) = fit-Gives (align_up size) base b xs f in
    let back = mem_free-IsRow b n base (fit (align_up size) xs) (mem_alloc size h).1 row t in
    subst (λ ys. IsRow base ys (mem_free (some p) (mem_alloc size h).1))
      (release-fit (align_up size) base b xs f r.apart)
      (subst
        (λ q.
          IsRow base (release base b (fit (align_up size) xs))
            (mem_free (some q) (mem_alloc size h).1))
        (sym at) back)

-- mem_free of a block in use takes it, and no other, out of use, and the heap stays a row of blocks
-- without two free neighbours.
pub mem_free-frees :
    (b n base : ℕ) (xs : List Piece) (h : Heap)
    → IsRow base xs h
    → taken base xs b ≡ some n
    → (ys : List Piece) × IsRow base ys (mem_free (some (b + 32)) h)
      × ((c : ℕ) → taken base ys c ≡ (if b == c then none else taken base xs c))
mem_free-frees b n base xs h r t =
    (release base b xs, mem_free-IsRow b n base xs h r t, λ c. taken-release base b c n xs t)

-- On a row of blocks, a size within seven bytes of 2^64 is rounded up to 0: where any block is
-- free, mem_alloc returns a block of fewer than 40 bytes.
pub mem_alloc-wraps :
    (size base : ℕ) (xs : List Piece) (h : Heap)
    → 2 ^ 64 - 7 ≤ size
    → size < 2 ^ 64
    → IsRow base xs h
    → served 0 xs ≡ true
    → let (ptr, h') = mem_alloc size h in
      (ys : List Piece) × IsRow base ys h'
      × ((b : ℕ) × (ptr ≡ some (b + 32)) × ((n : ℕ) × (taken base ys b ≡ some n) × (n < 40)))
mem_alloc-wraps size base xs h lo hi r some_free =
    let (ptr, row) = mem_alloc-IsRow size base xs h (omega (arith, lo)) r in
    let w : align_up size ≡ 0 = omega (arith, lo, hi) in
    let (b, f) = fit_at-finds 0 base xs some_free in
    let (fresh, (n, t, le, lt), same) = fit-Gives 0 base b xs f in
    (
      fit 0 xs,
      subst (λ s. IsRow base (fit s xs) (mem_alloc size h).1) w row,
      (b, ptr ∙ ap (λ s. fit_at s base xs) w ∙ f, (n, t, omega (arith, lt))),
    )
