-- ===== src/Heap/Status.antt =====
-- mem_status on a heap whose blocks lie as they should.
use tp2_so_g.Base.{
  ℕ, zero, suc, ◌+◌, ◌-◌, ◌%◌, ◌^◌, ◌≤◌, ◌<◌, ◌≡◌, sym, ap, subst, Option, none, some, List, [],
  ◌∷◌, arith, length,
}
use tp2_so_g.Base.{if◌then◌else◌}
use tp2_so_g.Heap.{Block, Heap, MemoryInfo, sum_free, mem_status}
use tp2_so_g.Heap.Layout.{Piece, start, after, Laid, Laid-below}
use tp2_so_g.Heap.Calls.{row-steps, IsRow}

pub free_bytes : List Piece → ℕ
free_bytes [] = 0
free_bytes (x ∷ xs) = let rest = free_bytes xs in if x.free then x.bytes + rest else rest

pub free_count : List Piece → ℕ
free_count [] = 0
free_count (x ∷ xs) = let rest = free_count xs in if x.free then suc rest else rest

free_bytes-below :
    (m : ℕ → Block) (p : Option ℕ) (a : ℕ) (xs : List Piece) (top : ℕ)
    → Laid m p a xs top
    → a + free_bytes xs ≤ top
unfolding free_bytes
free_bytes-below m p a [] top l = omega (arith, l)
free_bytes-below m p a (x ∷ xs) top l =
    ground (arith, free_bytes-below m (some a) (after a x) xs top l.1)

sum_free-start :
    (fuel : ℕ) (m : ℕ → Block) (p : Option ℕ) (a : ℕ) (xs : List Piece) (top free fragments : ℕ)
    → length xs ≤ fuel
    → free + (top - a) < 2 ^ 64
    → Laid m p a xs top
    → sum_free fuel m (start a xs) free fragments
      ≡ (free + free_bytes xs, fragments + free_count xs)
unfolding sum_free free_bytes free_count
sum_free-start zero m p a [] top free fragments n b l = ground arith
sum_free-start zero m p a (x ∷ xs) top free fragments n b l = absurd (omega (arith, n))
sum_free-start (suc fuel) m p a [] top free fragments n b l = ground arith
sum_free-start (suc fuel) m p a (x ∷ xs) top free fragments n b l =
    let c = after a x in
    let below = Laid-below m (some a) c xs top l.1 in
    let w : (free + x.bytes) % 2 ^ 64 ≡ free + x.bytes = omega (arith, b, below) in
    let counted =
      sum_free-start fuel m (some a) c xs top (free + x.bytes) (fragments + 1) (omega (arith, n))
        (omega (arith, b, below)) l.1 in
    let passed =
      sum_free-start fuel m (some a) c xs top free fragments (omega (arith, n))
        (omega (arith, b, below)) l.1 in
    let next : (m a).next ≡ start c xs = ap (λ b. b.next) l.0 in
    let size : (m a).size ≡ x.bytes = ap (λ b. b.size) l.0 in
    let flag : (m a).free ≡ x.free = ap (λ b. b.free) l.0 in
    subst
      (λ nx.
        (if (m a).free
          then sum_free fuel m nx ((free + (m a).size) % 2 ^ 64) (fragments + 1)
          else sum_free fuel m nx free fragments)
        ≡ (free + free_bytes (x ∷ xs), fragments + free_count (x ∷ xs)))
      (sym next) (ground (arith, w, counted, passed, size, flag))

-- On a row of blocks, mem_status reports the size of the heap, the bytes and the number of its free
-- blocks, and what is left of the size.
pub mem_status-IsRow :
    (base : ℕ) (xs : List Piece) (h : Heap)
    → IsRow base xs h
    → mem_status h ≡ record {
      total = h.total_bytes;
      occupied = h.total_bytes - free_bytes xs;
      free = free_bytes xs;
      fragments = free_count xs;
    }
unfolding mem_status
mem_status-IsRow base xs h r =
    let sum =
      sum_free-start h.total_bytes h.memory none base xs (base + h.total_bytes) 0 0 (row-steps r)
        (omega (arith, r.small)) r.laid in
    let few = free_bytes-below h.memory none base xs (base + h.total_bytes) r.laid in
    let sizes : free_bytes xs ≤ h.total_bytes = omega (arith, few) in
    let w : (h.total_bytes + (2 ^ 64 - free_bytes xs)) % 2 ^ 64 ≡ h.total_bytes - free_bytes xs =
      omega (arith, sizes, r.small) in
    subst
      (λ b.
        let (free, fragments) = sum_free h.total_bytes h.memory b 0 0 in
        ◌≡◌ {A = MemoryInfo}
          (record {
            total = h.total_bytes;
            free = free;
            fragments = fragments;
            occupied = (h.total_bytes + (2 ^ 64 - free)) % 2 ^ 64;
          })
          (record {
            total = h.total_bytes;
            occupied = h.total_bytes - free_bytes xs;
            free = free_bytes xs;
            fragments = free_count xs;
          }))
      (sym r.based) (ground (arith, sum, w))
