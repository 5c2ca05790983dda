-- ===== src/Tests/Heaps.antt =====
-- The first-fit allocator on a heap of a kilobyte.
use tp2_so_g.Base.{
  ℕ, ◌+◌, ◌-◌, ◌^◌, ◌<◌, ◌≡◌, ◌⊎◌, refl, true, false, none, some, List, [], ◌∷◌, arith, ◌==◌,
  if◌then◌else◌,
}
use tp2_so_g.Heap.{Heap, align_up, mem_init, mem_alloc, mem_free}
use tp2_so_g.Heap.Layout.{Piece, taken}
use tp2_so_g.Heap.Pieces.{served}
use tp2_so_g.Heap.Calls.{
  IsRow, Handed, mem_init-IsRow, mem_alloc-IsRow, mem_alloc-Handed, mem_free-mem_alloc,
  mem_free-frees, mem_alloc-wraps,
}

abbrev blank : Heap
blank = record {
  memory = λ i. record { size = 0; free = false; prev = none; next = none };
  base_block = none;
  total_bytes = 0;
}

-- After mem_init(4096, 1024), and after one request for 100 bytes.
abbrev fresh : Heap
fresh = mem_init 4096 1024 blank

abbrev whole : List Piece
whole = record { bytes = 992; free = true } ∷ []

abbrev used : Heap
used = (mem_alloc 100 fresh).1

abbrev parts : List Piece
parts = record { bytes = 104; free = false } ∷ record { bytes = 856; free = true } ∷ []

fresh-IsRow : IsRow 4096 whole fresh
fresh-IsRow = mem_init-IsRow 4096 1024 blank (omega arith) (omega arith)

used-IsRow : IsRow 4096 parts used
used-IsRow = (mem_alloc-IsRow 100 4096 whole fresh (omega arith) fresh-IsRow).1

first_ptr : (mem_alloc 100 fresh).0 ≡ some 4128
unfolding mem_init mem_alloc
first_ptr = refl

second_ptr : (mem_alloc 8 used).0 ≡ some 4264
unfolding mem_init mem_alloc
second_ptr = refl

mem_alloc-Handed_example :
    let (ptr, h') = mem_alloc 9 used in
    let fits = served (align_up 9) parts in
    (ys : List Piece) × IsRow 4096 ys h'
    × (((fits ≡ false) × (ptr ≡ none) × (ys ≡ parts))
        ⊎ ((fits ≡ true) × ((b : ℕ) × (ptr ≡ some (b + 32)) × Handed 4096 9 parts ys b)))
mem_alloc-Handed_example = mem_alloc-Handed 9 4096 parts used (omega arith) (omega arith) used-IsRow

mem_free-mem_alloc_example : IsRow 4096 whole (mem_free (some 4128) (mem_alloc 100 fresh).1)
mem_free-mem_alloc_example =
    mem_free-mem_alloc 100 4096 4128 whole fresh (omega arith) fresh-IsRow first_ptr

mem_free-frees_example :
    (ys : List Piece) × IsRow 4096 ys (mem_free (some 4128) used)
    × ((c : ℕ) → taken 4096 ys c ≡ (if 4096 == c then none else taken 4096 parts c))
mem_free-frees_example = mem_free-frees 4096 104 4096 parts used used-IsRow refl

mem_alloc-wraps_example :
    let (ptr, h') = mem_alloc (2 ^ 64 - 1) used in
    (ys : List Piece) × IsRow 4096 ys h'
    × ((b : ℕ) × (ptr ≡ some (b + 32)) × ((n : ℕ) × (taken 4096 ys b ≡ some n) × (n < 40)))
mem_alloc-wraps_example =
    mem_alloc-wraps (2 ^ 64 - 1) 4096 parts used (omega arith) (omega arith) used-IsRow refl
