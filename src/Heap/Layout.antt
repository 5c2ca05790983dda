-- ===== src/Heap/Layout.antt =====
-- How the headers of memory/memoryManager.c lie in memory: one after the other, doubly linked.
use tp2_so_g.Base.{
  ℕ, ◌+◌, ◌*◌, ◌≤◌, ◌<◌, ◌≡◌, refl, ◌∙◌, Bool, Option, none, some, List, [], ◌∷◌, arith, length,
  Bool-cases, ==→eq, inl, inr,
}
use tp2_so_g.Base.{◌==◌, if◌then◌else◌}
use tp2_so_g.Heap.{Block, set_prev}

-- What the abstract view keeps of a block.
pub record Piece : Type 0 where
  pub bytes : ℕ
  pub free : Bool

abbrev pub header : Piece → Option ℕ → Option ℕ → Block
header x p n = record { size = x.bytes; free = x.free; prev = p; next = n }

-- The pointer to the first of the blocks that start at `a`.
abbrev pub start : ℕ → List Piece → Option ℕ
start a [] = none
start a (_ ∷ _) = some a

-- The address of the block after the one at `a`.
abbrev pub after : ℕ → Piece → ℕ
after a x = a + 32 + x.bytes

abbrev pub Laid : (ℕ → Block) → Option ℕ → ℕ → List Piece → ℕ → Type 0
Laid m p a [] top = a ≡ top
Laid m p a (x ∷ xs) top =
    (m a ≡ header x p (start (after a x) xs)) × Laid m (some a) (after a x) xs top

-- The blocks after `a` do not depend on what lies before.
pub Laid-frame :
    (m m' : ℕ → Block) (p : Option ℕ) (a : ℕ) (xs : List Piece) (top : ℕ)
    → ((i : ℕ) → a ≤ i → m' i ≡ m i)
    → Laid m p a xs top
    → Laid m' p a xs top
Laid-frame m m' p a [] top same l = l
Laid-frame m m' p a (x ∷ xs) top same (e, l) = (
  same a (omega arith) ∙ e,
  Laid-frame m m' (some a) (after a x) xs top (λ i h. same i (omega arith)) l,
)

-- A block takes at least its header.
pub Laid-below :
    (m : ℕ → Block) (p : Option ℕ) (a : ℕ) (xs : List Piece) (top : ℕ)
    → Laid m p a xs top
    → a + 32 * length xs ≤ top
Laid-below m p a [] top l = omega (arith, l)
Laid-below m p a (x ∷ xs) top (e, l) = omega (arith, Laid-below m (some a) (after a x) xs top l)

pub set_prev-below :
    (m : ℕ → Block) (p : Option ℕ) (a : ℕ) (xs : List Piece) (i : ℕ)
    → i < a
    → set_prev (start a xs) p m i ≡ m i
unfolding set_prev
set_prev-below m p a [] i h = refl
set_prev-below m p a (x ∷ xs) i h = ground arith

pub set_prev-Laid :
    (m : ℕ → Block) (p p' : Option ℕ) (a : ℕ) (xs : List Piece) (top : ℕ)
    → Laid m p a xs top
    → Laid (set_prev (start a xs) p' m) p' a xs top
unfolding set_prev
set_prev-Laid m p p' a [] top l = l
set_prev-Laid m p p' a (x ∷ xs) top (e, l) =
    (ground (arith, e), Laid-frame m _ (some a) (after a x) xs top (λ i h. ground arith) l)

-- The bytes of the block in use whose header is at `b`.
abbrev pub taken : ℕ → List Piece → ℕ → Option ℕ
taken a [] b = none
taken a (x ∷ xs) b =
    let rest = taken (after a x) xs b in
    if a == b then (if x.free then none else some x.bytes) else rest

pub taken-below : (a : ℕ) (xs : List Piece) (b : ℕ) → b < a → taken a xs b ≡ none
taken-below a [] b h = refl
taken-below a (x ∷ xs) b h = ground (arith, taken-below (after a x) xs b (omega arith))

pub taken-above : (a : ℕ) (xs : List Piece) (b n : ℕ) → taken a xs b ≡ some n → a ≤ b
taken-above a [] b n h = absurd (ground (arith, h))
taken-above a (x ∷ xs) b n h = elim (Bool-cases (a == b)) [
  | inl e ↦ ground (arith, ==→eq a b e)
  | inr e ↦
      let rest : taken (after a x) xs b ≡ some n = ground (arith, h) in
      omega (arith, taken-above (after a x) xs b n rest)
]
