-- ===== src/Heap/Pieces.antt =====
-- First fit on the list of the blocks: what is given out.
use tp2_so_g.Base.{
  ℕ, ◌+◌, ◌-◌, ◌≤◌, ◌<◌, ◌≡◌, refl, sym, subst, inl, inr, Bool, true, false, not, ◌||◌, ◌&&◌, none,
  some, List, [], ◌∷◌, arith, Bool-cases,
}
use tp2_so_g.Base.{◌==◌, if◌then◌else◌, leb}
use tp2_so_g.Heap.Layout.{Piece, after, taken, taken-below}
use tp2_so_g.Heap.Fit.{suits, cut, fit, fit_at}

-- Whether a free block serves a request.
abbrev pub served : ℕ → List Piece → Bool
served size [] = false
served size (x ∷ xs) = suits size x || served size xs

abbrev pub starts_free : List Piece → Bool
starts_free [] = false
starts_free (x ∷ _) = x.free

-- No two free blocks stand next to each other.
abbrev pub coalesced : List Piece → Bool
coalesced [] = true
coalesced (x ∷ xs) = not (x.free && starts_free xs) && coalesced xs

pub fit_at-served :
    (size a : ℕ) (xs : List Piece)
    → served size xs ≡ false
    → (fit_at size a xs ≡ none) × (fit size xs ≡ xs)
fit_at-served size a [] h = (refl, refl)
fit_at-served size a (x ∷ xs) h =
    let (p, q) = fit_at-served size (after a x) xs (ground (arith, h)) in
    (ground (arith, p, h), ground (arith, q, h))

pub fit_at-above : (size a q : ℕ) (xs : List Piece) → fit_at size a xs ≡ some q → a + 32 ≤ q
fit_at-above size a q [] h = absurd (ground (arith, h))
fit_at-above size a q (x ∷ xs) h = elim (Bool-cases (suits size x)) [
  | inl e ↦ ground (arith, e, h)
  | inr e ↦
      let rest : fit_at size (after a x) xs ≡ some q = ground (arith, e, h) in
      omega (arith, fit_at-above size (after a x) q xs rest)
]

pub fit_at-finds :
    (size a : ℕ) (xs : List Piece)
    → served size xs ≡ true
    → (b : ℕ) × (fit_at size a xs ≡ some (b + 32))
fit_at-finds size a [] h = absurd (ground (arith, h))
fit_at-finds size a (x ∷ xs) h = elim (Bool-cases (suits size x)) [
  | inl e ↦ (a, ground (arith, e))
  | inr e ↦
      let (b, f) = fit_at-finds size (after a x) xs (ground (arith, e, h)) in
      (b, ground (arith, e, f))
]

-- The block that is given out was free, holds the bytes, and every other block stays as it is.
abbrev pub Gives : ℕ → ℕ → List Piece → ℕ → Type 0
Gives size a xs b =
    (taken a xs b ≡ none)
    × ((n : ℕ) × (taken a (fit size xs) b ≡ some n) × (size ≤ n) × (n < size + 40))
    × ((c : ℕ) → (b == c) ≡ false → taken a (fit size xs) c ≡ taken a xs c)

-- The bytes that a request gets of a block.
abbrev pub given : ℕ → Piece → ℕ
given size x = if leb (size + 40) x.bytes then size else x.bytes

taken-cut :
    (size a c : ℕ) (x : Piece) (xs : List Piece)
    → taken a (cut size x xs) c ≡ (if a == c then some (given size x) else taken (after a x) xs c)
taken-cut size a c x xs = cases (leb (size + 40) x.bytes) refl
  where
    split : ℕ → List Piece
    split n = record { bytes = size; free = false } ∷ record { bytes = n; free = true } ∷ xs

    cases :
        (t : Bool)
        → leb (size + 40) x.bytes ≡ t
        → taken a
            (if t
              then split (x.bytes - size - 32)
              else record { bytes = x.bytes; free = false } ∷ xs)
            c
          ≡ (if a == c then some (if t then size else x.bytes) else taken (after a x) xs c)
    cases true e =
        let at : after (a + 32 + size) (record { bytes = x.bytes - size - 32; free = true })
            ≡ after a x =
          ground (arith, e) in
        subst
          (λ d.
            (if a == c then some size else (if a + 32 + size == c then none else taken d xs c))
            ≡ (if a == c then some size else taken (after a x) xs c))
          (sym at) (ground (arith, e, taken-below (after a x) xs c))
    cases false e = refl

fit-first :
    (size a : ℕ) (x : Piece) (xs : List Piece) → suits size x ≡ true → Gives size a (x ∷ xs) a
fit-first size a x xs h = (
  ground (arith, h),
  (given size x, ground (arith, h, taken-cut size a a x xs), ground (arith, h), ground arith),
  λ c ne. ground (arith, h, taken-cut size a c x xs),
)

fit-later :
    (size a b : ℕ) (x : Piece) (xs : List Piece)
    → suits size x ≡ false
    → after a x ≤ b
    → Gives size (after a x) xs b
    → Gives size a (x ∷ xs) b
fit-later size a b x xs h up (f, (n, t, le, lt), same) =
    (ground (arith, h, f), (n, ground (arith, h, t), le, lt), λ c ne. ground (arith, h, same c ne))

pub fit-Gives :
    (size a b : ℕ) (xs : List Piece) → fit_at size a xs ≡ some (b + 32) → Gives size a xs b
fit-Gives size a b [] h = absurd (ground (arith, h))
fit-Gives size a b (x ∷ xs) h = elim (Bool-cases (suits size x)) [
  | inl e ↦
      let at : a ≡ b = ground (arith, e, h) in
      subst (λ b. Gives size a (x ∷ xs) b) at (fit-first size a x xs e)
  | inr e ↦
      let rest : fit_at size (after a x) xs ≡ some (b + 32) = ground (arith, e, h) in
      let up = fit_at-above size (after a x) (b + 32) xs rest in
      fit-later size a b x xs e (omega (arith, up)) (fit-Gives size (after a x) b xs rest)
]

coalesced-cut :
    (size : ℕ) (x : Piece) (xs : List Piece)
    → suits size x ≡ true
    → coalesced (x ∷ xs) ≡ true
    → coalesced (cut size x xs) ≡ true
coalesced-cut size x xs h c = ground (arith, h, c)

starts_free-fit :
    (size : ℕ) (xs : List Piece) → starts_free xs ≡ false → starts_free (fit size xs) ≡ false
starts_free-fit size [] h = refl
starts_free-fit size (x ∷ xs) h = ground (arith, h)

pub coalesced-fit :
    (size : ℕ) (xs : List Piece) → coalesced xs ≡ true → coalesced (fit size xs) ≡ true
coalesced-fit size [] c = refl
coalesced-fit size (x ∷ xs) c = elim (Bool-cases (suits size x)) [
  | inl e ↦ ground (arith, e, coalesced-cut size x xs e c)
  | inr e ↦ ground (arith, e, c, starts_free-fit size xs, coalesced-fit size xs)
]
