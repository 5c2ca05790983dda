-- ===== src/Heap/Returns.antt =====
-- Release on the list of the blocks: what is taken back.
use tp2_so_g.Base.{
  ℕ, ◌+◌, ◌-◌, ◌<◌, ◌≡◌, refl, sym, subst, inl, inr, Bool, true, false, ◌&&◌, none, some, List, [],
  ◌∷◌, arith, Bool-cases,
}
use tp2_so_g.Base.{◌==◌, if◌then◌else◌, leb}
use tp2_so_g.Heap.Layout.{Piece, after, taken, taken-below, taken-above}
use tp2_so_g.Heap.Fit.{suits, cut, fit, fit_at}
use tp2_so_g.Heap.Release.{joined, glue, release}
use tp2_so_g.Heap.Pieces.{starts_free, coalesced, fit_at-above}

taken-glue : (a c : ℕ) (x : Piece) (xs : List Piece) → taken a (glue x xs) c ≡ taken a (x ∷ xs) c
taken-glue a c x [] = refl
taken-glue a c x (y ∷ ys) =
    let at : after a (joined x y) ≡ after (after a x) y = omega arith in
    let below = taken-below (after (after a x) y) ys c in cases (x.free && y.free) refl at below
  where
    cases :
        (t : Bool)
        → (x.free && y.free) ≡ t
        → after a (joined x y) ≡ after (after a x) y
        → (c < after (after a x) y → taken (after (after a x) y) ys c ≡ none)
        → taken a (if t then joined x y ∷ ys else x ∷ y ∷ ys) c ≡ taken a (x ∷ y ∷ ys) c
    cases true e at below =
        subst
          (λ d.
            (if a == c
              then (if x.free then none else some (x.bytes + (32 + y.bytes)))
              else taken d ys c)
            ≡ taken a (x ∷ y ∷ ys) c)
          (sym at) (ground (arith, e, below))
    cases false e at below = refl

-- Afterwards the block is not in use, and every other block is as it was.
pub taken-release :
    (a b c n : ℕ) (xs : List Piece)
    → taken a xs b ≡ some n
    → taken a (release a b xs) c ≡ (if b == c then none else taken a xs c)
taken-release a b c n [] h = absurd (ground (arith, h))
taken-release a b c n (x ∷ xs) h = elim (Bool-cases (a == b)) [
  | inl e ↦ ground (arith, e, h, taken-glue a c (record x { free = true }) xs)
  | inr e ↦
      let rest : taken (after a x) xs b ≡ some n = ground (arith, e, h) in
      let up = taken-above (after a x) xs b n rest in
      ground (
        arith,
        e,
        up,
        taken-glue a c x (release (after a x) b xs),
        taken-release (after a x) b c n xs rest,
      )
]

coalesced-glue : (x : Piece) (xs : List Piece) → coalesced xs ≡ true → coalesced (glue x xs) ≡ true
coalesced-glue x [] h = ground arith
coalesced-glue x (y ∷ ys) h = ground (arith, h)

starts_free-glue : (x : Piece) (xs : List Piece) → starts_free (glue x xs) ≡ x.free
starts_free-glue x [] = refl
starts_free-glue x (y ∷ ys) = ground arith

starts_free-release :
    (a b : ℕ) (xs : List Piece) → (a == b) ≡ false → starts_free (release a b xs) ≡ starts_free xs
starts_free-release a b [] h = refl
starts_free-release a b (x ∷ xs) h =
    ground (arith, h, starts_free-glue x (release (after a x) b xs))

pub coalesced-release :
    (a b : ℕ) (xs : List Piece) → coalesced xs ≡ true → coalesced (release a b xs) ≡ true
coalesced-release a b [] h = refl
coalesced-release a b (x ∷ xs) h =
    let rest = coalesced-release (after a x) b xs (ground (arith, h)) in
    ground (
      arith,
      h,
      rest,
      coalesced-glue (record x { free = true }) xs,
      coalesced-glue x (release (after a x) b xs),
      starts_free-release (after a x) b xs,
    )

glue-apart : (x : Piece) (xs : List Piece) → (x.free && starts_free xs) ≡ false → glue x xs ≡ x ∷ xs
glue-apart x [] h = refl
glue-apart x (y ∷ ys) h = ground (arith, h)

release-cut :
    (size a : ℕ) (x : Piece) (xs : List Piece)
    → suits size x ≡ true
    → coalesced (x ∷ xs) ≡ true
    → release a a (cut size x xs) ≡ x ∷ xs
release-cut size a x xs h c = cases (leb (size + 40) x.bytes) refl
  where
    cases :
        (t : Bool)
        → leb (size + 40) x.bytes ≡ t
        → release a a (
            if t
            then record { bytes = size; free = false }
              ∷ record { bytes = x.bytes - size - 32; free = true }
              ∷ xs
            else record { bytes = x.bytes; free = false } ∷ xs)
          ≡ x ∷ xs
    cases true e =
        let n : size + (32 + (x.bytes - size - 32)) ≡ x.bytes = ground (arith, e) in
        ground (arith, n, h)
    cases false e = ground (arith, h, c, glue-apart (record { bytes = x.bytes; free = true }) xs)

-- What was given out and is freed leaves the blocks as they were.
pub release-fit :
    (size a b : ℕ) (xs : List Piece)
    → fit_at size a xs ≡ some (b + 32)
    → coalesced xs ≡ true
    → release a b (fit size xs) ≡ xs
release-fit size a b [] h c = absurd (ground (arith, h))
release-fit size a b (x ∷ xs) h c = elim (Bool-cases (suits size x)) [
  | inl e ↦
      let at : a ≡ b = ground (arith, e, h) in
      ground (
        arith,
        e,
        subst (λ b. release a b (cut size x xs) ≡ x ∷ xs) at (release-cut size a x xs e c),
      )
  | inr e ↦
      let rest : fit_at size (after a x) xs ≡ some (b + 32) = ground (arith, e, h) in
      let up = fit_at-above size (after a x) (b + 32) xs rest in
      let back = release-fit size (after a x) b xs rest (ground (arith, c)) in
      ground (arith, e, up, back, c, glue-apart x xs)
]
