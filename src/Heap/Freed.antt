-- ===== src/Heap/Freed.antt =====
-- The whole of mem_free on the list of the blocks.
use tp2_so_g.Base.{
  ℕ, ◌^◌, ◌<◌, ◌≡◌, refl, sym, ap, subst, ◌∙◌, inl, inr, Bool, true, false, ◌&&◌, Option, none,
  some, List, [], ◌∷◌, arith, update, Bool-cases, ==→eq,
}
use tp2_so_g.Base.{◌==◌, if◌then◌else◌}
use tp2_so_g.Heap.{Block, absorb, merge_next, merge_prev}
use tp2_so_g.Heap.Layout.{Piece, header, start, after, Laid, taken, taken-above}
use tp2_so_g.Heap.Fit.{mark-Laid}
use tp2_so_g.Heap.Release.{
  joined, glue, release, Rewrites, merge_next-Rewrites, merge_prev-Rewrites,
}

-- What mem_free does to the headers, the block at `b` given.
abbrev pub freed : (ℕ → Block) → ℕ → ℕ → Block
freed m b = merge_prev (merge_next (update m b (record (m b) { free = true })) b) b

-- Marked and made one with the next.
mark_next-Rewrites :
    (m : ℕ → Block) (p : Option ℕ) (a : ℕ) (x : Piece) (xs : List Piece) (top : ℕ)
    → top < 2 ^ 63
    → Laid m p a (x ∷ xs) top
    → Rewrites m
        (merge_next (update m a (record (m a) { free = true })) a)
        p
        a
        (glue (record x { free = true }) xs)
        top
mark_next-Rewrites m p a x xs top b l =
    let m1 = update m a (record (m a) { free = true }) in
    let (r, same) =
      merge_next-Rewrites m1 p a (record x { free = true }) xs top b refl
        (mark-Laid m p a true x xs top l) in
    (r, λ i h. same i h ∙ ground arith)

-- The first of the blocks stays first, and free, when it takes in the next one.
glue-head :
    (x : Piece) (xs : List Piece)
    → (z : Piece) × ((zs : List Piece) × (glue x xs ≡ z ∷ zs) × (z.free ≡ x.free))
glue-head x [] = (x, ([], refl, refl))
glue-head x (y ∷ ys) = cases (x.free && y.free)
  where
    cases :
        (t : Bool)
        → (z : Piece) × ((zs : List Piece) × ((if t then joined x y ∷ ys else x ∷ y ∷ ys) ≡ z ∷ zs)
            × (z.free ≡ x.free))
    cases true = (joined x y, (ys, refl, refl))
    cases false = (x, (y ∷ ys, refl, refl))

freed-first :
    (m : ℕ → Block) (a : ℕ) (x : Piece) (xs : List Piece) (top : ℕ)
    → top < 2 ^ 63
    → Laid m none a (x ∷ xs) top
    → Rewrites m (freed m a) none a (glue (record x { free = true }) xs) top
unfolding merge_prev
freed-first m a x xs top b l =
    let (r, same) = mark_next-Rewrites m none a x xs top b l in
    let m2 = merge_next (update m a (record (m a) { free = true })) a in
    let (z, (zs, e, f)) = glue-head (record x { free = true }) xs in
    let whole : Laid m2 none a (z ∷ zs) top = subst (λ t. Laid m2 none a t top) e r in
    let alone : (m2 a).prev ≡ none = ap (λ b. b.prev) whole.0 in
    subst
      (λ n.
        Rewrites m (elim n [ none ↦ m2 | some c ↦ if (m2 c).free then absorb m2 c a else m2 ]) none
          a (glue (record x { free = true }) xs) top)
      (sym alone) (r, same)

freed-second :
    (m : ℕ → Block) (p : Option ℕ) (a : ℕ) (x y : Piece) (ys : List Piece) (top : ℕ)
    → top < 2 ^ 63
    → Laid m p a (x ∷ y ∷ ys) top
    → Rewrites m (freed m (after a x)) p a (glue x (glue (record y { free = true }) ys)) top
freed-second m p a x y ys top b (e, l) =
    let c = after a x in
    let (r, same) = mark_next-Rewrites m (some a) c y ys top b l in
    let m2 = merge_next (update m c (record (m c) { free = true })) c in
    let (z, (zs, shape, f)) = glue-head (record y { free = true }) ys in
    let tail : Laid m2 (some a) c (z ∷ zs) top = subst (λ t. Laid m2 (some a) c t top) shape r in
    let whole : Laid m2 p a (x ∷ z ∷ zs) top = (same a (omega arith) ∙ e, tail) in
    let (r', same') = merge_prev-Rewrites m2 p a x z zs top b f whole in
    (
      subst (λ t. Laid (freed m c) p a (glue x t) top) (sym shape) r',
      λ i h. same' i h ∙ same i (omega arith),
    )

start-glue : (a : ℕ) (x : Piece) (xs : List Piece) → start a (glue x xs) ≡ some a
start-glue a x [] = refl
start-glue a x (y ∷ ys) = ground arith

pub start-release :
    (a b : ℕ) (x : Piece) (xs : List Piece) → start a (release a b (x ∷ xs)) ≡ some a
start-release a b x xs =
    ground
      (arith, start-glue a (record x { free = true }) xs, start-glue a x (release (after a x) b xs))

release-second :
    (a : ℕ) (x y : Piece) (ys : List Piece)
    → glue x (glue (record y { free = true }) ys) ≡ release a (after a x) (x ∷ y ∷ ys)
release-second a x y ys = ground arith

release-past :
    (a b : ℕ) (x : Piece) (xs : List Piece)
    → (a == b) ≡ false
    → (after a x == b) ≡ false
    → x ∷ release (after a x) b xs ≡ release a b (x ∷ xs)
release-past a b x xs e f = rw (e, f)

-- mem_free of a block in use that is not the first of these leaves what `release` says.
freed-later :
    (m : ℕ → Block) (p : Option ℕ) (a b n : ℕ) (x : Piece) (xs : List Piece) (top : ℕ)
    → top < 2 ^ 63
    → taken (after a x) xs b ≡ some n
    → Laid m p a (x ∷ xs) top
    → Rewrites m (freed m b) p a (release a b (x ∷ xs)) top
freed-later m p a b n x [] top h t l = absurd (ground (arith, t))
freed-later m p a b n x (y ∷ ys) top h t l = elim (Bool-cases (after a x == b)) [
  | inl e ↦
      subst (λ b. Rewrites m (freed m b) p a (release a b (x ∷ y ∷ ys)) top) (==→eq (after a x) b e)
        (subst (λ zs. Rewrites m (freed m (after a x)) p a zs top) (release-second a x y ys)
          (freed-second m p a x y ys top h l))
  | inr e ↦
      let past : taken (after (after a x) y) ys b ≡ some n = ground (arith, t) in
      let (r, same) = freed-later m (some a) (after a x) b n y ys top h past l.1 in
      let reach = taken-above (after (after a x) y) ys b n past in
      subst (λ zs. Rewrites m (freed m b) p a zs top)
        (release-past a b x (y ∷ ys) (ground (arith, reach)) e)
        (
          (
            same a (omega arith)
                ∙ subst (λ n. m a ≡ header x p n) (sym (start-release (after a x) b y ys)) l.0,
            r,
          ),
          λ i g. same i (omega arith),
        )
]

-- mem_free of any block in use leaves what `release` says.
pub freed-Laid :
    (m : ℕ → Block) (a b n : ℕ) (xs : List Piece) (top : ℕ)
    → top < 2 ^ 63
    → taken a xs b ≡ some n
    → Laid m none a xs top
    → Laid (freed m b) none a (release a b xs) top
freed-Laid m a b n [] top h t l = absurd (ground (arith, t))
freed-Laid m a b n (x ∷ xs) top h t l = elim (Bool-cases (a == b)) [
  | inl e ↦
      subst (λ b. Laid (freed m b) none a (release a b (x ∷ xs)) top) (==→eq a b e)
        (subst (λ zs. Laid (freed m a) none a zs top) (ground arith)
          (freed-first m a x xs top h l).0)
  | inr e ↦ (freed-later m none a b n x xs top h (ground (arith, t)) l).0
]
