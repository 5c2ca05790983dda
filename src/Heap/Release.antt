-- ===== src/Heap/Release.antt =====
-- The merges of mem_free on the list of the blocks.
use tp2_so_g.Base.{
  ℕ, ◌+◌, ◌%◌, ◌^◌, ◌<◌, ◌≡◌, refl, sym, ap, subst, Bool, true, false, ◌&&◌, Option, none, some,
  List, [], ◌∷◌, arith, update,
}
use tp2_so_g.Base.{◌==◌, if◌then◌else◌}
use tp2_so_g.Heap.{Block, set_prev, absorb, merge_next, merge_prev}
use tp2_so_g.Heap.Layout.{
  Piece, header, start, after, Laid, Laid-frame, Laid-below, set_prev-below, set_prev-Laid,
}

-- Two blocks made one.
abbrev pub joined : Piece → Piece → Piece
joined x y = record { bytes = x.bytes + (32 + y.bytes); free = x.free }

-- A block before others, made one with the next where both are free.
abbrev pub glue : Piece → List Piece → List Piece
glue x [] = x ∷ []
glue x (y ∷ ys) = if x.free && y.free then joined x y ∷ ys else x ∷ y ∷ ys

-- The blocks after the one with its header at `b` is freed.
abbrev pub release : ℕ → ℕ → List Piece → List Piece
release a b [] = []
release a b (x ∷ xs) =
    let rest = release (after a x) b xs in
    if a == b
    then glue (record x { free = true }) xs
    else (if after a x == b then glue x rest else x ∷ rest)

-- absorb with the pointer to the next block given.
abbrev absorb_before : (ℕ → Block) → ℕ → ℕ → Option ℕ → ℕ → Block
absorb_before m b c n =
    set_prev n (some b)
      (update m b (record (m b) { size = ((m b).size + (32 + (m c).size)) % 2 ^ 64; next = n }))

absorb_before-Laid :
    (m : ℕ → Block) (p : Option ℕ) (a : ℕ) (x y : Piece) (ys : List Piece) (top : ℕ)
    → top < 2 ^ 63
    → Laid m p a (x ∷ y ∷ ys) top
    → Laid
        (absorb_before m a (after a x) (start (after (after a x) y) ys))
        p
        a
        (joined x y ∷ ys)
        top
absorb_before-Laid m p a x y ys top b (e, (f, l)) =
    let c = after a x in
    let d = after c y in
    let n = start d ys in
    let m1 =
      update m a (record (m a) { size = ((m a).size + (32 + (m c).size)) % 2 ^ 64; next = n }) in
    let small = Laid-below m (some c) d ys top l in
    let w : (x.bytes + (32 + y.bytes)) % 2 ^ 64 ≡ x.bytes + (32 + y.bytes) = omega (arith, small) in
    let at_a = set_prev-below m1 (some a) d ys a (omega arith) in
    let end_d : after a (joined x y) ≡ d = omega arith in
    subst
      (λ t.
        (absorb_before m a c n a ≡ header (joined x y) p (start t ys))
        × Laid (absorb_before m a c n) (some a) t ys top)
      (sym end_d)
      (
        ground (arith, at_a, e, f, w),
        set_prev-Laid m1 (some c) (some a) d ys top
            (Laid-frame m m1 (some c) d ys top (λ i g. ground arith) l),
      )

absorb-Laid :
    (m : ℕ → Block) (p : Option ℕ) (a : ℕ) (x y : Piece) (ys : List Piece) (top : ℕ)
    → top < 2 ^ 63
    → Laid m p a (x ∷ y ∷ ys) top
    → Laid (absorb m a (after a x)) p a (joined x y ∷ ys) top
unfolding absorb
absorb-Laid m p a x y ys top b l =
    subst (λ n. Laid (absorb_before m a (after a x) n) p a (joined x y ∷ ys) top)
      (sym (ap (λ b. b.next) l.1.0)) (absorb_before-Laid m p a x y ys top b l)

absorb-below :
    (m : ℕ → Block) (p : Option ℕ) (a : ℕ) (x y : Piece) (ys : List Piece) (top i : ℕ)
    → Laid m p a (x ∷ y ∷ ys) top
    → i < a
    → absorb m a (after a x) i ≡ m i
unfolding absorb
absorb-below m p a x y ys top i l h =
    let c = after a x in
    let d = after c y in
    let m1 =
      update m a
        (record (m a) { size = ((m a).size + (32 + (m c).size)) % 2 ^ 64; next = (m c).next }) in
    ground (arith, set_prev-below m1 (some a) d ys i (omega arith), ap (λ b. b.next) l.1.0)

-- What a step that rewrites the blocks from `a` on leaves.
abbrev pub Rewrites : (ℕ → Block) → (ℕ → Block) → Option ℕ → ℕ → List Piece → ℕ → Type 0
Rewrites m m' p a xs top = Laid m' p a xs top × ((i : ℕ) → i < a → m' i ≡ m i)

glue-Rewrites :
    (m : ℕ → Block) (p : Option ℕ) (a : ℕ) (x y : Piece) (ys : List Piece) (top : ℕ)
    → top < 2 ^ 63
    → Laid m p a (x ∷ y ∷ ys) top
    → Rewrites m (if x.free && y.free then absorb m a (after a x) else m) p a (glue x (y ∷ ys)) top
glue-Rewrites m p a x y ys top b l = cases (x.free && y.free)
  where
    cases :
        (t : Bool)
        → Rewrites m
            (if t then absorb m a (after a x) else m)
            p
            a
            (if t then joined x y ∷ ys else x ∷ y ∷ ys)
            top
    cases true = (absorb-Laid m p a x y ys top b l, λ i h. absorb-below m p a x y ys top i l h)
    cases false = (l, λ i h. refl)

pub merge_next-Rewrites :
    (m : ℕ → Block) (p : Option ℕ) (a : ℕ) (x : Piece) (xs : List Piece) (top : ℕ)
    → top < 2 ^ 63
    → x.free ≡ true
    → Laid m p a (x ∷ xs) top
    → Rewrites m (merge_next m a) p a (glue x xs) top
unfolding merge_next
merge_next-Rewrites m p a x [] top b f l =
    subst
      (λ n.
        Rewrites m (elim n [ none ↦ m | some c ↦ if (m c).free then absorb m a c else m ]) p a
          (x ∷ []) top)
      (sym (ap (λ b. b.next) l.0)) (l, λ i h. refl)
merge_next-Rewrites m p a x (y ∷ ys) top b f l =
    subst
      (λ n.
        Rewrites m (elim n [ none ↦ m | some c ↦ if (m c).free then absorb m a c else m ]) p a
          (glue x (y ∷ ys)) top)
      (sym (ap (λ b. b.next) l.0))
      (subst (λ t. Rewrites m (if t then absorb m a (after a x) else m) p a (glue x (y ∷ ys)) top)
        (ground (arith, f, l.1.0)) (glue-Rewrites m p a x y ys top b l))

pub merge_prev-Rewrites :
    (m : ℕ → Block) (p : Option ℕ) (a : ℕ) (x y : Piece) (ys : List Piece) (top : ℕ)
    → top < 2 ^ 63
    → y.free ≡ true
    → Laid m p a (x ∷ y ∷ ys) top
    → Rewrites m (merge_prev m (after a x)) p a (glue x (y ∷ ys)) top
unfolding merge_prev
merge_prev-Rewrites m p a x y ys top b f l =
    let c = after a x in
    subst
      (λ n.
        Rewrites m (elim n [ none ↦ m | some c' ↦ if (m c').free then absorb m c' c else m ]) p a
          (glue x (y ∷ ys)) top)
      (sym (ap (λ b. b.prev) l.1.0))
      (subst (λ t. Rewrites m (if t then absorb m a (after a x) else m) p a (glue x (y ∷ ys)) top)
        (ground (arith, f, l.0)) (glue-Rewrites m p a x y ys top b l))
