-- ===== src/Heap/Fit.antt =====
-- The walk of mem_alloc against first fit on the list of the blocks.
use tp2_so_g.Base.{
  ℕ, zero, suc, ◌+◌, ◌-◌, ◌%◌, ◌^◌, ◌≤◌, ◌<◌, ◌≡◌, refl, sym, ap, subst, ◌∙◌, Bool, true, false,
  not, ◌||◌, ◌&&◌, Option, none, some, List, [], ◌∷◌, arith, update, length,
}
use tp2_so_g.Base.{if◌then◌else◌, leb, ltb}
use tp2_so_g.Heap.{Block, set_prev, split_block, take_block, first_fit}
use tp2_so_g.Heap.Layout.{
  Piece, header, start, after, Laid, Laid-frame, Laid-below, set_prev-below, set_prev-Laid,
}

-- Whether a block serves a request.
abbrev pub suits : ℕ → Piece → Bool
suits size x = x.free && leb size x.bytes

-- A block given to a request: cut in two when the rest can be a block of eight bytes or more.
abbrev pub cut : ℕ → Piece → List Piece → List Piece
cut size x xs =
    if leb (size + 40) x.bytes
    then record { bytes = size; free = false }
      ∷ record { bytes = x.bytes - size - 32; free = true }
      ∷ xs
    else record { bytes = x.bytes; free = false } ∷ xs

-- First fit on the list of the blocks, and the address of the payload it gives out.
abbrev pub fit : ℕ → List Piece → List Piece
fit size [] = []
fit size (x ∷ xs) = let rest = fit size xs in if suits size x then cut size x xs else x ∷ rest

abbrev pub fit_at : ℕ → ℕ → List Piece → Option ℕ
fit_at size a [] = none
fit_at size a (x ∷ xs) =
    let rest = fit_at size (after a x) xs in if suits size x then some (a + 32) else rest

pub start-fit : (size a : ℕ) (xs : List Piece) → start a (fit size xs) ≡ start a xs
start-fit size a [] = refl
start-fit size a (x ∷ xs) = ground arith

-- Only the flag of the first block changes.
pub mark-Laid :
    (m : ℕ → Block) (p : Option ℕ) (a : ℕ) (f : Bool) (x : Piece) (xs : List Piece) (top : ℕ)
    → Laid m p a (x ∷ xs) top
    → Laid (update m a (record (m a) { free = f })) p a (record x { free = f } ∷ xs) top
mark-Laid m p a f x xs top (e, l) =
    (ground (arith, e), Laid-frame m _ (some a) (after a x) xs top (λ i g. ground arith) l)

-- split_block with the pointer to the next block given.
abbrev split_before : (ℕ → Block) → ℕ → ℕ → Option ℕ → ℕ → Block
split_before m a size n =
    let d = a + 32 + size in
    let m1 =
      update m d (record { size = (m a).size - size - 32; free = true; prev = some a; next = n }) in
    let m2 = set_prev n (some d) m1 in update m2 a (record (m2 a) { next = some d; size = size })

split_before-Laid :
    (m : ℕ → Block) (p : Option ℕ) (a size : ℕ) (x : Piece) (xs : List Piece) (top : ℕ)
    → size + 40 ≤ x.bytes
    → Laid m p a (x ∷ xs) top
    → Laid
        (split_before m a size (start (after a x) xs))
        p
        a
        (record { bytes = size; free = x.free }
          ∷ record { bytes = x.bytes - size - 32; free = true }
          ∷ xs)
        top
split_before-Laid m p a size x xs top h (e, l) =
    let c = after a x in
    let d = a + 32 + size in
    let m1 =
      update m d
        (record { size = (m a).size - size - 32; free = true; prev = some a; next = start c xs }) in
    let lies = Laid-frame m m1 (some a) c xs top (λ i g. ground arith) l in
    let linked = set_prev-Laid m1 (some a) (some d) c xs top lies in
    let at_d = set_prev-below m1 (some d) c xs d (omega arith) in
    let at_a = set_prev-below m1 (some d) c xs a (omega arith) in
    let end_d : d + 32 + (x.bytes - size - 32) ≡ c = omega arith in
    (
      ground (arith, at_a, at_d, e),
      (
        ground (arith, at_a, at_d, e, end_d),
        subst (λ t. Laid (split_before m a size (start c xs)) (some d) t xs top) (sym end_d)
            (Laid-frame (set_prev (start c xs) (some d) m1) _ (some d) c xs top
              (λ i g. ground arith) linked),
      ),
    )

split_block-Laid :
    (m : ℕ → Block) (p : Option ℕ) (a size : ℕ) (x : Piece) (xs : List Piece) (top : ℕ)
    → size + 40 ≤ x.bytes
    → Laid m p a (x ∷ xs) top
    → Laid
        (split_block m a size)
        p
        a
        (record { bytes = size; free = x.free }
          ∷ record { bytes = x.bytes - size - 32; free = true }
          ∷ xs)
        top
unfolding split_block
split_block-Laid m p a size x xs top h l =
    subst
      (λ n.
        Laid (split_before m a size n) p a
          (record { bytes = size; free = x.free }
            ∷ record { bytes = x.bytes - size - 32; free = true }
            ∷ xs)
          top)
      (sym (ap (λ b. b.next) l.0)) (split_before-Laid m p a size x xs top h l)

pub take_block-Laid :
    (m : ℕ → Block) (p : Option ℕ) (a size : ℕ) (x : Piece) (xs : List Piece) (top : ℕ)
    → size ≤ x.bytes
    → top < 2 ^ 63
    → Laid m p a (x ∷ xs) top
    → Laid (take_block m a size) p a (cut size x xs) top
unfolding take_block
take_block-Laid m p a size x xs top h b l =
    subst (λ t. Fits t (leb (size + 40) x.bytes)) (sym test) (cases (leb (size + 40) x.bytes) refl)
  where
    Fits : Bool → Bool → Type 0
    Fits t u =
        let m1 = if t then split_block m a size else m in
        Laid (update m1 a (record (m1 a) { free = false })) p a
          (if u
            then record { bytes = size; free = false }
              ∷ record { bytes = x.bytes - size - 32; free = true }
              ∷ xs
            else record { bytes = x.bytes; free = false } ∷ xs)
          top

    test : leb ((size + 32 + 8) % 2 ^ 64) (m a).size ≡ leb (size + 40) x.bytes
    test =
        let small = Laid-below m p a (x ∷ xs) top l in
        let fits = Laid-below m (some a) (after a x) xs top l.1 in
        let w : (size + 32 + 8) % 2 ^ 64 ≡ size + 40 = omega (arith, small, fits) in
        ground (arith, w, l.0)

    cases : (t : Bool) → leb (size + 40) x.bytes ≡ t → Fits t t
    cases true e =
        mark-Laid (split_block m a size) p a false (record { bytes = size; free = x.free })
          (record { bytes = x.bytes - size - 32; free = true } ∷ xs) top
          (split_block-Laid m p a size x xs top (ground arith) l)
    cases false e = mark-Laid m p a false x xs top l

-- Taking a block writes no header before it.
take_block-below :
    (m : ℕ → Block) (p : Option ℕ) (a size : ℕ) (x : Piece) (xs : List Piece) (top i : ℕ)
    → Laid m p a (x ∷ xs) top
    → i < a
    → take_block m a size i ≡ m i
unfolding take_block split_block
take_block-below m p a size x xs top i l h =
    let d = a + 32 + size in
    let m1 =
      update m d
        (record { size = (m a).size - size - 32; free = true; prev = some a; next = (m a).next }) in
    ground (arith, set_prev-below m1 (some d) (after a x) xs i (omega arith), ap (λ b. b.next) l.0)

-- What the walk from `a` on gives: the pointer and the blocks that first fit says, and nothing
-- before `a` is written.
abbrev pub Fitted :
    ℕ → Option ℕ → ℕ → List Piece → ℕ → (ℕ → Block) → Option ℕ × (ℕ → Block) → Type 0
Fitted size p a xs top m (q, m') =
    (q ≡ fit_at size a xs) × Laid m' p a (fit size xs) top × ((i : ℕ) → i < a → m' i ≡ m i)

pub first_fit-Laid :
    (fuel : ℕ) (m : ℕ → Block) (p : Option ℕ) (a size : ℕ) (xs : List Piece) (top : ℕ)
    → length xs ≤ fuel
    → top < 2 ^ 63
    → Laid m p a xs top
    → Fitted size p a xs top m (first_fit fuel m size (start a xs))
unfolding first_fit
first_fit-Laid zero m p a size [] top n b l = (refl, l, λ i h. refl)
first_fit-Laid zero m p a size (x ∷ xs) top n b l = absurd (omega arith)
first_fit-Laid (suc fuel) m p a size [] top n b l = (refl, l, λ i h. refl)
first_fit-Laid (suc fuel) m p a size (x ∷ xs) top n b l =
    subst (λ n. Step n (not (m a).free || ltb (m a).size size) suited) (sym (ap (λ b. b.next) l.0))
      (subst (λ t. Step (start c xs) t suited) (sym skipped)
        (cases suited refl
          (first_fit-Laid fuel m (some a) (after a x) size xs top (omega arith) b l.1)))
  where
    c : ℕ
    c = after a x

    suited : Bool
    suited = suits size x

    skipped : (not (m a).free || ltb (m a).size size) ≡ not suited
    skipped = ground (arith, l.0)

    Step : Option ℕ → Bool → Bool → Type 0
    Step next skip t =
        let (q, m') =
          if skip then first_fit fuel m size next else (some (a + 32), take_block m a size) in
        (q ≡ (if t then some (a + 32) else fit_at size c xs))
        × Laid m' p a (if t then cut size x xs else x ∷ fit size xs) top
        × ((i : ℕ) → i < a → m' i ≡ m i)

    cases :
        (t : Bool)
        → suited ≡ t
        → Fitted size (some a) c xs top m (first_fit fuel m size (start c xs))
        → Step (start c xs) (not t) t
    cases true e rest = (
      refl,
      take_block-Laid m p a size x xs top (ground arith) b l,
      λ i h. take_block-below m p a size x xs top i l h,
    )
    cases false e (q, r, same) = (
      q,
      (same a (omega arith) ∙ subst (λ n. m a ≡ header x p n) (sym (start-fit size c xs)) l.0, r),
      λ i h. same i (omega arith),
    )
