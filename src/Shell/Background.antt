-- ===== src/Shell/Background.antt =====
-- hasBackground on a line with blanks at its end.
use tp2_so_g.Base.{
  ℕ, zero, suc, ◌≡◌, ◌<◌, ◌≤◌, refl, ap, ◌∙◌, Bool, true, false, ◌&&◌, ◌||◌, not, List, [], ◌∷◌,
  ◌++◌, arith, take, length, get_or, ◌==◌, if◌then◌else◌, length-append,
}
use tp2_so_g.Shell.{is_blank, trim_len, has_background, ampersand}
use tp2_so_g.Shell.Words.{all_blank}

trim_len_cons :
    (c : ℕ) (line : List ℕ) (n : ℕ)
    → trim_len (c ∷ line) (suc n)
      ≡ (if (trim_len line n == 0) && is_blank c then 0 else suc (trim_len line n))
unfolding trim_len
trim_len_cons c line zero = ground arith
trim_len_cons c line (suc n) = ground (arith, trim_len_cons c line n)

trim_gap : (gap : List ℕ) → all_blank gap ≡ true → trim_len gap (length gap) ≡ 0
unfolding trim_len
trim_gap [] e = refl
trim_gap (c ∷ gap) e =
    ground (arith, e, trim_len_cons c gap (length gap), trim_gap gap (ground (arith, e)))

-- The blanks behind a byte that is none go.
trim_last :
    (body : List ℕ) (c : ℕ) (gap : List ℕ)
    → is_blank c ≡ false
    → all_blank gap ≡ true
    → trim_len (body ++ c ∷ gap) (length (body ++ c ∷ gap)) ≡ suc (length body)
trim_last [] c gap f e = ground (arith, f, trim_len_cons c gap (length gap), trim_gap gap e)
trim_last (b ∷ body) c gap f e =
    ground (
      arith,
      trim_len_cons b (body ++ c ∷ gap) (length (body ++ c ∷ gap)),
      trim_last body c gap f e,
    )

get_prefix : (xs ys : List ℕ) (i : ℕ) → i < length xs → get_or (xs ++ ys) i 0 ≡ get_or xs i 0
get_prefix [] ys i l = omega (arith, l)
get_prefix (x ∷ xs) ys zero l = refl
get_prefix (x ∷ xs) ys (suc i) l = get_prefix xs ys i (omega (arith, l))

get_last : (xs : List ℕ) (c : ℕ) (ys : List ℕ) → get_or (xs ++ c ∷ ys) (length xs) 0 ≡ c
get_last [] c ys = refl
get_last (x ∷ xs) c ys = get_last xs c ys

take_prefix : (xs ys : List ℕ) → take (length xs) (xs ++ ys) ≡ xs
take_prefix [] ys = refl
take_prefix (x ∷ xs) ys = ap (λ zs. x ∷ zs) (take_prefix xs ys)

take_last :
    (xs : List ℕ) (c : ℕ) (ys : List ℕ) → take (suc (length xs)) (xs ++ c ∷ ys) ≡ xs ++ c ∷ []
take_last [] c ys = refl
take_last (x ∷ xs) c ys = ap (λ zs. x ∷ zs) (take_last xs c ys)

trim_prefix : (xs ys : List ℕ) (n : ℕ) → n ≤ length xs → trim_len (xs ++ ys) n ≡ trim_len xs n
unfolding trim_len
trim_prefix xs ys zero l = refl
trim_prefix xs ys (suc n) l =
    ground (arith, get_prefix xs ys n (omega (arith, l)), trim_prefix xs ys n (omega (arith, l)))

take_append : (n : ℕ) (xs ys : List ℕ) → n ≤ length xs → take n (xs ++ ys) ≡ take n xs
take_append zero xs ys l = refl
take_append (suc n) [] ys l = ground (arith, l)
take_append (suc n) (x ∷ xs) ys l = ap (λ zs. x ∷ zs) (take_append n xs ys (omega (arith, l)))

background_of :
    (line : List ℕ) (n : ℕ) (marked : Bool)
    → trim_len line (length line) ≡ suc n
    → (get_or line n 0 == ampersand) ≡ marked
    → has_background line ≡ (marked, take (if marked then trim_len line n else suc n) line)
unfolding has_background
background_of line n false e f = ground (arith, e, f)
background_of line n true e f = ground (arith, e, f)

-- A line, behind which there may be an ampersand with blanks.
abbrev pub command : Bool → List ℕ → List ℕ → List ℕ
command marked front gap = if marked then front ++ ampersand ∷ gap else front

-- On a line with a byte that is no blank, and behind it blanks and perhaps an ampersand with blanks,
-- hasBackground finds the ampersand and takes it off, with the blanks after it and before it; without one
-- it takes off the blanks and answers 0.
pub has_background-command :
    (marked : Bool) (body : List ℕ) (c : ℕ) (gap1 gap2 : List ℕ)
    → is_blank c ≡ false
    → (marked || not (c == ampersand)) ≡ true
    → all_blank gap1 ≡ true
    → all_blank gap2 ≡ true
    → has_background (command marked (body ++ c ∷ gap1) gap2) ≡ (marked, body ++ c ∷ [])
has_background-command false body c gap1 gap2 f m e1 e2 =
    background_of (body ++ c ∷ gap1) (length body) false (trim_last body c gap1 f e1)
      (ap (λ b. b == ampersand) (get_last body c gap1) ∙ ground (arith, m))
    ∙ ap (λ line. (false, line)) (take_last body c gap1)
has_background-command true body c gap1 gap2 f m e1 e2 =
    let front = body ++ c ∷ gap1 in
    let line = front ++ ampersand ∷ gap2 in
    let short : suc (length body) ≤ length front = omega (arith, length-append body (c ∷ gap1)) in
    background_of line (length front) true (trim_last front ampersand gap2 refl e2)
      (ap (λ b. b == ampersand) (get_last front ampersand gap2))
    ∙ ap (λ n. (true, take n line))
        (trim_prefix front (ampersand ∷ gap2) (length front) (omega arith)
          ∙ trim_last body c gap1 f e1)
    ∙ ap (λ l. (true, l))
        (take_append (suc (length body)) front (ampersand ∷ gap2) short ∙ take_last body c gap1)
