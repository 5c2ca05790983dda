-- ===== src/Shell/Words.antt =====
-- tokenize on words that are written with blanks between them.
use tp2_so_g.Base.{
  ℕ, zero, suc, ◌≡◌, refl, sym, ◌∙◌, Bool, true, false, ◌&&◌, not, List, [], ◌∷◌, ◌++◌, arith, take,
  ap,
}
use tp2_so_g.Shell.{is_blank, skip_blanks, take_word, tokenize}

abbrev pub has_no_blank : List ℕ → Bool
has_no_blank [] = true
has_no_blank (c ∷ word) = not (is_blank c) && has_no_blank word

abbrev pub all_blank : List ℕ → Bool
all_blank [] = true
all_blank (c ∷ gap) = is_blank c && all_blank gap

-- A word behind the blanks that stand before it.
pub record Spaced : Type 0 where
  pub gap : List ℕ
  pub first : ℕ
  pub others : List ℕ

abbrev pub word_of : Spaced → List ℕ
word_of s = s.first ∷ s.others

abbrev pub is_spaced : Spaced → Bool
is_spaced s = all_blank s.gap && has_no_blank (word_of s)

abbrev pub all_spaced : List Spaced → Bool
all_spaced [] = true
all_spaced (s ∷ more) = is_spaced s && all_spaced more

abbrev pub words_of : List Spaced → List (List ℕ)
words_of [] = []
words_of (s ∷ more) = word_of s ∷ words_of more

-- A blank `sep` and what stands before the next word between two words, and the blanks of `tail`, or
-- the NUL, behind the last one.
abbrev pub written : ℕ → List Spaced → List ℕ → List ℕ
written sep [] tail = tail
written sep (s ∷ []) tail = s.gap ++ (word_of s ++ tail)
written sep (s ∷ t ∷ more) tail = s.gap ++ (word_of s ++ sep ∷ written sep (t ∷ more) tail)

skip_all : (gap : List ℕ) → all_blank gap ≡ true → skip_blanks gap ≡ []
unfolding skip_blanks
skip_all [] e = refl
skip_all (c ∷ gap) e = ground (arith, e, skip_all gap)

skip_gap :
    (gap : List ℕ) (c : ℕ) (str : List ℕ)
    → all_blank gap ≡ true
    → is_blank c ≡ false
    → skip_blanks (gap ++ c ∷ str) ≡ c ∷ str
unfolding skip_blanks
skip_gap [] c str e f = ground (arith, f)
skip_gap (b ∷ gap) c str e f = ground (arith, e, skip_gap gap c str)

take_whole :
    (word : List ℕ) (sep : ℕ) (str : List ℕ)
    → has_no_blank word ≡ true
    → is_blank sep ≡ true
    → take_word (word ++ sep ∷ str) ≡ (word, str)
unfolding take_word
take_whole [] sep str e f = ground (arith, f)
take_whole (c ∷ word) sep str e f = ground (arith, e, take_whole word sep str)

-- The last word of a line, which the NUL or a blank ends.
take_last :
    (word tail : List ℕ)
    → has_no_blank word ≡ true
    → all_blank tail ≡ true
    → (rest : List ℕ) × (take_word (word ++ tail) ≡ (word, rest)) × (all_blank rest ≡ true)
unfolding take_word
take_last [] [] e t = ([], refl, refl)
take_last [] (b ∷ tail) e t = (tail, ground (arith, t), ground (arith, t))
take_last (c ∷ word) tail e t =
    let (rest, r, b) = take_last word tail (ground (arith, e)) t in (rest, ground (arith, e, r), b)

tokenize_cons :
    (n : ℕ) (str : List ℕ) (c : ℕ) (rest word more : List ℕ)
    → skip_blanks str ≡ c ∷ rest
    → take_word (c ∷ rest) ≡ (word, more)
    → tokenize (suc n) str ≡ word ∷ tokenize n more
unfolding tokenize
tokenize_cons n str c rest word more e f = ground (arith, e, f)

tokenize_none : (str : List ℕ) → tokenize 0 str ≡ []
unfolding tokenize
tokenize_none str = refl

take_nil : (n : ℕ) → take n (words_of []) ≡ []
take_nil zero = refl
take_nil (suc n) = refl

tokenize_nil : (n : ℕ) (str : List ℕ) → skip_blanks str ≡ [] → tokenize n str ≡ []
unfolding tokenize
tokenize_nil zero str e = refl
tokenize_nil (suc n) str e = ground (arith, e)

-- On a line of words with blanks before them and between them, where behind the last word stand blanks
-- or the end of the line at once, tokenize gives back the words in order, at most the first `n` of them.
pub tokenize-written :
    (n sep : ℕ) (words : List Spaced) (tail : List ℕ)
    → is_blank sep ≡ true
    → all_spaced words ≡ true
    → all_blank tail ≡ true
    → tokenize n (written sep words tail) ≡ take n (words_of words)
tokenize-written zero sep words tail b e t = tokenize_none (written sep words tail)
tokenize-written (suc n) sep [] tail b e t = tokenize_nil (suc n) tail (skip_all tail t)
tokenize-written (suc n) sep (s ∷ []) tail b e t =
    let (rest, r, blank) = take_last (word_of s) tail (ground (arith, e)) t in
    tokenize_cons n (written sep (s ∷ []) tail) s.first (s.others ++ tail) (word_of s) rest
      (skip_gap s.gap s.first (s.others ++ tail) (ground (arith, e)) (ground (arith, e))) r
    ∙ ap (λ ws. word_of s ∷ ws) (tokenize_nil n rest (skip_all rest blank) ∙ sym (take_nil n))
tokenize-written (suc n) sep (s ∷ u ∷ more) tail b e t =
    tokenize_cons n (written sep (s ∷ u ∷ more) tail) s.first
      (s.others ++ sep ∷ written sep (u ∷ more) tail) (word_of s) (written sep (u ∷ more) tail)
      (skip_gap s.gap s.first (s.others ++ sep ∷ written sep (u ∷ more) tail) (ground (arith, e))
        (ground (arith, e)))
      (take_whole (word_of s) sep (written sep (u ∷ more) tail) (ground (arith, e)) b)
    ∙ ap (λ ws. word_of s ∷ ws) (tokenize-written n sep (u ∷ more) tail b (ground (arith, e)) t)
