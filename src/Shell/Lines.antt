-- ===== src/Shell/Lines.antt =====
-- readLine: the line that is edited.
use tp2_so_g.Base.{
  ℕ, zero, suc, ◌-◌, ◌≡◌, ◌<◌, ◌≤◌, refl, ◌∙◌, Bool, true, false, ◌&&◌, some, List, [], ◌∷◌, ◌++◌,
  arith, take, length, count, ◌==◌, length-append,
}
use tp2_so_g.Shell.{edit, read_line, newline, is_printable_ascii}

abbrev pub all_printable : List ℕ → Bool
all_printable [] = true
all_printable (c ∷ line) = is_printable_ascii c && all_printable line

length-take : (n : ℕ) (line : List ℕ) → length (take n line) ≤ length line
length-take zero line = omega arith
length-take (suc n) [] = omega arith
length-take (suc n) (c ∷ line) = ground (arith, length-take n line)

take_printable :
    (n : ℕ) (line : List ℕ) → all_printable line ≡ true → all_printable (take n line) ≡ true
take_printable zero line e = refl
take_printable (suc n) [] e = refl
take_printable (suc n) (c ∷ line) e = ground (arith, e, take_printable n line)

snoc_printable :
    (line : List ℕ) (c : ℕ)
    → all_printable line ≡ true
    → is_printable_ascii c ≡ true
    → all_printable (line ++ c ∷ []) ≡ true
snoc_printable [] c e f = ground (arith, f)
snoc_printable (b ∷ line) c e f = ground (arith, e, snoc_printable line c)

-- A buffer with room for the NUL, of printable bytes.
pub record Fits (max_len : ℕ) (line : List ℕ) : Type 0 where
  pub short : length line < max_len
  pub printable : all_printable line ≡ true

edit-Fits :
    (max_len : ℕ) (line : List ℕ) (c : ℕ) → Fits max_len line → Fits max_len (edit max_len line c)
unfolding edit
edit-Fits max_len line c g = record {
  short = ground (arith, g.short, length-take (length line - 1) line, length-append line (c ∷ []));
  printable = ground (
    arith,
    g.printable,
    take_printable (length line - 1) line g.printable,
    snoc_printable line c g.printable,
  );
}

read_on :
    (max_len : ℕ) (line : List ℕ) (c : ℕ) (input : List ℕ)
    → (c == newline) ≡ false
    → read_line max_len line (c ∷ input) ≡ read_line max_len (edit max_len line c) input
unfolding read_line
read_on max_len line c input e = ground (arith, e)

read_end :
    (max_len : ℕ) (line input : List ℕ) → read_line max_len line (newline ∷ input) ≡ some line
unfolding read_line
read_end max_len line input = refl

-- What is typed before the newline into a buffer: all of it is edited, in order.
abbrev pub edited : ℕ → List ℕ → List ℕ → List ℕ
edited max_len line [] = line
edited max_len line (c ∷ typed) = edited max_len (edit max_len line c) typed

-- Once a newline comes in, readLine returns the line that the bytes before it have edited, whatever they
-- and the bytes after it are: it is shorter than the buffer, so that its NUL has room, and printable.
pub read_line-Fits :
    (max_len : ℕ) (line typed input : List ℕ)
    → Fits max_len line
    → count newline typed ≡ 0
    → (read_line max_len line (typed ++ newline ∷ input) ≡ some (edited max_len line typed))
      × Fits max_len (edited max_len line typed)
read_line-Fits max_len line [] input g e = (read_end max_len line input, g)
read_line-Fits max_len line (c ∷ typed) input g e =
    let (r, h) =
      read_line-Fits max_len (edit max_len line c) typed input (edit-Fits max_len line c g)
        (ground (arith, e)) in
    (read_on max_len line c (typed ++ newline ∷ input) (ground (arith, e)) ∙ r, h)
