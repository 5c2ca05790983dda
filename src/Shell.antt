-- ===== src/Shell.antt =====
-- The parser of Userland/SampleCodeModule/shell.c: tokenize, splitPipeline, hasBackground, and
-- the line editor readLine without its echo. A string is the list of its bytes before the NUL, and so is what a pointer into
-- it reads after the cuts.
pub mod Background
pub mod Jobs
pub mod Launch
pub mod Lines
pub mod Settled
pub mod Stages
pub mod Words
use tp2_so_g.Base.{
  ℕ, zero, suc, ◌-◌, ◌+◌, ◌&&◌, ◌||◌, Bool, true, false, Option, none, some, List, [], ◌∷◌, ◌++◌,
  get_or, take, length, leb, ltb, ◌==◌, if◌then◌else◌,
}

abbrev pub max_tokens : ℕ
max_tokens = 16

abbrev pub max_pipeline : ℕ
max_pipeline = 2

abbrev pub is_blank : ℕ → Bool
is_blank c = (c == 32) || (c == 9)

unfoldable pub skip_blanks : List ℕ → List ℕ
skip_blanks [] = []
skip_blanks (c ∷ str) = if is_blank c then skip_blanks str else c ∷ str

-- A token up to the blank that ends it, and what follows that blank.
unfoldable pub take_word : List ℕ → List ℕ × List ℕ
take_word [] = ([], [])
take_word (c ∷ str) =
    let (word, rest) = take_word str in if is_blank c then ([], str) else (c ∷ word, rest)

-- At most `n` more tokens.
unfoldable pub tokenize : ℕ → List ℕ → List (List ℕ)
unfolding skip_blanks take_word
tokenize zero str = []
tokenize (suc n) str = elim (skip_blanks str) [
  | [] ↦ []
  | c ∷ rest ↦ let (word, more) = take_word (c ∷ rest) in word ∷ tokenize n more
]

-- The bar that ends a stage, and the space that is skipped after it.
abbrev pub bar : ℕ
bar = 124

abbrev pub space : ℕ
space = 32

-- The rest of the stage that `p` is in, and the stages after it, at most `left` of them. `skip` says that
-- `p` is at the spaces before a stage.
unfoldable pub split_from : ℕ → Bool → List ℕ → Option (List ℕ × List (List ℕ))
split_from left skip [] = some ([], [])
split_from left skip (c ∷ line) = elim (skip && (c == space)) [
  | true ↦ split_from left true line
  | false ↦ elim (c == bar) [
    | true ↦ elim left [
      | zero ↦ none
      | suc n ↦ elim (split_from n true line) [ none ↦ none | some r ↦ some ([], r.0 ∷ r.1) ]
    ]
    | false ↦ elim (split_from left false line) [ none ↦ none | some r ↦ some (c ∷ r.0, r.1) ]
  ]
]

unfoldable pub split_pipeline : ℕ → List ℕ → Option (List (List ℕ))
unfolding split_from
split_pipeline max_stages line = elim (split_from (max_stages - 1) false line) [
  | none ↦ none
  | some r ↦ some (r.0 ∷ r.1)
]

-- The loops of hasBackground: the length without the blanks at the end.
unfoldable pub trim_len : List ℕ → ℕ → ℕ
trim_len line zero = 0
trim_len line (suc n) = if is_blank (get_or line n 0) then trim_len line n else suc n

-- `&`
abbrev pub ampersand : ℕ
ampersand = 38

abbrev pub ends_in : List ℕ → ℕ → Bool
ends_in line zero = false
ends_in line (suc n) = get_or line n 0 == ampersand

-- The flag, and what is left of the line.
unfoldable pub has_background : List ℕ → Bool × List ℕ
unfolding trim_len
has_background line =
    let len = trim_len line (length line) in
    if ends_in line len then (true, take (trim_len line (len - 1)) line) else (false, take len line)

abbrev pub newline : ℕ
newline = 10

abbrev pub backspace : ℕ
backspace = 8

abbrev pub is_printable_ascii : ℕ → Bool
is_printable_ascii c = (leb 32 c && leb c 126) || ((c == newline) || ((c == backspace) || (c == 9)))

-- The buffer after a byte that is not the newline.
unfoldable pub edit : ℕ → List ℕ → ℕ → List ℕ
edit max_len line c =
    if c == 0
    then line
    else if c == backspace
    then take (length line - 1) line
    else if ltb (length line) (max_len - 1) && is_printable_ascii c
    then line ++ c ∷ []
    else line

-- The bytes that sys_read gives before its end of file.
unfoldable pub read_line : ℕ → List ℕ → List ℕ → Option (List ℕ)
unfolding edit
read_line max_len line [] = none
read_line max_len line (c ∷ input) =
    if c == newline then some line else read_line max_len (edit max_len line c) input
