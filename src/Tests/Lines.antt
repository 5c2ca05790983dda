-- ===== src/Tests/Lines.antt =====
-- Lines that are typed into the shell.
use tp2_so_g.Shell.Launch.{Answers, run_line}
use tp2_so_g.Shell.Settled.{Settles, total, closes}
use tp2_so_g.Shell.Jobs.{run_line-Settles}
use tp2_so_g.Base.{
  ℕ, ◌≡◌, refl, true, none, some, List, [], ◌∷◌, ◌++◌, take, arith, count, leb, if◌then◌else◌,
}
use tp2_so_g.Shell.{
  tokenize, split_pipeline, has_background, read_line, max_pipeline, max_tokens, newline,
}
use tp2_so_g.Shell.Stages.{stages_of, split_pipeline-stages_of}
use tp2_so_g.Shell.Words.{Spaced, written, words_of, tokenize-written}
use tp2_so_g.Shell.Background.{command, has_background-command}
use tp2_so_g.Shell.Lines.{Fits, edited, read_line-Fits}

-- "ps | cat"
abbrev ps_cat : List ℕ
ps_cat = b'p' ∷ b's' ∷ b' ' ∷ b'|' ∷ b' ' ∷ b'c' ∷ b'a' ∷ b't' ∷ []

abbrev two_stages : List (List ℕ)
two_stages = (b'p' ∷ b's' ∷ b' ' ∷ []) ∷ (b'c' ∷ b'a' ∷ b't' ∷ []) ∷ []

two_parts : split_pipeline max_pipeline ps_cat ≡ some two_stages
unfolding split_pipeline
two_parts = refl

one_bar_too_many : split_pipeline max_pipeline (ps_cat ++ b'|' ∷ []) ≡ none
unfolding split_pipeline
one_bar_too_many = refl

-- The backspace takes off the `s`.
typed_over : read_line 128 [] (b'p' ∷ b's' ∷ 8 ∷ b'x' ∷ newline ∷ []) ≡ some (b'p' ∷ b'x' ∷ [])
unfolding read_line
typed_over = refl

no_newline : read_line 128 [] (b'p' ∷ []) ≡ none
unfolding read_line
no_newline = refl

abbrev two_words : List Spaced
two_words =
    (record { gap = b' ' ∷ []; first = b'k'; others = b'i' ∷ [] })
    ∷ (record { gap = 9 ∷ []; first = b'7'; others = [] })
    ∷ []

split_pipeline-stages_of_example :
    split_pipeline max_pipeline ps_cat
    ≡ (if leb max_pipeline (count b'|' ps_cat) then none else some (stages_of ps_cat))
split_pipeline-stages_of_example = split_pipeline-stages_of max_pipeline ps_cat (omega arith)

tokenize-written_example :
    tokenize max_tokens (written b' ' two_words []) ≡ take max_tokens (words_of two_words)
tokenize-written_example = tokenize-written max_tokens b' ' two_words [] refl refl refl

has_background-command_example :
    has_background (command true (b'p' ∷ b's' ∷ b' ' ∷ []) (b' ' ∷ [])) ≡ (true, b'p' ∷ b's' ∷ [])
has_background-command_example =
    has_background-command true (b'p' ∷ []) b's' (b' ' ∷ []) (b' ' ∷ []) refl refl refl refl

read_line-Fits_example :
    (read_line 4 [] ((b'a' ∷ b'b' ∷ b'c' ∷ b'd' ∷ []) ++ newline ∷ [])
      ≡ some (edited 4 [] (b'a' ∷ b'b' ∷ b'c' ∷ b'd' ∷ [])))
    × Fits 4 (edited 4 [] (b'a' ∷ b'b' ∷ b'c' ∷ b'd' ∷ []))
read_line-Fits_example =
    read_line-Fits 4 [] (b'a' ∷ b'b' ∷ b'c' ∷ b'd' ∷ []) []
      (record { short = omega arith; printable = refl }) refl

-- The second stage cannot be started.
abbrev refused_second : Answers
refused_second = record {
  command_index = λ name. some 3;
  reopen = some 5;
  pipe_fds = some (6, 7);
  first_pid = some 9;
  second_pid = none;
}

write_end_closed : total (closes 7) (run_line refused_second ps_cat) ≡ 1
unfolding run_line
write_end_closed = refl

run_line-Settles_example : Settles (has_background ps_cat).0 7 0 0 (run_line refused_second ps_cat)
run_line-Settles_example = run_line-Settles refused_second ps_cat 7
