-- ===== src/Shell/Stages.antt =====
-- splitPipeline against the stages of a line.
use tp2_so_g.Base.{
  ℕ, zero, suc, ◌-◌, ◌≡◌, ◌<◌, Bool, true, false, none, some, List, [], ◌∷◌, arith, count, leb,
  ◌==◌, if◌then◌else◌,
}
use tp2_so_g.Shell.{bar, space, split_from, split_pipeline}

-- The parts of a line between its bars: the first one, and the others.
abbrev pub parts : List ℕ → List ℕ × List (List ℕ)
parts [] = ([], [])
parts (c ∷ line) =
    let (part, more) = parts line in if c == bar then ([], part ∷ more) else (c ∷ part, more)

abbrev pub drop_spaces : List ℕ → List ℕ
drop_spaces [] = []
drop_spaces (c ∷ part) = if c == space then drop_spaces part else c ∷ part

abbrev pub drop_all : List (List ℕ) → List (List ℕ)
drop_all [] = []
drop_all (part ∷ more) = drop_spaces part ∷ drop_all more

-- A first stage keeps its spaces.
abbrev pub stages_of : List ℕ → List (List ℕ)
stages_of line = let (part, more) = parts line in part ∷ drop_all more

abbrev pub drop_if : Bool → List ℕ → List ℕ
drop_if skip part = if skip then drop_spaces part else part

split_from-parts :
    (left : ℕ) (skip : Bool) (line : List ℕ)
    → split_from left skip line ≡ (
        if leb (count bar line) left
        then some (drop_if skip (parts line).0, drop_all (parts line).1)
        else none)
unfolding split_from
split_from-parts left skip [] = ground arith
split_from-parts zero skip (c ∷ line) =
    ground (arith, split_from-parts zero true line, split_from-parts zero false line)
split_from-parts (suc n) skip (c ∷ line) = ground (
  arith,
  split_from-parts (suc n) true line,
  split_from-parts (suc n) false line,
  split_from-parts n true line,
)

-- splitPipeline returns -1 exactly for a line with `max_stages` bars or more; otherwise its stages are
-- the parts of the line between the bars, in order, each after the first without the spaces before it.
pub split_pipeline-stages_of :
    (max_stages : ℕ) (line : List ℕ)
    → 0 < max_stages
    → split_pipeline max_stages line
      ≡ (if leb max_stages (count bar line) then none else some (stages_of line))
unfolding split_pipeline
split_pipeline-stages_of max_stages line l =
    ground (arith, l, split_from-parts (max_stages - 1) false line)
