-- ===== src/Text/Compare.antt =====
-- strcmp decides equality; strlen and concat_strings against lists.
use tp2_so_g.Base.{
  ℕ, ◌≡◌, ◌↔◌, refl, ap, ap₂, ◌∙◌, true, List, [], ◌∷◌, ◌++◌, arith, append_assoc, append-nil,
  Bool-cases, inl, inr, ◌==◌, ==→eq, ◌<◌,
}
use tp2_so_g.Base.Int.{pos, is_zero}
use tp2_so_g.Text.{strcmp, copy_onto, concat_strings}

-- No byte of a C string is the NUL.
abbrev pub NoNul : List ℕ → Type 0
NoNul [] = Unit {0}
NoNul (c ∷ s) = (0 < c) × NoNul s

strcmp_self : (s : List ℕ) → strcmp s s ≡ pos 0
unfolding strcmp
strcmp_self [] = refl
strcmp_self (c ∷ s) = ground (arith, strcmp_self s)

strcmp-zero→eq : (s t : List ℕ) → NoNul s → NoNul t → is_zero (strcmp s t) ≡ true → s ≡ t
unfolding strcmp
strcmp-zero→eq [] [] n m h = refl
strcmp-zero→eq [] (d ∷ t) n m h = absurd (ground (arith, m.0))
strcmp-zero→eq (c ∷ s) [] n m h = absurd (ground (arith, n.0))
strcmp-zero→eq (c ∷ s) (d ∷ t) n m h = elim (Bool-cases (c == d)) [
  | inl e ↦ ap₂ ◌∷◌ (==→eq c d e) (strcmp-zero→eq s t n.1 m.1 (ground (arith, e)))
  | inr e ↦ absurd (ground (arith, e))
]

-- On C strings strcmp returns 0 exactly when they are equal.
pub strcmp_iff : (s t : List ℕ) → NoNul s → NoNul t → (is_zero (strcmp s t) ≡ true) ↔ (s ≡ t)
strcmp_iff s t n m = (strcmp-zero→eq s t n m, λ e. rw (← e) (ap is_zero (strcmp_self s)))

copy_onto-append : (dest s : List ℕ) → copy_onto dest s ≡ dest ++ s
unfolding copy_onto
copy_onto-append dest [] = rw append-nil
copy_onto-append dest (c ∷ s) = copy_onto-append (dest ++ c ∷ []) s ∙ append_assoc dest (c ∷ []) s

-- concat_strings writes the first string, the second and a NUL.
pub concat_strings-append : (s t : List ℕ) → concat_strings s t ≡ (s ++ t) ++ 0 ∷ []
unfolding concat_strings
concat_strings-append s t =
    ap (λ u. u ++ 0 ∷ [])
      (copy_onto-append (copy_onto [] s) t ∙ ap (λ u. u ++ t) (copy_onto-append [] s))
