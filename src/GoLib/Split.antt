-- ===== src/GoLib/Split.antt =====
-- strings.Split(s, sep) for a separator of one byte.
use codewave_timer.Base.{
  ℕ, ◌≡◌, refl, List, [], ◌∷◌, ◌++◌, arith, Bytes, codes, Lacks, ◌==◌, if◌then◌else◌,
}

-- A byte in front of the first part.
extend : ℕ → List Bytes → List Bytes
extend c [] = (c ∷ []) ∷ []
extend c (p ∷ ps) = (c ∷ p) ∷ ps

unfoldable pub split : Bytes → ℕ → List Bytes
unfolding extend
split [] sep = [] ∷ []
split (c ∷ s) sep = let rest = split s sep in if c == sep then [] ∷ rest else extend c rest

pub split-append :
    (p s : Bytes) (sep : ℕ) → Lacks sep p → split (p ++ sep ∷ s) sep ≡ p ∷ split s sep
unfolding split
split-append [] s sep h = ground arith
split-append (c ∷ p) s sep h = ground (arith, split-append p s sep)

pub split_whole : (p : Bytes) (sep : ℕ) → Lacks sep p → split p sep ≡ p ∷ []
unfolding split
split_whole [] sep h = refl
split_whole (c ∷ p) sep h = ground (arith, split_whole p sep)

split_runs : split (codes "a_b_") b'_' ≡ codes "a" ∷ codes "b" ∷ [] ∷ []
unfolding split
split_runs = refl
