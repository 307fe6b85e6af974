-- ===== src/Text/WordsLaws.antt =====
-- The first word begins with the first byte that is not whitespace.
use programming_lightning_bu.Base.{
  ℕ, zero, suc, ◌≡◌, refl, Str, none, some, Option, List, [], ◌∷◌, ◌++◌, arith, eqb, Bool-cases,
  inl, inr, ◌≤◌,
}
use programming_lightning_bu.Text.Words.{words, words_from, space_width}

abbrev pub first_byte : List Str → Option ℕ
first_byte [] = none
first_byte ([] ∷ ws) = none
first_byte ((x ∷ w) ∷ ws) = some x

first_byte-words_from : (k c : ℕ) (w s : Str) → first_byte (words_from k (c ∷ w) s) ≡ some c
unfolding words_from
first_byte-words_from k c w [] = refl
first_byte-words_from (suc k) c w (x ∷ s) = first_byte-words_from k c w s
first_byte-words_from zero c w (x ∷ s) = elim (Bool-cases (eqb (space_width (x ∷ s)) 0)) [
  | inl e ↦ ground (arith, e, first_byte-words_from zero c (w ++ x ∷ []) s)
  | inr e ↦ ground (arith, e)
]

pub first_byte-words :
    (c : ℕ) (s : Str) → space_width (c ∷ s) ≡ 0 → first_byte (words (c ∷ s)) ≡ some c
unfolding words words_from
first_byte-words c s e = ground (arith, e, first_byte-words_from zero c [] s)

-- An ASCII letter is not whitespace.
pub space_width-letter : (c : ℕ) (s : Str) → c ≤ 90 → 65 ≤ c → space_width (c ∷ s) ≡ 0
unfolding space_width
space_width-letter c [] h k = ground arith
space_width-letter c (a ∷ []) h k = ground arith
space_width-letter c (a ∷ b ∷ s) h k = ground arith
