-- ===== src/Text/Words.antt =====
-- `str::split_whitespace` and `str::trim`: whitespace is that of `char::is_whitespace`, told by its
-- UTF-8 bytes.
use programming_lightning_bu.Base.{
  ℕ, zero, suc, ◌-◌, Str, Bool, ◌&&◌, ◌||◌, List, [], ◌∷◌, ◌++◌, leb, eqb, if◌then◌else◌,
}

-- The third byte of a whitespace character that begins with the bytes `a` and `b`.
is_space3 : ℕ → ℕ → ℕ → Bool
is_space3 a b c =
    eqb a 0xe1 && eqb b 0x9a && eqb c 0x80
    || eqb a 0xe2
      && eqb b 0x80
      && (leb 0x80 c && leb c 0x8a || eqb c 0xa8 || eqb c 0xa9 || eqb c 0xaf)
    || eqb a 0xe2 && eqb b 0x81 && eqb c 0x9f
    || eqb a 0xe3 && eqb b 0x80 && eqb c 0x80

-- How many bytes the whitespace character at the front has: none if there is none.
unfoldable pub space_width : Str → ℕ
unfolding is_space3
space_width [] = 0
space_width (a ∷ []) = if leb 9 a && leb a 13 || eqb a 32 then 1 else 0
space_width (a ∷ b ∷ []) =
    if leb 9 a && leb a 13 || eqb a 32
    then 1
    else if eqb a 0xc2 && (eqb b 0x85 || eqb b 0xa0)
    then 2
    else 0
space_width (a ∷ b ∷ c ∷ s) =
    if leb 9 a && leb a 13 || eqb a 32
    then 1
    else if eqb a 0xc2 && (eqb b 0x85 || eqb b 0xa0)
    then 2
    else if is_space3 a b c
    then 3
    else 0

abbrev end_word : Str → List Str → List Str
end_word [] rest = rest
end_word (x ∷ w) rest = (x ∷ w) ∷ rest

-- `skip` bytes belong to a whitespace character that has begun, `word` to an open word.
unfoldable pub words_from : ℕ → Str → Str → List Str
unfolding space_width
words_from skip word [] = end_word word []
words_from (suc k) word (x ∷ s) = words_from k word s
words_from zero word (x ∷ s) =
    let inside = words_from zero (word ++ x ∷ []) s in
    let outside = end_word word (words_from (space_width (x ∷ s) - 1) [] s) in
    if eqb (space_width (x ∷ s)) 0 then inside else outside

-- `split_whitespace().collect()`
unfoldable pub words : Str → List Str
unfolding words_from
words s = words_from 0 [] s

unfoldable pub trim_start : ℕ → Str → Str
unfolding space_width
trim_start skip [] = []
trim_start (suc k) (x ∷ s) = trim_start k s
trim_start zero (x ∷ s) =
    let rest = trim_start (space_width (x ∷ s) - 1) s in
    if eqb (space_width (x ∷ s)) 0 then x ∷ s else rest

-- The text up to its last character that is not whitespace: `pending` is whitespace that stays if
-- such a character follows.
unfoldable pub trim_end : ℕ → Str → Str → Str
unfolding space_width
trim_end skip pending [] = []
trim_end (suc k) pending (x ∷ s) = trim_end k (pending ++ x ∷ []) s
trim_end zero pending (x ∷ s) =
    let inside = pending ++ x ∷ trim_end zero [] s in
    let outside = trim_end (space_width (x ∷ s) - 1) (pending ++ x ∷ []) s in
    if eqb (space_width (x ∷ s)) 0 then inside else outside

unfoldable pub trim : Str → Str
unfolding trim_start trim_end
trim s = trim_end 0 [] (trim_start 0 s)
