-- ===== src/Text/Lines.antt =====
-- `str::lines` and `BufRead::lines`.
use programming_lightning_bu.Base.{Str, List, [], ◌∷◌, eqb, if◌then◌else◌, is_empty}
use programming_lightning_bu.Text.Split.{split}

-- Without a carriage return at the end.
unfoldable pub strip_cr : Str → Str
strip_cr [] = []
strip_cr (x ∷ []) = if eqb x 13 then [] else x ∷ []
strip_cr (x ∷ y ∷ s) = x ∷ strip_cr (y ∷ s)

-- Behind the last newline nothing is stripped, and an empty rest is no line.
unfoldable pub end_lines : List Str → List Str
unfolding strip_cr
end_lines [] = []
end_lines (l ∷ []) = if is_empty l then [] else l ∷ []
end_lines (l ∷ m ∷ ls) = strip_cr l ∷ end_lines (m ∷ ls)

unfoldable pub lines : Str → List Str
unfolding split end_lines
lines s = end_lines (split 10 s)
