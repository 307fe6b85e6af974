-- ===== src/Text/Split.antt =====
-- `split`, `splitn` and `rsplitn` at a character below 128.
use programming_lightning_bu.Base.{ℕ, Str, List, [], ◌∷◌, Option, none, some, eqb, if◌then◌else◌}

unfoldable pub cons_head : ℕ → List Str → List Str
cons_head x [] = (x ∷ []) ∷ []
cons_head x (p ∷ ps) = (x ∷ p) ∷ ps

-- `str::split` at a character below 128.
unfoldable pub split : ℕ → Str → List Str
unfolding cons_head
split c [] = [] ∷ []
split c (x ∷ s) = let rest = split c s in if eqb x c then [] ∷ rest else cons_head x rest

-- `str::splitn(2, c)`
unfoldable pub split_once : ℕ → Str → Option (Str × Str)
split_once c [] = none
split_once c (x ∷ s) =
    let rest = split_once c s in
    if eqb x c then some ([], s) else elim rest [ none ↦ none | some (a, b) ↦ some (x ∷ a, b) ]

unfoldable pub splitn2 : ℕ → Str → List Str
unfolding split_once
splitn2 c s = elim (split_once c s) [ none ↦ s ∷ [] | some (a, b) ↦ a ∷ b ∷ [] ]

-- `str::rsplitn(2, c)`: the part behind the last `c` comes first.
unfoldable pub rsplit_once : ℕ → Str → Option (Str × Str)
rsplit_once c [] = none
rsplit_once c (x ∷ s) = elim (rsplit_once c s) [
  | some (a, b) ↦ some (x ∷ a, b)
  | none ↦ if eqb x c then some ([], s) else none
]

unfoldable pub rsplitn2 : ℕ → Str → List Str
unfolding rsplit_once
rsplitn2 c s = elim (rsplit_once c s) [ none ↦ s ∷ [] | some (a, b) ↦ b ∷ a ∷ [] ]
