-- ===== src/FilePath.antt =====
-- `std::path` as the program uses it: a path is its components, as `Path` compares them. The first
-- component of an absolute path is "/".
use programming_lightning_bu.Base.{
  Str, str, Bool, false, not, ◌&&◌, ◌||◌, Option, none, some, List, [], ◌∷◌, ◌++◌, eqb,
  if◌then◌else◌, is_empty, filter, ◌==◌, list_eq, nat_eq,
}
use programming_lightning_bu.Text.{split, rsplit_once}

abbrev pub FilePath : Type 0
FilePath = List Str

abbrev pub is_absolute : Str → Bool
is_absolute [] = false
is_absolute (c ∷ s) = eqb c b'/'

unfoldable pub is_named : Str → Bool
is_named s = not (is_empty s) && not (s == str ".")

-- The components behind the root; a dot counts only in front.
unfoldable pub normals : Str → List Str
unfolding is_named
normals s = filter is_named (split b'/' s)

unfoldable pub leading_dot : Str → Bool
leading_dot [] = false
leading_dot (c ∷ []) = eqb c b'.'
leading_dot (c ∷ d ∷ s) = eqb c b'.' && eqb d b'/'

unfoldable pub components : Str → FilePath
unfolding normals split leading_dot list_eq nat_eq
components s =
    if is_absolute s
    then str "/" ∷ normals s
    else if leading_dot s
    then str "." ∷ normals s
    else normals s

-- `PathBuf::push`: an absolute path replaces the old one.
unfoldable pub push : FilePath → Str → FilePath
unfolding components
push p s = if is_absolute s || is_empty p then components s else p ++ normals s

unfoldable pub parent : FilePath → Option FilePath
parent [] = none
parent (c ∷ []) = if c == str "/" then none else some []
parent (c ∷ d ∷ p) = elim (parent (d ∷ p)) [ none ↦ some (c ∷ []) | some q ↦ some (c ∷ q) ]

unfoldable pub file_stem : Str → Str
unfolding rsplit_once
file_stem name =
    if name == str ".."
    then name
    else elim (rsplit_once b'.' name) [ none ↦ name | some (a, b) ↦ if is_empty a then name else a ]

unfoldable pub extension : Str → Option Str
unfolding rsplit_once
extension name = if name == str ".." then none else elim (rsplit_once b'.' name) [
  | none ↦ none
  | some (a, b) ↦ if is_empty a then none else some b
]

-- `PathBuf::set_extension` by a text that is not empty.
unfoldable pub set_extension : FilePath → Str → FilePath
unfolding file_stem
set_extension [] ext = []
set_extension (c ∷ []) ext =
    if c == str ".." || c == str "/" || c == str "."
    then c ∷ []
    else (file_stem c ++ b'.' ∷ ext) ∷ []
set_extension (c ∷ d ∷ p) ext = c ∷ set_extension (d ∷ p) ext

unfoldable pub file_name : FilePath → Option Str
file_name [] = none
file_name (c ∷ []) = if c == str ".." || c == str "/" || c == str "." then none else some c
file_name (c ∷ d ∷ p) = file_name (d ∷ p)

-- `Path::strip_prefix`
unfoldable pub strip_prefix : FilePath → FilePath → Option FilePath
strip_prefix [] p = some p
strip_prefix (b ∷ base) [] = none
strip_prefix (b ∷ base) (c ∷ p) = let rest = strip_prefix base p in if b == c then rest else none

-- `Path::to_str` of a relative path.
abbrev pub to_str : FilePath → Str
to_str [] = []
to_str (c ∷ []) = c
to_str (c ∷ d ∷ p) = c ++ b'/' ∷ to_str (d ∷ p)
