-- ===== src/Fs/Calm.antt =====
-- What the calls do when none fails.
use programming_lightning_bu.Base.{
  ◌≡◌, ℕ, refl, Option, none, some, List, [], ◌∷◌, ◌++◌, Str, arith, ok, list_eq, nat_eq,
}
use programming_lightning_bu.Base.Dict.{Dict, lookup, insert, erase}
use programming_lightning_bu.FilePath.{FilePath}
use programming_lightning_bu.Fs.{
  World, Node, file, dir, special, make_dir, make_dirs, create_dir_all, create, write_all,
  open_read, rename,
}

abbrev pub Disk : Type 0
Disk = Dict FilePath Node

abbrev pub calm_world : Disk → World
calm_world d = record { disk = d; faults = [] }

-- A path where a file may be put.
abbrev pub IsFree : Option Node → Type 0
IsFree none = Unit
IsFree (some (file b)) = Unit
IsFree (some dir) = ⊥
IsFree (some special) = ⊥

-- The directories on the way are there.
abbrev pub IsOpen : Disk → FilePath → List Str → Type 0
IsOpen d base [] = Unit
IsOpen d base (c ∷ p) = (lookup (base ++ c ∷ []) d ≡ some dir) × IsOpen d (base ++ c ∷ []) p

make_dirs-open :
    (d : Disk) (base : FilePath) (p : List Str)
    → IsOpen d base p
    → make_dirs base p (calm_world d) ≡ (ok tt, calm_world d)
unfolding make_dirs make_dir
make_dirs-open d base [] h = refl
make_dirs-open d base (c ∷ p) h = ground (arith, h.0, make_dirs-open d (base ++ c ∷ []) p h.1)

pub create_dir_all-open :
    (d : Disk) (p : FilePath)
    → IsOpen d [] p
    → create_dir_all p (calm_world d) ≡ (ok tt, calm_world d)
unfolding create_dir_all
create_dir_all-open d p h = make_dirs-open d [] p h

pub create-free :
    (d : Disk) (under p : FilePath)
    → lookup under d ≡ some dir
    → IsFree (lookup p d)
    → create under p (calm_world d) ≡ (ok tt, calm_world (insert p (file []) d))
unfolding create
create-free d under p h k = ground (arith, h, k)

pub write_all-calm :
    (d : Disk) (p : FilePath) (buf : List ℕ)
    → write_all p buf (calm_world d) ≡ (ok tt, calm_world (insert p (file buf) d))
unfolding write_all
write_all-calm d p buf = refl

pub rename-free :
    (d : Disk) (from to : FilePath) (n : Node)
    → lookup from d ≡ some n
    → IsFree (lookup to d)
    → rename from to (calm_world d) ≡ (ok tt, calm_world (insert to n (erase from d)))
unfolding rename
rename-free d from to n h k = ground (arith, h, k)

pub open_read-calm :
    (d : Disk) (p : FilePath) (n : Node)
    → lookup p d ≡ some n
    → open_read p (calm_world d) ≡ (ok tt, calm_world d)
unfolding open_read
open_read-calm d p n h = ground (arith, h)
