-- ===== src/Fs.antt =====
-- `std::fs` over a tree of files in memory. Every call may also fail: the world holds one entry for
-- each call to come, `some n` for a failure (a write has then stored its first `n` bytes), and no
-- more failures once the entries are used up. What a power loss takes back is not modelled.
pub mod Laws
pub mod Calm
use programming_lightning_bu.Base.{
  ℕ, ◌≡◌, refl, Str, str, Bool, true, false, not, ◌&&◌, Option, none, some, List, [], ◌∷◌, ◌++◌,
  map, if◌then◌else◌, is_empty, take, Outcome, ok, err, panic, list_eq, nat_eq, ◌==◌,
}
use programming_lightning_bu.Exec.{
  IoError, other, not_found, is_a_directory, not_a_directory, device, Exec, pure, ◌>>=◌, ◌>>◌,
}
use programming_lightning_bu.Base.Dict.{Dict, lookup, insert, erase}
use programming_lightning_bu.FilePath.{FilePath, strip_prefix}

pub data Node : Type 0 where
  file : List ℕ → Node
  dir special : Node

pub record World : Type 0 where
  pub disk : Dict FilePath Node
  pub faults : List (Option ℕ)

abbrev pub Io : Type 0 → Type 0
Io = Exec World

-- The outcome of the next call: how many bytes a failing write stores.
abbrev next_fault : List (Option ℕ) → Option ℕ
next_fault [] = none
next_fault (f ∷ fs) = f

abbrev later : List (Option ℕ) → List (Option ℕ)
later [] = []
later (f ∷ fs) = fs

-- A call that fails without effect, or acts.
unfoldable pub call : {A : Type 0} → (World → Outcome IoError A × World) → Io A
call act w =
    let w' = record w { faults = later w.faults } in
    elim (next_fault w.faults) [ some n ↦ (err device, w') | none ↦ act w' ]

abbrev pub node : FilePath → World → Option Node
node p w = lookup p w.disk

abbrev set_node : FilePath → Node → World → World
set_node p n w = record w { disk = insert p n w.disk }

-- A call that fails without effect and then counts as `false`, or looks at the world.
abbrev test : (World → Bool) → Io Bool
test look w =
    let w' = record w { faults = later w.faults } in
    elim (next_fault w.faults) [ some n ↦ (ok false, w') | none ↦ (ok (look w'), w') ]

-- `Path::exists` and `Path::is_file`
unfoldable pub exists : FilePath → Io Bool
exists p = test λ w. elim (node p w) [ none ↦ false | some n ↦ true ]

unfoldable pub is_file : FilePath → Io Bool
is_file p = test λ w. elim (node p w) [ some (file b) ↦ true | _ ↦ false ]

-- Whether the next call fails.
abbrev pub next_fails : World → Bool
next_fails w = elim (next_fault w.faults) [ some n ↦ true | none ↦ false ]

-- `fs::metadata`
unfoldable pub metadata : FilePath → Io Node
unfolding call
metadata p = call λ w. elim (node p w) [ none ↦ (err not_found, w) | some n ↦ (ok n, w) ]

-- `File::open` and `read_to_end`, `fs::read`
unfoldable pub read_file : FilePath → Io (List ℕ)
unfolding call
read_file p = call λ w. elim (node p w) [
  | some (file b) ↦ (ok b, w)
  | some dir ↦ (err is_a_directory, w)
  | some special ↦ (err device, w)
  | none ↦ (err not_found, w)
]

-- `fs::create_dir`, where a directory that is there counts as made.
make_dir : FilePath → Io (Unit {0})
unfolding call
make_dir p w = elim (node p w) [
  | some dir ↦ (ok tt, w)
  | none ↦ call (λ w. (ok tt, set_node p dir w)) w
  | _ ↦ (err not_a_directory, w)
]

make_dirs : FilePath → List Str → Io (Unit {0})
unfolding make_dir ◌>>=◌
make_dirs base [] = pure tt
make_dirs base (c ∷ p) = do make_dir (base ++ c ∷ []); make_dirs (base ++ c ∷ []) p

-- `fs::create_dir_all`
unfoldable pub create_dir_all : FilePath → Io (Unit {0})
unfolding make_dirs
create_dir_all p = make_dirs [] p

-- `File::create`: an old file is emptied. `under` is the directory of the path.
unfoldable pub create : FilePath → FilePath → Io (Unit {0})
unfolding call
create under p = call λ w. elim (node under w) [
  | some dir ↦ elim (node p w) [
    | some dir ↦ (err is_a_directory, w)
    | some special ↦ (err device, w)
    | _ ↦ (ok tt, set_node p (file []) w)
  ]
  | none ↦ (err not_found, w)
  | _ ↦ (err not_a_directory, w)
]

-- `write_all` to a file that was just created.
unfoldable pub write_all : FilePath → List ℕ → Io (Unit {0})
write_all p buf w =
    let w' = record w { faults = later w.faults } in
    elim (next_fault w.faults) [
      | some n ↦ (err device, set_node p (file (take n buf)) w')
      | none ↦ (ok tt, set_node p (file buf) w')
    ]

-- `OpenOptions::new().create(true).append(true).open`: a file that is not there is made.
unfoldable pub open_append : FilePath → FilePath → Io (Unit {0})
unfolding call
open_append under p = call λ w. elim (node under w) [
  | some dir ↦ elim (node p w) [
    | none ↦ (ok tt, set_node p (file []) w)
    | some (file b) ↦ (ok tt, w)
    | some dir ↦ (err is_a_directory, w)
    | some special ↦ (err device, w)
  ]
  | none ↦ (err not_found, w)
  | _ ↦ (err not_a_directory, w)
]

-- `write_all` to a file that was opened so.
unfoldable pub append_file : FilePath → List ℕ → Io (Unit {0})
append_file p buf w =
    let w' = record w { faults = later w.faults } in
    elim (node p w) [
      | some (file old) ↦ elim (next_fault w.faults) [
        | some n ↦ (err device, set_node p (file (old ++ take n buf)) w')
        | none ↦ (ok tt, set_node p (file (old ++ buf)) w')
      ]
      | none ↦ elim (next_fault w.faults) [
        | some n ↦ (err device, set_node p (file (take n buf)) w')
        | none ↦ (ok tt, set_node p (file buf) w')
      ]
      | some dir ↦ (err is_a_directory, w')
      | some special ↦ (err device, w')
    ]

-- `sync_all`
unfoldable pub sync_all : FilePath → Io (Unit {0})
unfolding call
sync_all p = call λ w. (ok tt, w)

-- `OpenOptions::new().read(true).open`
unfoldable pub open_read : FilePath → Io (Unit {0})
unfolding call
open_read p = call λ w. elim (node p w) [ none ↦ (err not_found, w) | some n ↦ (ok tt, w) ]

-- `fs::rename` of a file
unfoldable pub rename : FilePath → FilePath → Io (Unit {0})
unfolding call
rename from to = call λ w. elim (node from w) [
  | none ↦ (err not_found, w)
  | some n ↦ elim (node to w) [
    | some dir ↦ (err is_a_directory, w)
    | _ ↦ (ok tt, record w { disk = insert to n (erase from w.disk) })
  ]
]

-- `fs::remove_file`
unfoldable pub remove_file : FilePath → Io (Unit {0})
unfolding call
remove_file p = call λ w. elim (node p w) [
  | none ↦ (err not_found, w)
  | some dir ↦ (err is_a_directory, w)
  | _ ↦ (ok tt, record w { disk = erase p w.disk })
]

children : FilePath → Dict FilePath Node → List FilePath
children p [] = []
children p ((q, n) ∷ disk) =
    let rest = children p disk in elim (strip_prefix p q) [ some (c ∷ []) ↦ q ∷ rest | _ ↦ rest ]

-- Without a path and everything below it.
unfoldable pub without : FilePath → Dict FilePath Node → Dict FilePath Node
without p [] = []
without p ((q, n) ∷ disk) =
    let rest = without p disk in elim (strip_prefix p q) [ some c ↦ rest | none ↦ (q, n) ∷ rest ]

-- `fs::read_dir`: the paths of the entries.
unfoldable pub read_dir : FilePath → Io (List FilePath)
unfolding call children strip_prefix
read_dir p = call λ w. elim (node p w) [
  | some dir ↦ (ok (children p w.disk), w)
  | none ↦ (err not_found, w)
  | _ ↦ (err not_a_directory, w)
]

-- The iterator's next step, which may fail.
unfoldable pub next_entry : Io (Unit {0})
unfolding call
next_entry = call λ w. (ok tt, w)

-- `fs::remove_dir_all`, which fails before it has removed anything or removes all.
unfoldable pub remove_dir_all : FilePath → Io (Unit {0})
unfolding call
remove_dir_all p = call λ w. elim (node p w) [
  | some dir ↦ (ok tt, record w { disk = without p w.disk })
  | none ↦ (err not_found, w)
  | _ ↦ (err not_a_directory, w)
]
