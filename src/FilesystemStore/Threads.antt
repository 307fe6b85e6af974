-- ===== src/FilesystemStore/Threads.antt =====
-- `write` of src/filesystem_store.rs in many threads at once, one call of the file system at a time
-- in any order. A thread belongs to one of several stores over one directory: each store has its own
-- counter and its own locks. The clean-up of unused locks is left out. A file is written by its
-- path, so a run in which two threads hold one temporary file open at once is followed only as long
-- as no renamed file is written.
use programming_lightning_bu.Base.{
  ℕ, ◌+◌, ◌%◌, Str, Bool, not, ◌&&◌, none, some, List, [], ◌∷◌, eqb, all, filter, if◌then◌else◌,
  ◌==◌, list_eq, nat_eq, Outcome, ok, err, panic,
}
use programming_lightning_bu.Exec.{IoError}
use programming_lightning_bu.FilePath.{FilePath, parent}
use programming_lightning_bu.Fs.{
  World, Io, create_dir_all, create, write_all, sync_all, rename, open_read,
}
use programming_lightning_bu.FilesystemStore.Names.{dest_file_path}
use programming_lightning_bu.FilesystemStore.Locks.{usize_mod}
use programming_lightning_bu.FilesystemStore.Io.{tmp_path}

-- Which call comes next: after `starting` the directory of the key is known, and between `numbered`
-- and `holding` the number of the temporary file. `holding`, `renamed` and `opened` hold the lock.
pub data Stage : Type 0 where
  starting : Stage
  made renamed opened : FilePath → Stage
  numbered created written synced holding : FilePath → ℕ → Stage
  finished failed : Stage

-- A call of `write`, and the store that it is a call of.
pub record Writer : Type 0 where
  pub primary : Str
  pub secondary : Str
  pub key : Str
  pub buf : List ℕ
  pub store : ℕ

pub record System : Type 0 where
  pub world : World
  pub counters : ℕ → ℕ
  -- The threads that hold the lock of their key's file.
  pub holders : List ℕ
  pub stages : ℕ → Stage

abbrev pub set {ℓ} : {A : Type ℓ} → ℕ → A → (ℕ → A) → ℕ → A
set i a f j = if eqb i j then a else f j

-- The scope of the guard ends.
abbrev holders_after : ℕ → Stage → List ℕ → List ℕ
holders_after i finished hs = filter (λ j. not (eqb i j)) hs
holders_after i failed hs = filter (λ j. not (eqb i j)) hs
holders_after i _ hs = hs

abbrev pub moved : ℕ → Stage → World → System → System
moved i stage w s = record s {
  world = w;
  stages = set i stage s.stages;
  holders = holders_after i stage s.holders;
}

-- The stage behind a call: `?` returns at the first error.
abbrev pub stage_after : Outcome IoError (Unit {0}) → Stage → Stage
stage_after (ok x) stage = stage
stage_after (err e) stage = failed
stage_after panic stage = failed

abbrev pub attempt : Io (Unit {0}) → Stage → ℕ → System → System
attempt m stage i s = moved i (stage_after (m s.world).0 stage) (m s.world).1 s

module _ (data_dir : FilePath) (writers : ℕ → Writer) where
  abbrev pub dest_of : ℕ → FilePath
  dest_of i = dest_file_path data_dir (writers i).primary (writers i).secondary (writers i).key

  abbrev pub tmp_of : ℕ → ℕ → FilePath
  tmp_of i n = tmp_path (dest_of i) n

  abbrev pub is_free : ℕ → List ℕ → Bool
  is_free i hs =
      all (λ j. not (eqb (writers j).store (writers i).store && dest_of j == dest_of i)) hs

  -- The next call of a thread that is at a stage.
  unfoldable pub advance_from : Stage → ℕ → System → System
  advance_from starting i s = elim (parent (dest_of i)) [
    | none ↦ moved i failed s.world s
    | some under ↦ attempt (create_dir_all under) (made under) i s
  ]
  advance_from (made under) i s =
      let store = (writers i).store in
      let n = s.counters store in
      record (moved i (numbered under n) s.world s) {
        counters = set store ((n + 1) % usize_mod) s.counters;
      }
  advance_from (numbered under n) i s = attempt (create under (tmp_of i n)) (created under n) i s
  advance_from (created under n) i s =
      attempt (write_all (tmp_of i n) (writers i).buf) (written under n) i s
  advance_from (written under n) i s = attempt (sync_all (tmp_of i n)) (synced under n) i s
  -- A thread waits for a lock that another one of its store holds.
  advance_from (synced under n) i s =
      if is_free i s.holders
      then record (moved i (holding under n) s.world s) { holders = i ∷ s.holders }
      else s
  advance_from (holding under n) i s = attempt (rename (tmp_of i n) (dest_of i)) (renamed under) i s
  advance_from (renamed under) i s = attempt (open_read under) (opened under) i s
  advance_from (opened under) i s = attempt (sync_all under) finished i s
  advance_from finished i s = s
  advance_from failed i s = s

  unfoldable pub advance : ℕ → System → System
  unfolding advance_from
  advance i s = advance_from (s.stages i) i s

  -- A run: which thread goes on, step by step.
  unfoldable pub run : List ℕ → System → System
  run [] s = s
  run (i ∷ schedule) s = run schedule (advance i s)
