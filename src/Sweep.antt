-- ===== src/Sweep.antt =====
-- `migrate_deprecated_spendable_outputs` of src/sweep.rs, on the files of the node and the command
-- line's store. LDK's reader of one descriptor from the front of bytes, its encoding of the moved
-- bytes, the random key and the height of the best block are parameters. What it logs is left out.
pub mod Laws
use programming_lightning_bu.Base.{
  ◌+◌, ℕ, zero, suc, Str, str, Bool, true, false, not, ◌&&◌, Option, none, some, List, [], ◌∷◌,
  ◌++◌, eqb, length, is_empty, if◌then◌else◌, Outcome, ok, err, panic, unwrap, list_eq, nat_eq,
}
use programming_lightning_bu.Exec.{IoError, Exec, pure, lift, ◌>>=◌, ◌>>◌}
use programming_lightning_bu.FilePath.{FilePath, file_name}
use programming_lightning_bu.Fs.{
  Io, exists, read_dir, next_entry, create_dir_all, rename, read_file, remove_dir_all,
}
use programming_lightning_bu.FilesystemStore.{write}
use programming_lightning_bu.HexUtils.{hex_str}
use programming_lightning_bu.Payments.{Bytes}
use programming_lightning_bu.Node.{
  Ldk, Node, command_line, process_of, with_process, track_spendable_outputs, ask,
}

abbrev pub pending_spendables_dir : FilePath → FilePath
pending_spendables_dir ldk_data_dir = ldk_data_dir ++ str "pending_spendable_outputs" ∷ []

abbrev pub processing_spendables_dir : FilePath → FilePath
processing_spendables_dir ldk_data_dir = ldk_data_dir ++ str "processing_spendable_outputs" ∷ []

abbrev pub spendables_dir : FilePath → FilePath
spendables_dir ldk_data_dir = ldk_data_dir ++ str "spendable_outputs" ∷ []

-- Whether one of the three is there: those behind the first that is are not looked at.
unfoldable pub any_exists : FilePath → Io Bool
unfolding exists ◌>>=◌
any_exists ldk_data_dir = do
  pending ← exists (pending_spendables_dir ldk_data_dir)
  if pending then pure true else do
    processing ← exists (processing_spendables_dir ldk_data_dir)
    if processing then pure true else exists (spendables_dir ldk_data_dir)

abbrev pub unwrap_io : {A : Type 0} → Outcome IoError A → Outcome IoError A
unwrap_io (ok a) = ok a
unwrap_io (err e) = panic
unwrap_io panic = panic

-- A call of the file system as it is, and one that is unwrapped.
unfoldable pub attempt_io : {A : Type 0} → Io A → Exec Node (Outcome IoError A)
attempt_io m n =
    let (r, w) = m n.process.world in (ok r, record n { process = record n.process { world = w } })

unfoldable pub must : {A : Type 0} → Io A → Exec Node A
must m n =
    let (r, w) = m n.process.world in
    (unwrap_io r, record n { process = record n.process { world = w } })

abbrev name_of : FilePath → Str
name_of p = elim (file_name p) [ some name ↦ name | none ↦ [] ]

-- A pending file whose name has 64 characters is moved.
unfoldable pub move_file : FilePath → FilePath → Exec Node (Unit {0})
unfolding must ◌>>=◌
move_file ldk_data_dir p = if not (eqb (length (name_of p)) 64) then pure tt else do
  must (create_dir_all (processing_spendables_dir ldk_data_dir))
  must (rename p (processing_spendables_dir ldk_data_dir ++ name_of p ∷ []))

-- The loop over the pending files.
unfoldable pub move_pending : FilePath → List FilePath → Exec Node (Unit {0})
unfolding must move_file ◌>>=◌
move_pending ldk_data_dir [] = pure tt
move_pending ldk_data_dir (p ∷ ps) = do
  must next_entry
  move_file ldk_data_dir p
  move_pending ldk_data_dir ps

-- The bytes of all files, one behind the other.
unfoldable pub concatenate : List FilePath → Bytes → Exec Node Bytes
unfolding must ◌>>=◌
concatenate [] outputs = pure outputs
concatenate (p ∷ ps) outputs = do
  must next_entry
  bytes ← must (read_file p)
  concatenate ps (outputs ++ bytes)

-- The descriptors of a file. Each read takes at least one byte, so `length bytes + 1` rounds are
-- enough; without them the result is `panic`.
unfoldable pub read_descriptors :
    (Bytes → Option (Bytes × Bytes)) → ℕ → Bytes → List Bytes → Outcome IoError (List Bytes)
read_descriptors read zero bytes outputs = panic
read_descriptors read (suc fuel) [] outputs = ok outputs
read_descriptors read (suc fuel) (b ∷ bytes) outputs = elim (read (b ∷ bytes)) [
  | none ↦ panic
  | some (output, rest) ↦ read_descriptors read fuel rest (outputs ++ output ∷ [])
]

unfoldable pub read_spendables :
    (Bytes → Option (Bytes × Bytes)) → List FilePath → List Bytes → Exec Node (List Bytes)
unfolding must read_descriptors ◌>>=◌
read_spendables read [] outputs = pure outputs
read_spendables read (p ∷ ps) outputs = do
  must next_entry
  bytes ← must (read_file p)
  outputs ← lift (read_descriptors read (suc (length bytes)) bytes outputs)
  read_spendables read ps outputs

-- Of a directory that cannot be listed, nothing.
unfoldable pub read_listed :
    (Bytes → Option (Bytes × Bytes)) → Outcome IoError (List FilePath) → Exec Node (List Bytes)
unfolding read_spendables
read_listed read (ok files) n = read_spendables read files [] n
read_listed read (err e) n = (ok [], n)
read_listed read panic n = (ok [], n)

module _ (l : Ldk) (encode : Bytes → Bytes) (read : Bytes → Option (Bytes × Bytes)) (random : Bytes)
    (best_height : ℕ) (ldk_data_dir : FilePath) where
  -- `persister.write(..).unwrap()` of the outputs under a random key.
  unfoldable pub save_outputs : Bytes → Exec Node (Unit {0})
  save_outputs outputs n =
      let (r, p) =
        write l.config (str "spendable_outputs") [] (hex_str random) (encode outputs)
          (process_of command_line n) in
      (unwrap_io r, with_process command_line p n)

  unfoldable pub save_moved : Bytes → Exec Node (Unit {0})
  unfolding must save_outputs ◌>>=◌
  save_moved outputs =
      if is_empty outputs
      then pure tt
      else do save_outputs outputs; must (remove_dir_all (processing_spendables_dir ldk_data_dir))

  -- From the moved files to one file of the store.
  unfoldable pub collect_processing : Exec Node (Unit {0})
  unfolding attempt_io must concatenate save_moved ◌>>=◌
  collect_processing = do
    processing ← attempt_io (read_dir (processing_spendables_dir ldk_data_dir))
    outputs ← elim processing [ ok files ↦ concatenate files [] | _ ↦ pure [] ]
    save_moved outputs

  unfoldable pub migrate_pending : Exec Node (Unit {0})
  unfolding attempt_io move_pending collect_processing ◌>>=◌
  migrate_pending = do
    pending ← attempt_io (read_dir (pending_spendables_dir ldk_data_dir))
    elim pending [
      | ok files ↦ (do move_pending ldk_data_dir files; collect_processing)
      | _ ↦ pure tt
    ]

  unfoldable pub remove_dirs : Exec Node (Unit {0})
  unfolding must ◌>>=◌
  remove_dirs = do
    must (remove_dir_all (spendables_dir ldk_data_dir))
    must (remove_dir_all (pending_spendables_dir ldk_data_dir))

  unfoldable pub track_outputs : List Bytes → Exec Node (Unit {0})
  unfolding ask remove_dirs ◌>>=◌
  track_outputs outputs = do
    tracked ← ask l (track_spendable_outputs outputs none (some (best_height + 2)))
    lift (if tracked then ok tt else panic)
    remove_dirs

  -- The outputs of the store's files go to the sweeper, and the directories go.
  unfoldable pub migrate_spendables : Exec Node (Unit {0})
  unfolding attempt_io track_outputs ◌>>=◌
  migrate_spendables = do
    spendables ← attempt_io (read_dir (spendables_dir ldk_data_dir))
    outputs ← read_listed read spendables
    track_outputs outputs

  unfoldable pub migrate_deprecated_spendable_outputs : Exec Node (Unit {0})
  unfolding must any_exists migrate_pending migrate_spendables ◌>>=◌
  migrate_deprecated_spendable_outputs = do
    any ← must (any_exists ldk_data_dir)
    if not any then pure tt else migrate_pending >> migrate_spendables
