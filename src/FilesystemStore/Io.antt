-- ===== src/FilesystemStore/Io.antt =====
-- `read`, `write`, `remove` and `list`.
use programming_lightning_bu.Base.{
  ℕ, Str, str, Bool, true, false, not, Option, none, some, List, [], ◌∷◌, ◌++◌, if◌then◌else◌, ◌==◌,
  list_eq, nat_eq, option_eq, Outcome, ok, err, panic, ok_or,
}
use programming_lightning_bu.Exec.{IoError, other, invalid_input, Exec, pure, lift, ◌>>=◌, ◌>>◌}
use programming_lightning_bu.FilePath.{FilePath, parent, set_extension, extension, file_name}
use programming_lightning_bu.Fs.{
  World, Node, file, dir, special, metadata, read_file, create_dir_all, create, write_all, sync_all,
  open_read, rename, remove_file, is_file, exists, read_dir, next_entry,
}
use programming_lightning_bu.Text.{show}
use programming_lightning_bu.FilesystemStore.Names.{
  Config, refuse, check_namespace_key_validity, get_key_from_dir_entry, get_dest_dir_path,
  dest_file_path,
}
use programming_lightning_bu.FilesystemStore.Locks.{Process, on_world, next_tmp, with_lock, collect}

-- The name of the temporary file of a write.
unfoldable pub tmp_path : FilePath → ℕ → FilePath
tmp_path dest n = set_extension dest (show n ++ str ".tmp")

module _ (c : Config) where
  unfoldable pub read : Str → Str → Str → Exec Process (List ℕ)
  unfolding ◌>>=◌
  read primary secondary key s =
      let dest = dest_file_path s.store.data_dir primary secondary key in
      (do
        lift (check_namespace_key_validity c primary secondary (some key))
        buf ← with_lock dest (on_world (read_file dest))
        collect
        pure buf)
        s

  -- Up to the complete temporary file.
  unfoldable pub write_tmp : FilePath → List ℕ → Exec Process (FilePath × FilePath)
  unfolding ◌>>=◌
  write_tmp dest buf = do
    under ← lift (ok_or (parent dest) invalid_input)
    on_world (create_dir_all under)
    n ← next_tmp
    let tmp = tmp_path dest n
    on_world (create under tmp)
    on_world (write_all tmp buf)
    on_world (sync_all tmp)
    pure (under, tmp)

  -- The block under the lock.
  unfoldable pub commit : FilePath → FilePath → FilePath → Exec Process (Unit {0})
  unfolding ◌>>=◌
  commit dest under tmp =
      with_lock dest (on_world (do rename tmp dest; open_read under; sync_all under))

  unfoldable pub write : Str → Str → Str → List ℕ → Exec Process (Unit {0})
  unfolding ◌>>=◌
  write primary secondary key buf s =
      let dest = dest_file_path s.store.data_dir primary secondary key in
      (do
        lift (check_namespace_key_validity c primary secondary (some key))
        (under, tmp) ← write_tmp dest buf
        commit dest under tmp
        collect)
        s

  -- The part of `remove` behind the test for the file.
  unfoldable pub unlink : FilePath → Bool → Exec Process (Unit {0})
  unfolding ◌>>=◌
  unlink dest lazy = do
    with_lock dest (
        on_world (
          if lazy then remove_file dest else do
            remove_file dest
            under ← lift (ok_or (parent dest) invalid_input)
            open_read under
            sync_all under))
    collect

  unfoldable pub remove : Str → Str → Str → Bool → Exec Process (Unit {0})
  unfolding unlink ◌>>=◌
  remove primary secondary key lazy s =
      let dest = dest_file_path s.store.data_dir primary secondary key in
      (do
        lift (check_namespace_key_validity c primary secondary (some key))
        is_there ← on_world (is_file dest)
        if not is_there then pure tt else unlink dest lazy)
        s

  -- Every failure of `metadata` becomes an error of the kind `Other`.
  metadata_or_other : FilePath → Exec World Node
  metadata_or_other p w =
      let (r, w') = metadata p w in (elim r [ err e ↦ err other | ok n ↦ ok n | panic ↦ panic ], w')

  entry_kind : Node → Outcome IoError Bool
  entry_kind dir = ok false
  entry_kind (file b) = ok true
  entry_kind special = refuse c

  extension_of : FilePath → Option Str
  extension_of p = elim (file_name p) [ none ↦ none | some name ↦ extension name ]

  unfoldable pub dir_entry_is_key : FilePath → Exec World Bool
  unfolding metadata_or_other entry_kind extension_of ◌>>=◌
  dir_entry_is_key p =
      if extension_of p == some (str "tmp")
      then pure false
      else (do n ← metadata_or_other p; lift (entry_kind n))

  unfoldable pub list_entries : FilePath → List FilePath → List Str → Exec World (List Str)
  unfolding dir_entry_is_key ◌>>=◌
  list_entries base [] keys = pure keys
  list_entries base (p ∷ ps) keys = do
    next_entry
    is_key ← dir_entry_is_key p
    elim is_key [
      | false ↦ list_entries base ps keys
      | true ↦
          lift (get_key_from_dir_entry c p base) >>= λ key. list_entries base ps (keys ++ key ∷ [])
    ]

  unfoldable pub list : Str → Str → Exec Process (List Str)
  unfolding ◌>>=◌ list_entries
  list primary secondary s =
      let base = get_dest_dir_path s.store.data_dir primary secondary in
      (do
        lift (check_namespace_key_validity c primary secondary none)
        is_there ← on_world (exists base)
        if not is_there then pure [] else do
          keys ← on_world (do entries ← read_dir base; list_entries base entries [])
          collect
          pure keys)
        s
