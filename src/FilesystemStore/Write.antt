-- ===== src/FilesystemStore/Write.antt =====
-- What `write` and `read` promise each other.
use programming_lightning_bu.Base.{
  ℕ, ◌≡◌, ◌≢◌, ◌⊎◌, sym, ap, ◌∙◌, Str, Option, some, List, [], arith, Outcome, ok,
}
use programming_lightning_bu.Exec.{IoError}
use programming_lightning_bu.FilePath.{FilePath, parent}
use programming_lightning_bu.Fs.{read_file}
use programming_lightning_bu.FilesystemStore.Names.{Config, dest_file_path}
use programming_lightning_bu.FilesystemStore.Locks.{next_tmp, Process, on_world, with_lock, collect}
use programming_lightning_bu.FilesystemStore.Io.{read, write, write_tmp, commit}
use programming_lightning_bu.FilesystemStore.Paths.{
  IsPlain, check-IsKey, namespace_dir, dest_file_path-eq, parent-append,
}
use programming_lightning_bu.FilesystemStore.Distinct.{
  Accepted, dest_file_path_injective, tmp_path-ne-dest_file_path,
}
use programming_lightning_bu.FilesystemStore.Atomic.{file_at, write_steps-Written, Finished}

-- The file of a key, as the process sees it.
abbrev pub stored : Str → Str → Str → Process → Option (List ℕ)
stored primary secondary key t = file_at (dest_file_path t.store.data_dir primary secondary key) t

-- The same process, if no further call of the file system fails.
abbrev pub calm : Process → Process
calm t = record t { world = record t.world { faults = [] } }

read-stored :
    (c : Config) (p s k : Str) (buf : List ℕ) (t : Process)
    → Accepted c p s k
    → stored p s k t ≡ some buf
    → (read c p s k (calm t)).0 ≡ ok buf
unfolding read with_lock on_world read_file collect
read-stored c p s k buf t valid e = ground (arith, valid, e)

module _ (c : Config) (plain : IsPlain c) (p s k : Str) (buf : List ℕ) (t : Process) where
  abbrev dest : FilePath
  dest = dest_file_path t.store.data_dir p s k

  after : Outcome IoError (Unit {0}) × Process
  after = write c p s k buf t

  write-Written : Accepted c p s k → Finished dest buf t (write c p s k buf t)
  unfolding write
  write-Written valid =
      let i = check-IsKey c p s k plain valid in
      let under = namespace_dir t.store.data_dir p s in
      let above =
        ap parent (dest_file_path-eq t.store.data_dir p s k i) ∙ parent-append under k i.key_name in
      rw valid (
        write_steps-Written c dest under buf t above (λ e.
          tmp_path-ne-dest_file_path c plain t.store.data_dir p s k p s k t.store.tmp_file_counter
            valid valid (sym e)))

  pub data_dir-write : (write c p s k buf t).1.store.data_dir ≡ t.store.data_dir
  unfolding write write_tmp commit with_lock on_world next_tmp collect
  data_dir-write = ground arith

  pub stored-write :
      Accepted c p s k
      → (stored p s k (write c p s k buf t).1 ≡ some buf)
        ⊎ ((write c p s k buf t).0 ≢ ok tt)
          × (stored p s k (write c p s k buf t).1 ≡ stored p s k t)
  stored-write valid = rw data_dir-write (write-Written valid).whole

  pub stored-write_other :
      (p' s' k' : Str)
      → Accepted c p s k
      → Accepted c p' s' k'
      → ¬ ((p ≡ p') × (s ≡ s') × (k ≡ k'))
      → stored p' s' k' (write c p s k buf t).1 ≡ stored p' s' k' t
  stored-write_other p' s' k' valid valid' differ =
      let d = t.store.data_dir in
      rw data_dir-write (
        (write-Written valid).others (dest_file_path d p' s' k')
          (λ e. differ (dest_file_path_injective c plain d p s k p' s' k' valid valid' (sym e)))
          (tmp_path-ne-dest_file_path c plain d p s k p' s' k' t.store.tmp_file_counter valid
            valid'))

  -- Whichever call of the file system fails, and how, the file of a valid key that is written
  -- holds afterwards what it held before or all of the new bytes, and the new bytes if `write`
  -- returned no error. The file of every other valid key is as it was.
  pub write_atomic :
      (p' s' k' : Str)
      → Accepted c p s k
      → Accepted c p' s' k'
      → ¬ ((p ≡ p') × (s ≡ s') × (k ≡ k'))
      → ((stored p s k (write c p s k buf t).1 ≡ some buf)
          ⊎ ((write c p s k buf t).0 ≢ ok tt)
            × (stored p s k (write c p s k buf t).1 ≡ stored p s k t))
        × (stored p' s' k' (write c p s k buf t).1 ≡ stored p' s' k' t)
  write_atomic p' s' k' valid valid' differ =
      (stored-write valid, stored-write_other p' s' k' valid valid' differ)

  -- What was written is read back: after a `write` of a valid key that returned no error, a `read`
  -- during which no call of the file system fails returns the bytes.
  pub read-write :
      Accepted c p s k
      → (write c p s k buf t).0 ≡ ok tt
      → (read c p s k (calm (write c p s k buf t).1)).0 ≡ ok buf
  read-write valid done =
      read-stored c p s k buf (write c p s k buf t).1 valid
        (rw data_dir-write (ground (arith, (write-Written valid).whole, done)))
