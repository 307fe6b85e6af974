-- ===== src/FilesystemStore/Remove.antt =====
-- What `remove` promises.
use programming_lightning_bu.Base.{
  ◌≡◌, ◌≢◌, ◌⊎◌, sym, ap, ◌∙◌, Str, Bool, false, some, none, arith, ok, list_eq, nat_eq, true,
}
use programming_lightning_bu.Base.Dict.{lookup-erase}
use programming_lightning_bu.FilePath.{FilePath, parent}
use programming_lightning_bu.Fs.{World, is_file, remove_file, open_read, next_fails, next_fails}
use programming_lightning_bu.Fs.Laws.{
  content, content-remove_file, content-open_read, content-sync_all, content-is_file,
}
use programming_lightning_bu.FilesystemStore.Names.{Config, dest_file_path}
use programming_lightning_bu.FilesystemStore.Locks.{Process, on_world, with_lock, collect}
use programming_lightning_bu.FilesystemStore.Io.{remove, unlink}
use programming_lightning_bu.FilesystemStore.Paths.{
  IsPlain, check-IsKey, namespace_dir, dest_file_path-eq, parent-append,
}
use programming_lightning_bu.FilesystemStore.Distinct.{Accepted, dest_file_path_injective}
use programming_lightning_bu.FilesystemStore.Atomic.{file_at}
use programming_lightning_bu.FilesystemStore.Write.{stored}

content-remove_file_self :
    (p : FilePath) (w : World)
    → (content p (remove_file p w).1 ≡ none)
      ⊎ ((remove_file p w).0 ≢ ok tt) × (content p (remove_file p w).1 ≡ content p w)
unfolding remove_file
content-remove_file_self p w = ground (arith, lookup-erase p p w.disk)

-- `is_file` says `false` only where there is no file or its call fails.
is_file-false :
    (p : FilePath) (w : World)
    → next_fails w ≡ false
    → (is_file p w).0 ≡ ok false
    → content p w ≡ none
unfolding is_file
is_file-false p w h e = ground arith

data_dir-unlink :
    (c : Config) (dest : FilePath) (lazy : Bool) (t : Process)
    → (unlink c dest lazy t).1.store.data_dir ≡ t.store.data_dir
unfolding unlink with_lock on_world collect
data_dir-unlink c dest lazy t = ground arith

module _ (c : Config) (dest under : FilePath) (lazy : Bool) (t : Process)
    (above : parent dest ≡ some under) where
  removed : World
  removed = (remove_file dest t.world).1

  opened : World
  opened = (open_read under removed).1

  unlink-dest :
      (file_at dest (unlink c dest lazy t).1 ≡ none)
      ⊎ ((unlink c dest lazy t).0 ≢ ok tt)
        × (file_at dest (unlink c dest lazy t).1 ≡ file_at dest t)
  unfolding unlink with_lock on_world collect removed opened
  unlink-dest = ground (
    arith,
    above,
    content-remove_file_self dest t.world,
    content-open_read dest under removed,
    content-sync_all dest under opened,
  )

  unlink_others : (q : FilePath) → q ≢ dest → file_at q (unlink c dest lazy t).1 ≡ file_at q t
  unfolding unlink with_lock on_world collect removed opened
  unlink_others q h = ground (
    arith,
    above,
    content-remove_file q dest t.world h,
    content-open_read q under removed,
    content-sync_all q under opened,
  )

module _ (c : Config) (plain : IsPlain c) (p s k : Str) (lazy : Bool) (t : Process) where
  abbrev dest : FilePath
  dest = dest_file_path t.store.data_dir p s k

  abbrev under : FilePath
  under = namespace_dir t.store.data_dir p s

  -- The process that has looked for the file.
  looked : Process
  looked = record t { world = (is_file dest t.world).1 }

  above : Accepted c p s k → parent dest ≡ some under
  above valid =
      let i = check-IsKey c p s k plain valid in
      ap parent (dest_file_path-eq t.store.data_dir p s k i) ∙ parent-append under k i.key_name

  data_dir-remove : (remove c p s k lazy t).1.store.data_dir ≡ t.store.data_dir
  unfolding remove on_world looked
  data_dir-remove = ground (arith, data_dir-unlink c dest lazy looked)

  remove-dest :
      Accepted c p s k
      → (file_at dest (remove c p s k lazy t).1 ≡ none)
        ⊎ (((remove c p s k lazy t).0 ≢ ok tt) ⊎ (next_fails t.world ≡ true))
          × (file_at dest (remove c p s k lazy t).1 ≡ file_at dest t)
  unfolding remove on_world looked
  remove-dest valid = ground (
    arith,
    valid,
    content-is_file dest dest t.world,
    is_file-false dest t.world,
    unlink-dest c dest under lazy looked (above valid),
  )

  remove_others :
      (q : FilePath)
      → Accepted c p s k
      → q ≢ dest
      → file_at q (remove c p s k lazy t).1 ≡ file_at q t
  unfolding remove on_world looked
  remove_others q valid h = ground (
    arith,
    valid,
    content-is_file q dest t.world,
    unlink_others c dest under lazy looked (above valid) q h,
  )

  pub stored-remove :
      Accepted c p s k
      → (stored p s k (remove c p s k lazy t).1 ≡ none)
        ⊎ (((remove c p s k lazy t).0 ≢ ok tt) ⊎ (next_fails t.world ≡ true))
          × (stored p s k (remove c p s k lazy t).1 ≡ stored p s k t)
  stored-remove valid = rw data_dir-remove (remove-dest valid)

  pub stored-remove_other :
      (p' s' k' : Str)
      → Accepted c p s k
      → Accepted c p' s' k'
      → ¬ ((p ≡ p') × (s ≡ s') × (k ≡ k'))
      → stored p' s' k' (remove c p s k lazy t).1 ≡ stored p' s' k' t
  stored-remove_other p' s' k' valid valid' differ =
      let d = t.store.data_dir in
      rw data_dir-remove (
        remove_others (dest_file_path d p' s' k') valid
          (λ e. differ (dest_file_path_injective c plain d p s k p' s' k' valid valid' (sym e))))

  -- Whichever call of the file system fails, the file of a valid key that is removed, lazily or not,
  -- is gone or as it was. If `remove` returned no error, it is gone unless the first call failed,
  -- which asks whether there is a file: then `remove` may return `Ok` and leave the file. The file of
  -- every other valid key is as it was.
  pub remove_atomic :
      (p' s' k' : Str)
      → Accepted c p s k
      → Accepted c p' s' k'
      → ¬ ((p ≡ p') × (s ≡ s') × (k ≡ k'))
      → ((stored p s k (remove c p s k lazy t).1 ≡ none)
          ⊎ (((remove c p s k lazy t).0 ≢ ok tt) ⊎ (next_fails t.world ≡ true))
            × (stored p s k (remove c p s k lazy t).1 ≡ stored p s k t))
        × (stored p' s' k' (remove c p s k lazy t).1 ≡ stored p' s' k' t)
  remove_atomic p' s' k' valid valid' differ =
      (stored-remove valid, stored-remove_other p' s' k' valid valid' differ)
