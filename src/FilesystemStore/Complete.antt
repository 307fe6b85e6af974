-- ===== src/FilesystemStore/Complete.antt =====
-- `write` succeeds when nothing stands in its way.
use programming_lightning_bu.Base.{
  ◌≡◌, ◌≢◌, ℕ, sym, ap, ◌∙◌, subst, some, List, [], Str, arith, ok, list_eq, nat_eq,
}
use programming_lightning_bu.Base.Dict.{lookup, insert, erase, lookup-insert, lookup-erase}
use programming_lightning_bu.FilePath.{FilePath, parent}
use programming_lightning_bu.Fs.{file, dir, sync_all}
use programming_lightning_bu.Fs.Calm.{
  Disk, calm_world, IsFree, IsOpen, create_dir_all-open, create-free, write_all-calm, rename-free,
  open_read-calm,
}
use programming_lightning_bu.FilesystemStore.Names.{Config, get_dest_dir_path, dest_file_path}
use programming_lightning_bu.FilesystemStore.Locks.{
  Process, FilesystemStore, on_world, next_tmp, with_lock, collect,
}
use programming_lightning_bu.FilesystemStore.Io.{tmp_path, write_tmp, commit, write, read}
use programming_lightning_bu.FilesystemStore.Paths.{
  IsPlain, check-IsKey, namespace_dir, parent-append, dest_file_path-eq, get_dest_dir_path-eq,
}
use programming_lightning_bu.FilesystemStore.Distinct.{Accepted, tmp_path-ne-dest_file_path}
use programming_lightning_bu.FilesystemStore.Write.{calm, read-write}

-- The directory of a key's file is there with those above it, and no directory or special file is at
-- the key's path or at the temporary one.
pub record IsWritable (d : Disk) (under dest tmp : FilePath) : Type 0 where
  pub reachable : IsOpen d [] under
  pub under_is : lookup under d ≡ some dir
  pub dest_free : IsFree (lookup dest d)
  pub tmp_free : IsFree (lookup tmp d)

free-ne-dir : (d : Disk) (p q : FilePath) → lookup p d ≡ some dir → IsFree (lookup q d) → p ≢ q
free-ne-dir d p q h k e = subst IsFree (ap (λ x. lookup x d) (sym e) ∙ h) k

module _ (c : Config) (dest under tmp : FilePath) (buf : List ℕ) (d : Disk)
    (w : IsWritable d under dest tmp) (apart : tmp ≢ dest) where
  with_tmp : Disk
  with_tmp = insert tmp (file buf) (insert tmp (file []) d)

  with_dest : Disk
  with_dest = insert dest (file buf) (erase tmp with_tmp)

  tmp_there : lookup tmp with_tmp ≡ some (file buf)
  unfolding with_tmp
  tmp_there = ground (arith, lookup-insert tmp tmp (file buf) (insert tmp (file []) d))

  dest_there : lookup dest with_tmp ≡ lookup dest d
  unfolding with_tmp
  dest_there = ground (
    arith,
    apart,
    lookup-insert tmp dest (file buf) (insert tmp (file []) d),
    lookup-insert tmp dest (file []) d,
  )

  under_there : lookup under with_dest ≡ some dir
  unfolding with_tmp with_dest
  under_there = ground (
    arith,
    free-ne-dir d under tmp w.under_is w.tmp_free,
    free-ne-dir d under dest w.under_is w.dest_free,
    lookup-insert dest under (file buf) (erase tmp with_tmp),
    lookup-erase tmp under with_tmp,
    lookup-insert tmp under (file buf) (insert tmp (file []) d),
    lookup-insert tmp under (file []) d,
    w.under_is,
  )

  commit-ok :
      (st : FilesystemStore)
      → (commit c dest under tmp (record { store = st; world = calm_world with_tmp })).0 ≡ ok tt
  unfolding commit with_lock on_world sync_all with_dest
  commit-ok st = ground (
    arith,
    rename-free with_tmp tmp dest (file buf) tmp_there (subst IsFree (sym dest_there) w.dest_free),
    open_read-calm with_dest under dir under_there,
  )

module _ (c : Config) (dest under : FilePath) (buf : List ℕ) (s : Process)
    (above : parent dest ≡ some under)
    (w : IsWritable s.world.disk under dest (tmp_path dest s.store.tmp_file_counter))
    (apart : tmp_path dest s.store.tmp_file_counter ≢ dest) where
  write_tmp-ok : write_tmp c dest buf (calm s) ≡ (
    ok (under, tmp_path dest s.store.tmp_file_counter),
    record {
      store = (next_tmp s).1.store;
      world =
          calm_world (
            with_tmp c dest under
              (tmp_path dest s.store.tmp_file_counter)
              buf
              s.world.disk
              w
              apart);
    },
  )
  unfolding write_tmp on_world next_tmp sync_all with_tmp
  write_tmp-ok =
      let d = s.world.disk in
      let tmp = tmp_path dest s.store.tmp_file_counter in
      ground (
        arith,
        above,
        create_dir_all-open d under w.reachable,
        create-free d under tmp w.under_is w.tmp_free,
        write_all-calm (insert tmp (file []) d) tmp buf,
      )

module _ (c : Config) (plain : IsPlain c) (p s k : Str) (buf : List ℕ) (t : Process) where
  -- If no call of the file system fails, the directory of a valid key's file is there with those
  -- above it, and no directory or special file is at the key's path or at that of the temporary
  -- file, then `write` returns `Ok`, and a `read` after it returns the bytes.
  pub write_completes :
      Accepted c p s k
      → IsWritable t.world.disk
          (get_dest_dir_path t.store.data_dir p s)
          (dest_file_path t.store.data_dir p s k)
          (tmp_path (dest_file_path t.store.data_dir p s k) t.store.tmp_file_counter)
      → ((write c p s k buf (calm t)).0 ≡ ok tt)
        × ((read c p s k (calm (write c p s k buf (calm t)).1)).0 ≡ ok buf)
  unfolding write collect
  write_completes valid w =
      let i = check-IsKey c p s k plain valid in
      let data_dir = t.store.data_dir in
      let dest = dest_file_path data_dir p s k in
      let under = get_dest_dir_path data_dir p s in
      let same = get_dest_dir_path-eq data_dir p s i.primary_name i.secondary_name in
      let above : parent dest ≡ some under =
        ap parent (dest_file_path-eq data_dir p s k i)
        ∙ parent-append (namespace_dir data_dir p s) k i.key_name
        ∙ ap some (sym same) in
      let tmp = tmp_path dest t.store.tmp_file_counter in
      let apart : tmp ≢ dest = λ e.
        tmp_path-ne-dest_file_path c plain data_dir p s k p s k t.store.tmp_file_counter valid valid
          (sym e) in
      let done : (write c p s k buf (calm t)).0 ≡ ok tt = ground (
        arith,
        valid,
        write_tmp-ok c dest under buf t above w apart,
        commit-ok c dest under tmp buf t.world.disk w apart (next_tmp t).1.store,
      ) in
      (done, read-write c plain p s k buf (calm t) valid done)
