-- ===== src/Tests/Store.antt =====
-- Runs of `FilesystemStore`.
use programming_lightning_bu.Base.{
  true, ◌≡◌, ◌≢◌, ◌⊎◌, ◌↔◌, refl, Str, str, false, none, some, [], ◌∷◌, ok, err, panic,
  if◌then◌else◌, list_eq, nat_eq, true,
}
use programming_lightning_bu.FilePath.{
  parent, push, components, normals, is_named, leading_dot, set_extension, file_stem,
}
use programming_lightning_bu.Base.Dict.{lookup, insert, erase, modify, retain}
use programming_lightning_bu.Text.{show, show_from, split, cons_head, rsplit_once}
use programming_lightning_bu.FilesystemStore.{
  Process, FilesystemStore, read, write, write_tmp, commit, get_dest_dir_path, next_tmp, clone_lock,
  drop_lock, collect, remove, check_namespace_key_validity, dest_file_path, tmp_path,
  is_valid_kvstore_str, garbage_collect_locks, with_lock, on_world,
}
use programming_lightning_bu.FilesystemStore.Distinct.{Accepted, dest_file_path_injective}
use programming_lightning_bu.FilesystemStore.Write.{stored, calm, write_atomic, read-write}
use programming_lightning_bu.FilesystemStore.Remove.{remove_atomic}
use programming_lightning_bu.FilesystemStore.Checks.{
  refused_changes_nothing, check_exact, Wellformed,
}
use programming_lightning_bu.FilesystemStore.Gc.{count}
use programming_lightning_bu.Exec.{other, ◌>>=◌}
use programming_lightning_bu.Fs.{
  is_file, next_fails, sync_all, create_dir_all, create, write_all, rename, open_read, call,
}
use programming_lightning_bu.FilesystemStore.Complete.{IsWritable, write_completes}
use programming_lightning_bu.Tests.{config, config-IsPlain, process, store}

first_key : Accepted config [] [] (str "a")
unfolding check_namespace_key_validity is_valid_kvstore_str nat_eq
first_key = refl

second_key : Accepted config (str "n") [] (str "b")
unfolding check_namespace_key_validity is_valid_kvstore_str nat_eq
second_key = refl

distinct_keys : ¬ ((◌≡◌ {A = Str} [] (str "n")) × (◌≡◌ {A = Str} [] []) × (str "a" ≡ str "b"))
distinct_keys d = cc (d.0)

write_atomic_example :
    ((stored [] [] (str "a") (write config [] [] (str "a") (9 ∷ []) process).1 ≡ some (9 ∷ []))
      ⊎ ((write config [] [] (str "a") (9 ∷ []) process).0 ≢ ok tt)
        × (stored [] [] (str "a") (write config [] [] (str "a") (9 ∷ []) process).1
            ≡ stored [] [] (str "a") process))
    × (stored (str "n") [] (str "b") (write config [] [] (str "a") (9 ∷ []) process).1
        ≡ stored (str "n") [] (str "b") process)
write_atomic_example =
    write_atomic config config-IsPlain [] [] (str "a") (9 ∷ []) process (str "n") [] (str "b")
      first_key second_key distinct_keys

write_a : (write config [] [] (str "a") (9 ∷ []) process).0 ≡ ok tt
unfolding write check_namespace_key_validity is_valid_kvstore_str nat_eq list_eq write_tmp commit
    dest_file_path get_dest_dir_path tmp_path on_world next_tmp with_lock clone_lock drop_lock
    collect garbage_collect_locks parent push components normals is_named leading_dot set_extension
    file_stem lookup insert erase modify retain create_dir_all create write_all sync_all rename
    open_read call show show_from split cons_head rsplit_once ◌>>=◌
write_a = refl

read-write_example :
    (read config [] [] (str "a") (calm (write config [] [] (str "a") (9 ∷ []) process).1)).0
    ≡ ok (9 ∷ [])
read-write_example =
    read-write config config-IsPlain [] [] (str "a") (9 ∷ []) process first_key write_a

remove_atomic_example :
    ((stored [] [] (str "a") (remove config [] [] (str "a") false process).1 ≡ none)
      ⊎ (((remove config [] [] (str "a") false process).0 ≢ ok tt)
          ⊎ (next_fails process.world ≡ true))
        × (stored [] [] (str "a") (remove config [] [] (str "a") false process).1
            ≡ stored [] [] (str "a") process))
    × (stored (str "n") [] (str "b") (remove config [] [] (str "a") false process).1
        ≡ stored (str "n") [] (str "b") process)
remove_atomic_example =
    remove_atomic config config-IsPlain [] [] (str "a") false process (str "n") [] (str "b")
      first_key second_key distinct_keys

-- A removal whose first call fails returns `Ok` and leaves the file.
abbrev unseen : Process
unseen = record process { world = record process.world { faults = some 0 ∷ [] } }

remove-unseen :
    ((remove config [] [] (str "inbound_payments") false unseen).0 ≡ ok tt)
    × (stored [] []
          (str "inbound_payments")
          (remove config [] [] (str "inbound_payments") false unseen).1
        ≡ some (1 ∷ []))
unfolding remove check_namespace_key_validity is_valid_kvstore_str is_file call on_world
    dest_file_path get_dest_dir_path push components normals is_named lookup nat_eq list_eq ◌>>=◌
remove-unseen = (refl, refl)

dest_file_path_injective_example :
    (◌≡◌ {A = Str} [] []) × (◌≡◌ {A = Str} [] []) × (str "a" ≡ str "a")
dest_file_path_injective_example =
    dest_file_path_injective config config-IsPlain (str "data" ∷ []) [] [] (str "a") [] [] (str "a")
      first_key first_key refl

check_exact_example :
    ((check_namespace_key_validity config [] [] (some (str "a.b")) ≡ ok tt)
      ↔ Wellformed config [] [] (str "a.b"))
    × (check_namespace_key_validity config [] [] (some (str "a.b")) ≢ ok tt
        → check_namespace_key_validity config [] [] (some (str "a.b"))
          ≡ (if config.debug then panic else err other))
check_exact_example = check_exact config [] [] (str "a.b")

refused_dot : check_namespace_key_validity config [] [] (some (str "a.b")) ≢ ok tt
unfolding check_namespace_key_validity is_valid_kvstore_str nat_eq
refused_dot e = cc

abbrev held_store : FilesystemStore
held_store = record store { locks = (str "data" ∷ [], 2) ∷ []; gc_counter = 25 }

held : count (str "data" ∷ []) held_store ≡ some 2
unfolding nat_eq list_eq lookup
held = refl

ready :
    IsWritable process.world.disk
      (get_dest_dir_path process.store.data_dir [] [])
      (dest_file_path process.store.data_dir [] [] (str "a"))
      (tmp_path
        (dest_file_path process.store.data_dir [] [] (str "a"))
        process.store.tmp_file_counter)
unfolding dest_file_path get_dest_dir_path tmp_path push components normals is_named leading_dot
    set_extension file_stem lookup show show_from split cons_head rsplit_once nat_eq list_eq
ready = record { reachable = (refl, tt); under_is = refl; dest_free = tt; tmp_free = tt }

write_completes_example :
    ((write config [] [] (str "a") (9 ∷ []) (calm process)).0 ≡ ok tt)
    × ((read config [] []
          (str "a")
          (calm (write config [] [] (str "a") (9 ∷ []) (calm process)).1)).0
        ≡ ok (9 ∷ []))
write_completes_example =
    write_completes config config-IsPlain [] [] (str "a") (9 ∷ []) process first_key ready

refused_changes_nothing_example :
    ((write config [] [] (str "a.b") (9 ∷ []) process).1 ≡ process)
    × ((write config [] [] (str "a.b") (9 ∷ []) process).0 ≢ ok tt)
    × ((read config [] [] (str "a.b") process).1 ≡ process)
    × ((remove config [] [] (str "a.b") true process).1 ≡ process)
    × ((remove config [] [] (str "a.b") true process).0 ≢ ok tt)
refused_changes_nothing_example =
    refused_changes_nothing config [] [] (str "a.b") (9 ∷ []) true process refused_dot
