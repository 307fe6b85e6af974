-- ===== src/Tests/Threads.antt =====
-- Runs of many requests and of many threads.
use programming_lightning_bu.Base.{
  ℕ, ◌≡◌, refl, str, false, none, some, List, [], ◌∷◌, arith, list_eq, nat_eq, nat_eq, list_eq,
}
use programming_lightning_bu.Base.Dict.{lookup, insert, erase}
use programming_lightning_bu.FileStore.{FileStore, new}
use programming_lightning_bu.FilePath.{
  parent, push, components, normals, is_named, leading_dot, set_extension, file_stem,
}
use programming_lightning_bu.Text.{show, show_from, split, cons_head, rsplit_once}
use programming_lightning_bu.Exec.{◌>>=◌}
use programming_lightning_bu.Fs.{
  sync_all, create_dir_all, create, write_all, rename, open_read, call,
}
use programming_lightning_bu.FilesystemStore.{
  Process, check_namespace_key_validity, is_valid_kvstore_str, dest_file_path, get_dest_dir_path,
  tmp_path,
}
use programming_lightning_bu.FilesystemStore.Requests.{Request, put, delete, get, serve_all, Replay}
use programming_lightning_bu.FilesystemStore.Refinement.{Represents, AllAccepted, serve_all-Replay}
use programming_lightning_bu.FilesystemStore.Threads.{
  starting, failed, Writer, System, run, advance, advance_from,
}
use programming_lightning_bu.FilesystemStore.Interleaved.{AreFresh, run-Settled}
use programming_lightning_bu.FilesystemStore.Interleaved.Invariant.{Settled}
use programming_lightning_bu.Tests.{config, config-IsPlain, store, world}

abbrev fresh_process : Process
fresh_process = record {
  store = store;
  world = record { disk = []; faults = none ∷ none ∷ none ∷ some 1 ∷ [] };
}

abbrev requests : List Request
requests =
    put ([], ([], str "a")) (9 ∷ 8 ∷ [])
    ∷ put ([], ([], str "a")) (7 ∷ [])
    ∷ get ([], ([], str "a"))
    ∷ delete ([], ([], str "a")) false
    ∷ get ([], ([], str "a"))
    ∷ []

requests-AllAccepted : AllAccepted config requests
unfolding check_namespace_key_validity is_valid_kvstore_str nat_eq
requests-AllAccepted = (refl, (refl, (refl, (refl, (refl, tt)))))

empty-Represents : Represents config fresh_process new
unfolding lookup
empty-Represents = record { same = λ k valid. refl }

serve_all-Replay_example :
    (end : FileStore) × Replay requests (serve_all config requests fresh_process).0 new end
    × Represents config (serve_all config requests fresh_process).1 end
serve_all-Replay_example =
    serve_all-Replay config requests fresh_process new config-IsPlain requests-AllAccepted
      empty-Represents

-- All threads write one key through one store.
abbrev writers : ℕ → Writer
writers i = record {
  primary = [];
  secondary = [];
  key = str "outbound_payments";
  buf = i ∷ [];
  store = 0;
}

abbrev system : System
system = record { world = world; counters = λ x. 0; holders = []; stages = λ i. starting }

writers-AreFresh : AreFresh config config-IsPlain (str "data" ∷ []) writers system
unfolding check_namespace_key_validity is_valid_kvstore_str nat_eq
writers-AreFresh = record { accepted = λ i. refl; one_store = λ i j e. refl; not_begun = λ i. refl }

abbrev schedule : List ℕ
schedule = 0 ∷ 1 ∷ 0 ∷ 1 ∷ 0 ∷ 1 ∷ 0 ∷ 1 ∷ 0 ∷ 1 ∷ 0 ∷ 0 ∷ 1 ∷ 0 ∷ 0 ∷ 1 ∷ 1 ∷ []

run-Settled_example :
    Settled
      (str "data" ∷ [])
      writers
      world
      (run (str "data" ∷ []) writers schedule system)
      (dest_file_path (str "data" ∷ []) [] [] (str "outbound_payments"))
run-Settled_example =
    run-Settled config config-IsPlain (str "data" ∷ []) writers system writers-AreFresh schedule []
      [] (str "outbound_payments") (λ x. omega arith) (writers-AreFresh.accepted 0)

-- With a store for each of two threads, both take the first number. The second renaming finds no
-- temporary file.
abbrev two_stores : ℕ → Writer
two_stores i = record (writers i) { store = i }

race_of_two_stores :
    (run
        (str "data" ∷ [])
        two_stores
        (0 ∷ 0 ∷ 0 ∷ 0 ∷ 0 ∷ 1 ∷ 1 ∷ 1 ∷ 1 ∷ 1 ∷ 0 ∷ 0 ∷ 1 ∷ 1 ∷ [])
        system).stages
      1
    ≡ failed
unfolding run advance advance_from nat_eq list_eq dest_file_path get_dest_dir_path tmp_path parent
    push components normals is_named leading_dot set_extension file_stem lookup insert erase
    create_dir_all create write_all sync_all rename open_read call show show_from split cons_head
    rsplit_once ◌>>=◌
race_of_two_stores = refl
