-- ===== src/Tests/Start.antt =====
-- Runs of the parts of `start_ldk`, of the migration, and of the answers of bitcoind.
use programming_lightning_bu.Peers.{do_connect_peer}
use programming_lightning_bu.StartLdk.Tasks.{reconnect_peers, connect_recorded}
use programming_lightning_bu.StartLdk.TasksLaws.{Visited, reconnect_peers-Visited}
use programming_lightning_bu.Base.{
  contains, false, is_empty, if◌then◌else◌, ◌≡◌, refl, str, true, none, some, [], ◌∷◌, replicate,
  ok, panic, arith, list_eq, nat_eq, option_eq,
}
use programming_lightning_bu.Base.Dict.{Dict, lookup, insert}
use programming_lightning_bu.Exec.{◌>>=◌}
use programming_lightning_bu.FilePath.{
  push, components, normals, FilePath, push, components, normals,
}
use programming_lightning_bu.Fs.{World, dir, file, read_file, create, write_all, sync_all, call}
use programming_lightning_bu.Fs.Laws.{content}
use programming_lightning_bu.FilesystemStore.{tmp_path, tmp_path}
use programming_lightning_bu.Payments.{Bytes, Bytes}
use programming_lightning_bu.Node.{Ldk, tell, Node}
use programming_lightning_bu.StartLdk.Keys.{keys_seed_path, load_keys_seed, make_keys_seed}
use programming_lightning_bu.StartLdk.KeysLaws.{
  calm_again, load_again, load_keys_seed-unread, load_keys_seed-torn,
}
use programming_lightning_bu.StartLdk.Shutdown.{
  finished, join_error, background_processor, Manager, shutdown,
}
use programming_lightning_bu.Tests.{ldk, node}

abbrev data_dir : FilePath
data_dir = str "data" ∷ []

abbrev random : Bytes
random = replicate 32 5

abbrev new_node : World
new_node = record { disk = (data_dir, dir) ∷ []; faults = [] }

seed_made : (load_keys_seed data_dir random new_node).0 ≡ ok (some random)
unfolding load_keys_seed make_keys_seed read_file create write_all sync_all call lookup insert
    list_eq nat_eq ◌>>=◌
seed_made = refl

load_again_example :
    (load_keys_seed data_dir
      (replicate 32 6)
      (calm_again (load_keys_seed data_dir random new_node).1)).0
    ≡ ok (some random)
load_again_example = load_again data_dir random random (replicate 32 6) new_node refl seed_made

abbrev seeded : World
seeded = record {
  disk = (data_dir, dir) ∷ (keys_seed_path data_dir, file (replicate 32 9)) ∷ [];
  faults = some 0 ∷ [];
}

data_is_dir : lookup data_dir seeded.disk ≡ some dir
unfolding lookup list_eq nat_eq
data_is_dir = refl

seed_there : content (keys_seed_path data_dir) seeded ≡ some (replicate 32 9)
unfolding lookup list_eq nat_eq
seed_there = refl

load_keys_seed-unread_example :
    ((load_keys_seed data_dir random seeded).0 ≡ ok (some random))
    × (content (keys_seed_path data_dir) (load_keys_seed data_dir random seeded).1 ≡ some random)
load_keys_seed-unread_example =
    load_keys_seed-unread data_dir random (replicate 32 9) 0 seeded data_is_dir seed_there refl

abbrev torn : World
torn = record { disk = (data_dir, dir) ∷ []; faults = none ∷ none ∷ some 7 ∷ [] }

torn_is_dir : lookup data_dir torn.disk ≡ some dir
unfolding lookup list_eq nat_eq
torn_is_dir = refl

no_seed : lookup (keys_seed_path data_dir) torn.disk ≡ none
unfolding lookup list_eq nat_eq
no_seed = refl

load_keys_seed-torn_example :
    ((load_keys_seed data_dir random torn).0 ≡ panic)
    × ((load_keys_seed data_dir (replicate 32 6) (load_keys_seed data_dir random torn).1).0 ≡ panic)
load_keys_seed-torn_example =
    load_keys_seed-torn data_dir random 7 (replicate 32 6) torn torn_is_dir no_seed refl
      (omega arith)

abbrev manager : Manager
manager = record { primary = []; secondary = []; key = str "manager"; encode = λ calls. 3 ∷ [] }

abbrev stopped_node : Node
stopped_node =
    (shutdown ldk manager (background_processor join_error) true (finished (ok tt)) node).1

abbrev recorded : Dict Bytes Bytes
recorded = (8 ∷ [], 1 ∷ []) ∷ (7 ∷ [], 2 ∷ []) ∷ (9 ∷ [], 3 ∷ []) ∷ []

-- Behind the first call the peer [9] connects by itself.
abbrev lively : Ldk
lively = record ldk {
  peers = λ calls. if is_empty calls then (7 ∷ []) ∷ [] else (7 ∷ []) ∷ (9 ∷ []) ∷ [];
}

round_done :
    (reconnect_peers lively (λ calls. false) recorded ((7 ∷ []) ∷ (8 ∷ []) ∷ (9 ∷ []) ∷ []) node).0
    ≡ ok true
unfolding reconnect_peers connect_recorded do_connect_peer tell list_eq nat_eq ◌>>=◌
round_done = refl

is_listed : contains {A = Bytes} ((7 ∷ []) ∷ (8 ∷ []) ∷ (9 ∷ []) ∷ []) (8 ∷ []) ≡ true
unfolding list_eq nat_eq
is_listed = refl

reconnect_peers-Visited_example :
    Visited lively
      (λ calls. false)
      recorded
      (8 ∷ [])
      node
      (reconnect_peers lively
        (λ calls. false)
        recorded
        ((7 ∷ []) ∷ (8 ∷ []) ∷ (9 ∷ []) ∷ [])
        node).1
reconnect_peers-Visited_example =
    reconnect_peers-Visited lively (λ calls. false) recorded ((7 ∷ []) ∷ (8 ∷ []) ∷ (9 ∷ []) ∷ [])
      node (8 ∷ []) is_listed round_done
