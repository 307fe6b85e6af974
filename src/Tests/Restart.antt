-- ===== src/Tests/Restart.antt =====
-- Starts of a node that has a channel monitor, with and without the file of its channel manager.
use programming_lightning_bu.StartLdk.Boot.{Surroundings, boot, boot_with, connected, ready}
use programming_lightning_bu.StartLdk.BootLaws.{boot-IsSafe, IsSafe}
use programming_lightning_bu.StartLdk.{is_expected_chain}
use programming_lightning_bu.StartLdk.Keys.{load_keys_seed, make_keys_seed}
use programming_lightning_bu.Logger
use programming_lightning_bu.Fs.{create_dir_all, create, write_all, sync_all}
use programming_lightning_bu.Base.{replicate, true}
use programming_lightning_bu.Tests.Startup.{info}
use programming_lightning_bu.Base.{
  ℕ, ◌≡◌, refl, str, none, some, [], ◌∷◌, ok, err, list_eq, nat_eq, List,
}
use programming_lightning_bu.Base.Dict.{lookup, insert, erase, modify, retain}
use programming_lightning_bu.Exec.{pure, not_found, ◌>>=◌}
use programming_lightning_bu.FilePath.{FilePath, push, components, normals, leading_dot}
use programming_lightning_bu.Text.{split, cons_head}
use programming_lightning_bu.Fs.{dir, file, open_read, read_file, call}
use programming_lightning_bu.FilesystemStore.{
  read, get_dest_dir_path, clone_lock, drop_lock, collect, check_namespace_key_validity,
  dest_file_path, is_valid_kvstore_str, garbage_collect_locks, with_lock, on_world,
}
use programming_lightning_bu.FilesystemStore.Locks
use programming_lightning_bu.Payments.{Bytes}
use programming_lightning_bu.Node.{Node, ask, tell}
use programming_lightning_bu.StartLdk.{output_sweeper}
use programming_lightning_bu.StartLdk.Chain.{
  Chain, load_channel_manager, chain_listeners, sync_to_tip, watch_monitors,
}
use programming_lightning_bu.StartLdk.Prepare.{Saved, new_node, catch_up, from_tip, restore}
use programming_lightning_bu.StartLdk.ChainLaws.{manager_bytes}
use programming_lightning_bu.StartLdk.RestoreLaws.{restore-fresh, restore-restart, CaughtUp}
use programming_lightning_bu.Tests.{ldk}

-- A monitor is its funding transaction; one is saved, at block 3.
abbrev chain : Chain ℕ ℕ
chain = record {
  funding_txo = λ m. m ∷ [];
  read_monitors = pure ((3 ∷ [], 8) ∷ []);
  best_block = ok (9 ∷ []);
  polled_chain_tip = ok (9 ∷ []);
  read_manager = λ b ms. some (b, ms);
  current_best_block = λ calls. 9 ∷ [];
  read_sweeper = λ b. none;
  sweeper_block = λ s. s ∷ [];
  synchronize = λ calls ls. some (9 ∷ []);
}

abbrev saved : Saved
saved = record {
  sweeper_primary = [];
  sweeper_secondary = [];
  sweeper_key = str "output_sweeper";
  read_inbound = λ b. some [];
  read_outbound = λ b. some [];
  recent_payments = λ calls. [];
}

abbrev data_dir : FilePath
data_dir = str "data" ∷ []

abbrev no_manager : Node
no_manager = new_node data_dir (record { disk = (data_dir, dir) ∷ []; faults = [] })

abbrev with_manager : Node
with_manager = new_node data_dir (record {
  disk = (data_dir, dir) ∷ (str "data" ∷ str "manager" ∷ [], file (5 ∷ [])) ∷ [];
  faults = [];
})

started : (restore ldk chain saved data_dir no_manager).0 ≡ ok tt
unfolding restore from_tip load_channel_manager catch_up read output_sweeper sync_to_tip
    watch_monitors chain_listeners open_read read_file call ask tell push components normals
    leading_dot split cons_head get_dest_dir_path clone_lock drop_lock collect
    check_namespace_key_validity dest_file_path is_valid_kvstore_str garbage_collect_locks with_lock
    on_world Locks.new lookup insert erase modify retain list_eq nat_eq ◌>>=◌
started = refl

restarted : (restore ldk chain saved data_dir with_manager).0 ≡ ok tt
unfolding restore from_tip load_channel_manager catch_up read output_sweeper sync_to_tip
    watch_monitors chain_listeners open_read read_file call ask tell push components normals
    leading_dot split cons_head get_dest_dir_path clone_lock drop_lock collect
    check_namespace_key_validity dest_file_path is_valid_kvstore_str garbage_collect_locks with_lock
    on_world Locks.new lookup insert erase modify retain list_eq nat_eq ◌>>=◌
restarted = refl

cannot_open :
    (open_read (str "data" ∷ str "manager" ∷ []) no_manager.process.world).0 ≡ err not_found
unfolding open_read call lookup list_eq nat_eq
cannot_open = refl

can_open : (open_read (str "data" ∷ str "manager" ∷ []) with_manager.process.world).0 ≡ ok tt
unfolding open_read call lookup list_eq nat_eq
can_open = refl

restore-fresh_example : (restore ldk chain saved data_dir no_manager).1.calls ≡ []
restore-fresh_example =
    restore-fresh ldk chain saved data_dir no_manager ((3 ∷ [], 8) ∷ []) refl cannot_open started

restore-restart_example :
    (content : Bytes) × (h : Bytes) × (monitors : List (Bytes × ℕ)) × (behind : Node)
    × (manager_bytes chain data_dir with_manager.process.world ≡ ok content)
    × (chain.read_manager content ((3 ∷ [], 8) ∷ []) ≡ some (h, monitors))
    × (behind.calls ≡ [])
    × CaughtUp ldk chain saved h monitors behind
        (restore ldk chain saved data_dir with_manager).1.calls
restore-restart_example =
    restore-restart ldk chain saved data_dir with_manager ((3 ∷ [], 8) ∷ []) refl can_open restarted

abbrev surroundings : Surroundings
surroundings = record {
  args = some info;
  client_connects = true;
  bitcoind_chain = ok (str "test");
  random = replicate 32 7;
}

booted :
    (boot surroundings (record { disk = []; faults = [] })).0
    ≡ ok (ready (push [] (str "data/.ldk")) info (replicate 32 7))
unfolding boot boot_with connected is_expected_chain load_keys_seed make_keys_seed create_dir_all
    Logger.new create write_all sync_all read_file call push components normals leading_dot split
    cons_head lookup insert list_eq nat_eq ◌>>=◌
booted = refl

boot-IsSafe_example :
    IsSafe surroundings
      (record { disk = []; faults = [] })
      (ready (push [] (str "data/.ldk")) info (replicate 32 7))
      (boot surroundings (record { disk = []; faults = [] })).1
boot-IsSafe_example =
    boot-IsSafe surroundings (ready (push [] (str "data/.ldk")) info (replicate 32 7))
      (record { disk = []; faults = [] }) refl booted
