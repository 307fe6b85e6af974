-- ===== src/Tests/Running.antt =====
-- A run of the node: an event, leaving the command line, and the next start.
use programming_lightning_bu.Base.{
  ◌≡◌, refl, str, none, some, List, [], ◌∷◌, ok, list_eq, nat_eq, option_eq,
}
use programming_lightning_bu.Base.Dict.{lookup, insert, erase, modify, retain}
use programming_lightning_bu.Exec
use programming_lightning_bu.FilePath.{
  parent, push, components, normals, is_named, leading_dot, set_extension, file_stem,
}
use programming_lightning_bu.Text.{show, show_from, split, cons_head, rsplit_once, words, trim}
use programming_lightning_bu.Fs.{
  sync_all, create_dir_all, create, write_all, rename, open_read, call,
}
use programming_lightning_bu.FilesystemStore.{
  write, write_tmp, commit, get_dest_dir_path, next_tmp, clone_lock, drop_lock, collect,
  check_namespace_key_validity, dest_file_path, tmp_path, is_valid_kvstore_str,
  garbage_collect_locks, with_lock, on_world,
}
use programming_lightning_bu.Payments.{PaymentInfo, failed, mark_failed}
use programming_lightning_bu.Node.{persist, persist_outbound}
use programming_lightning_bu.Events.{payment_failed, handle_ldk_events, on_payment_failed}
use programming_lightning_bu.Cli.Commands.{poll_for_user_input}
use programming_lightning_bu.StartLdk.Prepare.{Saved}
use programming_lightning_bu.StartLdk.Running.{Activity, event, line, run}
use programming_lightning_bu.StartLdk.RunningLaws.{run-restart}
use programming_lightning_bu.StartLdk.RecordsLaws.{
  ReadsBack, Unhindered, Resumed, restarted, outbound_records_lost,
}
use programming_lightning_bu.Node.Durable.{outbound_file}
use programming_lightning_bu.StartLdk.Prepare.{read_records}
use programming_lightning_bu.Tests.Line.{setup}
use programming_lightning_bu.Tests.Payment.{names, saved, context, four}
use programming_lightning_bu.Tests.{ldk, node, payment}

abbrev activities : List Activity
activities = event context (payment_failed none four) ∷ line 0 (some (str "quit\n")) [] ∷ []

abbrev failed_payment : PaymentInfo
failed_payment = record payment { status = failed }

-- LDK's answers at the next start: it lists no payment.
abbrev files : Saved
files = record {
  sweeper_primary = [];
  sweeper_secondary = [];
  sweeper_key = str "output_sweeper";
  read_inbound = λ b. some [];
  read_outbound = λ b. some ((four, failed_payment) ∷ []);
  recent_payments = λ calls. [];
}

ended : (run setup activities node).0 ≡ ok tt
unfolding run poll_for_user_input words trim handle_ldk_events on_payment_failed mark_failed
    persist_outbound persist write check_namespace_key_validity is_valid_kvstore_str nat_eq list_eq
    write_tmp commit dest_file_path get_dest_dir_path tmp_path on_world next_tmp with_lock
    clone_lock drop_lock collect garbage_collect_locks parent push components normals is_named
    leading_dot set_extension file_stem lookup insert erase modify retain create_dir_all create
    write_all sync_all rename open_read call show show_from split cons_head rsplit_once Exec.◌>>=◌
ended = refl

read_back : ReadsBack ldk files (run setup activities node).1
unfolding run poll_for_user_input words trim handle_ldk_events on_payment_failed mark_failed
    persist_outbound persist write check_namespace_key_validity is_valid_kvstore_str nat_eq list_eq
    write_tmp commit dest_file_path get_dest_dir_path tmp_path on_world next_tmp with_lock
    clone_lock drop_lock collect garbage_collect_locks parent push components normals is_named
    leading_dot set_extension file_stem lookup insert erase modify retain create_dir_all create
    write_all sync_all rename open_read call show show_from split cons_head rsplit_once Exec.◌>>=◌
read_back = record { inbound_back = refl; outbound_back = refl }

unhindered : Unhindered (run setup activities node).1
unfolding run poll_for_user_input words trim handle_ldk_events on_payment_failed mark_failed
    persist_outbound persist write check_namespace_key_validity is_valid_kvstore_str nat_eq list_eq
    write_tmp commit dest_file_path get_dest_dir_path tmp_path on_world next_tmp with_lock
    clone_lock drop_lock collect garbage_collect_locks parent push components normals is_named
    leading_dot set_extension file_stem lookup insert erase modify retain create_dir_all create
    write_all sync_all rename open_read call show show_from split cons_head rsplit_once Exec.◌>>=◌
unhindered = record { reachable = (refl, tt); under_is = refl; dest_free = tt; tmp_free = tt }

run-restart_example : Resumed ldk files (run setup activities node).1 []
run-restart_example =
    run-restart setup names files activities node [] read_back saved ended unhindered

abbrev kept_files : Saved
kept_files = record files { read_outbound = λ b. some node.outbound }

free : Unhindered node
unfolding dest_file_path get_dest_dir_path tmp_path push components normals is_named leading_dot
    set_extension file_stem lookup show show_from split cons_head rsplit_once nat_eq list_eq
free = record { reachable = (refl, tt); under_is = refl; dest_free = tt; tmp_free = tt }

outbound_records_lost_example :
    ((read_records ldk kept_files (str "data" ∷ []) (restarted node [] (none ∷ some 0 ∷ []))).0
      ≡ ok tt)
    × (outbound_file
          (read_records ldk kept_files (str "data" ∷ []) (restarted node [] (none ∷ some 0 ∷ []))).1
        ≡ some (2 ∷ []))
outbound_records_lost_example =
    outbound_records_lost ldk names kept_files node
      (record { inbound_back = refl; outbound_back = refl }) saved [] 0 free
