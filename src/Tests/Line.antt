-- ===== src/Tests/Line.antt =====
-- A run of a line of input.
use programming_lightning_bu.Base.{
  ◌≡◌, refl, Str, str, none, some, [], ◌∷◌, ok, list_eq, nat_eq, option_eq,
}
use programming_lightning_bu.Base.Dict.{lookup, insert, erase, modify, retain}
use programming_lightning_bu.Exec
use programming_lightning_bu.FilePath.{
  parent, push, components, normals, is_named, leading_dot, set_extension, file_stem,
}
use programming_lightning_bu.Text.{show, show_from, split, cons_head, rsplit_once, words, trim}
use programming_lightning_bu.Fs.{
  sync_all, create_dir_all, create, write_all, rename, open_read, call,
}
use programming_lightning_bu.FilesystemStore.{
  write, write_tmp, commit, get_dest_dir_path, next_tmp, clone_lock, drop_lock, collect,
  check_namespace_key_validity, dest_file_path, tmp_path, is_valid_kvstore_str,
  garbage_collect_locks, with_lock, on_world,
}
use programming_lightning_bu.Node.{persist, persist_outbound, ask}
use programming_lightning_bu.Cli.Pay.{
  is_zero_amount, pay_params, record_failure, record_pending, send_payment,
}
use programming_lightning_bu.Node.Durable.{IsDurable}
use programming_lightning_bu.Cli.LineDurability.{poll_for_user_input-IsDurable}
use programming_lightning_bu.Cli.Commands.{
  Setup, next_command, poll_for_user_input, on_sendpayment, user_amount,
}
use programming_lightning_bu.Tests.Command.{router, parsers, invoice}
use programming_lightning_bu.Tests.Payment.{names, saved}
use programming_lightning_bu.Tests.{ldk, node}

abbrev pub setup : Setup
setup = record {
  ldk = ldk;
  router = router;
  parsers = parsers;
  ldk_data_dir = str "data" ∷ [];
  public_key = λ s. none;
  offer = λ s. none;
  invoice = λ s. some invoice;
  sha256 = λ b. b;
  random = λ calls. 9 ∷ [];
}

abbrev line : Str
line = str "sendpayment ln\n"

line_done : (poll_for_user_input setup 0 (some line) [] node).0 ≡ ok (next_command, [])
unfolding poll_for_user_input on_sendpayment user_amount words trim send_payment pay_params
    is_zero_amount record_pending record_failure ask persist_outbound persist write
    check_namespace_key_validity is_valid_kvstore_str nat_eq list_eq write_tmp commit dest_file_path
    get_dest_dir_path tmp_path on_world next_tmp with_lock clone_lock drop_lock collect
    garbage_collect_locks parent push components normals is_named leading_dot set_extension
    file_stem lookup insert erase modify retain create_dir_all create write_all sync_all rename
    open_read call show show_from split cons_head rsplit_once Exec.◌>>=◌
line_done = refl

poll_for_user_input-IsDurable_example :
    IsDurable ldk (poll_for_user_input setup 0 (some line) [] node).1
poll_for_user_input-IsDurable_example =
    poll_for_user_input-IsDurable setup names node 0 (some line) [] (next_command, []) saved
      line_done
