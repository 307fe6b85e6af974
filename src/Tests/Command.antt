-- ===== src/Tests/Command.antt =====
-- Runs of the commands, of the arguments and of the file of the channel peers.
use programming_lightning_bu.Base.{
  ℕ, zero, suc, ◌≡◌, refl, Str, str, none, some, [], ◌∷◌, ◌++◌, arith, ok, panic, if◌then◌else◌,
  ◌==◌, list_eq, nat_eq, option_eq, All, replicate, filter,
}
use programming_lightning_bu.Base.Dict.{lookup, insert, erase, modify, retain}
use programming_lightning_bu.Exec
use programming_lightning_bu.FilePath.{
  parent, push, components, normals, is_named, leading_dot, set_extension, file_stem,
}
use programming_lightning_bu.Text.{show, show_from, split, cons_head, rsplit_once}
use programming_lightning_bu.Fs.{
  sync_all, create_dir_all, create, write_all, rename, open_read, call,
}
use programming_lightning_bu.FilesystemStore.{
  write, write_tmp, commit, get_dest_dir_path, next_tmp, clone_lock, drop_lock, collect,
  check_namespace_key_validity, dest_file_path, tmp_path, is_valid_kvstore_str,
  garbage_collect_locks, with_lock, on_world,
}
use programming_lightning_bu.HexUtils.{hex_str}
use programming_lightning_bu.HexUtils.RoundTrip.{IsByte}
use programming_lightning_bu.Payments.{Bytes}
use programming_lightning_bu.Node.{
  persist, persist_outbound, send_payment as send_payment_call, ask, send_spontaneous_payment,
}
use programming_lightning_bu.Cli.Pay.{
  Invoice, Router, is_zero_amount, pay_params, record_failure, record_pending, send_payment,
  keysend,
}
use programming_lightning_bu.Cli.PayLaws.{
  attempt, lookup-keysend, lookup-send_payment, send_payment_no_amount,
}
use programming_lightning_bu.Cli.PeerInfo.{parse_peer_info, parse_peer_info-format}
use programming_lightning_bu.Cli.Channels.{Parsers, on_openchannel}
use programming_lightning_bu.Cli.ChannelLaws.{is_flag, openchannel_ignores_others}
use programming_lightning_bu.Tests.{ldk, node, Lacks-all}

abbrev key : Bytes
key = replicate 33 2

key-IsByte : (n : ℕ) → All IsByte (replicate n 2)
key-IsByte zero = tt
key-IsByte (suc n) = (omega arith, key-IsByte n)

-- Every 33 bytes are a key, and every name has one address.
abbrev pub parsers : Parsers
parsers = record { from_slice = λ v. some v; to_socket_addrs = λ s. some (s ∷ []) }

abbrev address : Str
address = str "127.0.0.1:9735"

parse_peer_info_example :
    parse_peer_info parsers.from_slice parsers.to_socket_addrs (hex_str key ++ b'@' ∷ address)
    ≡ ok (key, address)
parse_peer_info_example =
    parse_peer_info-format parsers.from_slice parsers.to_socket_addrs key address key address []
      (key-IsByte 33) refl refl (Lacks-all b'@' address refl) refl

openchannel_example :
    on_openchannel ldk parsers (str "data" ∷ []) (str "k@a" ∷ str "10" ∷ str "--pubic" ∷ []) node
    ≡ on_openchannel ldk parsers
        (str "data" ∷ [])
        (str "k@a" ∷ str "10" ∷ filter is_flag (str "--pubic" ∷ []))
        node
openchannel_example =
    openchannel_ignores_others ldk parsers (str "data" ∷ []) (str "k@a") (str "10")
      (str "--pubic" ∷ []) node

abbrev pub invoice : Invoice
invoice = record { payment_hash = 5 ∷ []; payment_secret = 6 ∷ []; amount_milli_satoshis = some 10 }

abbrev open_invoice : Invoice
open_invoice = record {
  payment_hash = 5 ∷ [];
  payment_secret = 6 ∷ [];
  amount_milli_satoshis = none;
}

abbrev pub router : Router
router = record {
  from_invoice = λ i. some (1 ∷ []);
  from_zero_amount_invoice = λ i a. some (2 ∷ []);
  new_invoice = λ calls a t. none;
}

sent : (send_payment ldk router invoice none node).0 ≡ ok tt
unfolding send_payment pay_params is_zero_amount record_pending record_failure ask persist_outbound
    persist write check_namespace_key_validity is_valid_kvstore_str nat_eq list_eq write_tmp commit
    dest_file_path get_dest_dir_path tmp_path on_world next_tmp with_lock clone_lock drop_lock
    collect garbage_collect_locks parent push components normals is_named leading_dot set_extension
    file_stem lookup insert erase modify retain create_dir_all create write_all sync_all rename
    open_read call show show_from split cons_head rsplit_once Exec.◌>>=◌
sent = refl

routed : pay_params router invoice none ≡ some (1 ∷ [])
unfolding pay_params is_zero_amount
routed = refl

send_payment_example : lookup (5 ∷ []) (send_payment ldk router invoice none node).1.outbound ≡ (
    if invoice.payment_hash == (5 ∷ [])
    then some (
        attempt
          (ldk.accepts node.calls (send_payment_call invoice.payment_hash (1 ∷ [])))
          (some invoice.payment_secret)
          invoice.amount_milli_satoshis)
    else lookup (5 ∷ []) node.outbound)
send_payment_example =
    lookup-send_payment ldk router invoice none (1 ∷ []) (5 ∷ []) node routed sent

send_payment_no_amount_example : (send_payment ldk router open_invoice (some 7) node).0 ≡ panic
send_payment_no_amount_example =
    send_payment_no_amount ldk router open_invoice 7 (2 ∷ []) node refl refl refl

-- A hash that keeps its input.
abbrev digest : Bytes → Bytes
digest b = b

keysent : (keysend ldk digest (7 ∷ []) 5 (9 ∷ []) node).0 ≡ ok tt
unfolding keysend record_pending record_failure ask persist_outbound persist write
    check_namespace_key_validity is_valid_kvstore_str nat_eq list_eq write_tmp commit dest_file_path
    get_dest_dir_path tmp_path on_world next_tmp with_lock clone_lock drop_lock collect
    garbage_collect_locks parent push components normals is_named leading_dot set_extension
    file_stem lookup insert erase modify retain create_dir_all create write_all sync_all rename
    open_read call show show_from split cons_head rsplit_once Exec.◌>>=◌
keysent = refl

abbrev four : Bytes
four = 4 ∷ []

lookup-keysend_example :
    lookup (9 ∷ []) (keysend ldk digest (7 ∷ []) 5 (9 ∷ []) node).1.outbound ≡ (
      if digest (9 ∷ []) == (9 ∷ [])
      then some (
          attempt
            (ldk.accepts node.calls (send_spontaneous_payment (9 ∷ []) (7 ∷ []) 5))
            none
            (some 5))
      else lookup (9 ∷ []) node.outbound)
lookup-keysend_example = lookup-keysend ldk digest (7 ∷ []) 5 (9 ∷ []) (9 ∷ []) node keysent
