-- ===== src/Disk.antt =====
-- src/disk.rs. A path comes with the directory it is in. The readers of the records, which a macro
-- of LDK derives, are parameters, and so is `str::from_utf8`.
pub mod Lines
pub mod Laws
use programming_lightning_bu.Base.{
  ℕ, ◌≡◌, Str, str, Bool, true, false, Option, none, some, List, [], ◌∷◌, ◌++◌, Outcome, ok, err,
  panic, unwrap, if◌then◌else◌, list_eq, nat_eq, not,
}
use programming_lightning_bu.Base.Dict.{Dict, insert}
use programming_lightning_bu.Exec.{IoError, device, Exec, pure, lift, ◌>>=◌, ◌>>◌}
use programming_lightning_bu.FilePath.{FilePath}
use programming_lightning_bu.Fs.{World, Io, exists, read_file, open_read, open_append, append_file}
use programming_lightning_bu.Text.{lines}
use programming_lightning_bu.Payments.{Bytes, Payments}
use programming_lightning_bu.Disk.Lines.{collect_peers}

unfoldable pub persist_channel_peer : FilePath → FilePath → Str → Io (Unit {0})
unfolding open_append append_file ◌>>=◌
persist_channel_peer under path peer_info = do
  open_append under path
  append_file path (peer_info ++ str "\n")

-- A failed read of a `BufReader` behind an opened file is an `Err` line, which is unwrapped.
abbrev unwrapped : {A : Type 0} → Outcome IoError A × World → Outcome IoError A × World
unwrapped (ok a, w) = (ok a, w)
unwrapped (err e, w) = (panic, w)
unwrapped (panic, w) = (panic, w)

module _ (from_utf8 : Bytes → Option Str) (from_slice : Bytes → Option Bytes)
    (to_socket_addrs : Str → Option (List Bytes)) where
  unfoldable pub read_channel_peer_data : FilePath → Io (Dict Bytes Bytes)
  unfolding exists open_read read_file collect_peers lines ◌>>=◌
  read_channel_peer_data path = do
    is_there ← exists path
    if not is_there then pure [] else do
      open_read path
      content ← λ w. unwrapped (read_file path w)
      lift (collect_peers from_utf8 from_slice to_socket_addrs (lines content) [])

-- `read_inbound_payment_info` and `read_outbound_payment_info`: what cannot be read is empty.
unfoldable pub read_payment_info : (Bytes → Option Payments) → FilePath → World → Payments
unfolding read_file
read_payment_info read path w = elim (read_file path w).0 [
  | ok content ↦ elim (read content) [ some info ↦ info | none ↦ [] ]
  | err e ↦ []
  | panic ↦ []
]

-- `read_network` and `read_scorer`: what cannot be read is made anew.
unfoldable pub read_or_new : {A : Type 0} → (Bytes → Option A) → A → FilePath → World → A
unfolding read_file
read_or_new read fresh path w = elim (read_file path w).0 [
  | ok content ↦ elim (read content) [ some a ↦ a | none ↦ fresh ]
  | err e ↦ fresh
  | panic ↦ fresh
]
