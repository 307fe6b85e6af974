-- ===== src/Cli/PeersFile.antt =====
-- The file of the peers beside the files of the records.
use programming_lightning_bu.Base.{
  ℕ, ◌≡◌, ◌≢◌, refl, sym, ap, ◌∙◌, Str, str, List, [], ◌∷◌, ◌++◌, arith, false, if◌then◌else◌,
  list_eq, nat_eq,
}
use programming_lightning_bu.Base.Dict.{lookup-insert}
use programming_lightning_bu.Exec.{bind_rule, pure}
use programming_lightning_bu.FilePath.{FilePath}
use programming_lightning_bu.Fs.{World, open_append, append_file}
use programming_lightning_bu.Fs.Laws.{content}
use programming_lightning_bu.FilesystemStore.{dest_file_path}
use programming_lightning_bu.FilesystemStore.Paths.{
  IsPlain, check-IsKey, dest_file_path-eq, namespace_dir,
}
use programming_lightning_bu.FilesystemStore.Distinct.{Accepted, last, last-append}
use programming_lightning_bu.FilesystemStore.Names.{Config}
use programming_lightning_bu.Disk.{persist_channel_peer}
use programming_lightning_bu.Node.{
  Ldk, Node, ask, create_channel, inbound_payments_fname, outbound_payments_fname,
}
use programming_lightning_bu.Node.Durable.{IsDurable, TakesNames}
use programming_lightning_bu.Cli.Channels.{remember_peer, open_to, open_channel, set_flags}
use programming_lightning_bu.Cli.Saves.{Saves, bind-Saves, if-Saves, Quiet-IsDurable, connect-Quiet}
use programming_lightning_bu.Peers.{connect_peer_if_necessary}
use programming_lightning_bu.Payments.{Bytes}

module _ (q p : FilePath) (ne : q ≢ p) where
  content-open_append :
      (under : FilePath) (w : World) → content q (open_append under p w).1 ≡ content q w
  unfolding open_append
  content-open_append under w = grind (arith, lookup-insert)

  content-append_file :
      (bytes : Str) (w : World) → content q (append_file p bytes w).1 ≡ content q w
  unfolding append_file
  content-append_file bytes w = grind (arith, lookup-insert)

  content-persist_channel_peer :
      (under : FilePath) (peer_info : Str) (w : World)
      → content q (persist_channel_peer under p peer_info w).1 ≡ content q w
  unfolding persist_channel_peer
  content-persist_channel_peer under peer_info w =
      bind_rule (λ (r, t). content q t ≡ content q w) (open_append under p)
        (λ _. append_file p (peer_info ++ str "\n")) w
        (λ a e.
          content-append_file (peer_info ++ str "\n") (open_append under p w).1
          ∙ content-open_append under w)
        (λ x e. content-open_append under w) (λ e. content-open_append under w)

peers_file_apart :
    (c : Config) (plain : IsPlain c) (d dir : FilePath) (name : Str)
    → Accepted c [] [] name
    → name ≢ str "channel_peer_data"
    → dest_file_path d [] [] name ≢ dir ++ str "channel_peer_data" ∷ []
peers_file_apart c plain d dir name valid ne e = ne (
    sym (last-append (namespace_dir d [] []) name)
    ∙ ap last (sym (dest_file_path-eq d [] [] name (check-IsKey c [] [] name plain valid)) ∙ e)
    ∙ last-append dir (str "channel_peer_data"))

first_letter : Str → ℕ
first_letter [] = 0
first_letter (c ∷ cs) = c

inbound_apart : inbound_payments_fname ≢ str "channel_peer_data"
unfolding first_letter
inbound_apart e = omega (arith, ap first_letter e)

outbound_apart : outbound_payments_fname ≢ str "channel_peer_data"
unfolding first_letter
outbound_apart e = omega (arith, ap first_letter e)

-- The line for a peer leaves both records saved.
pub remember_peer-IsDurable :
    (l : Ldk) (names : TakesNames l) (d : FilePath) (peer_info : Str) (n : Node)
    → IsDurable l n
    → IsDurable l (remember_peer l d peer_info n).1
unfolding remember_peer
remember_peer-IsDurable l names d peer_info n h =
    let peers = d ++ str "channel_peer_data" ∷ [] in
    let here = n.process.store.data_dir in
    let w = n.process.world in
    record {
      inbound_saved =
          content-persist_channel_peer (dest_file_path here [] [] inbound_payments_fname) peers
            (peers_file_apart l.config names.plain here d inbound_payments_fname names.inbound_name
              inbound_apart)
            d peer_info w
          ∙ h.inbound_saved;
      outbound_saved =
          content-persist_channel_peer (dest_file_path here [] [] outbound_payments_fname) peers
            (peers_file_apart l.config names.plain here d outbound_payments_fname
              names.outbound_name outbound_apart)
            d peer_info w
          ∙ h.outbound_saved;
      same_dir = h.same_dir;
    }

pub open_to-Saves :
    (l : Ldk) (names : TakesNames l) (d : FilePath) (peer_info : Str) (pubkey addr : Bytes)
    (amt : ℕ) (rest : List Str) (n : Node)
    → IsDurable l n
    → Saves l names n (open_to l d peer_info (pubkey, addr) amt rest)
unfolding open_to open_channel ask
open_to-Saves l names d peer_info pubkey addr amt rest n h =
    bind-Saves l names (connect_peer_if_necessary l pubkey addr) _ n (λ connected e.
      let t = (connect_peer_if_necessary l pubkey addr n).1 in
      let kept = Quiet-IsDurable l names n t (connect-Quiet l names pubkey addr n) h in
      let rest_flags = set_flags rest (false, false) in
      let channel = create_channel pubkey amt rest_flags.0 rest_flags.1 in
      let t' = record t { calls = t.calls ++ channel ∷ [] } in
      let kept' = Quiet-IsDurable l names t t' (t.calls ++ channel ∷ [], refl) kept in
      if-Saves l names connected _ (pure tt) t
        (bind-Saves l names (open_channel l pubkey amt rest_flags.0 rest_flags.1)
          (λ opened. if opened then remember_peer l d peer_info else pure tt) t
          (λ opened _.
            if-Saves l names opened (remember_peer l d peer_info) (pure tt) t'
              (λ b e. remember_peer-IsDurable l names d peer_info t' kept') (λ b e. kept')))
        (λ b e. kept))
