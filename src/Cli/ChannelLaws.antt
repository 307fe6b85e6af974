-- ===== src/Cli/ChannelLaws.antt =====
-- What the commands on channels do with their words.
use programming_lightning_bu.Base.{
  ℕ, ◌≡◌, refl, Str, str, Bool, false, ◌||◌, Option, none, some, List, [], ◌∷◌, ◌++◌, All, length,
  filter, arith, Outcome, ok, err, panic, list_eq, nat_eq, ◌==◌, Bool-cases, inl, inr,
}
use programming_lightning_bu.Exec.{pure, Exec, IoError}
use programming_lightning_bu.Text.{parse_uint, u64_max}
use programming_lightning_bu.Cli.PeerInfo.{parse_peer_info}
use programming_lightning_bu.FilePath.{FilePath}
use programming_lightning_bu.HexUtils.{hex_str}
use programming_lightning_bu.HexUtils.RoundTrip.{IsByte, to_vec-hex_str}
use programming_lightning_bu.Payments.{Bytes}
use programming_lightning_bu.Node.{
  Ldk, Node, close_channel as close_channel_call, force_close_channel as force_close_channel_call,
}
use programming_lightning_bu.Cli.Channels.{
  Parsers, set_flag, set_flags, parse_channel, on_closechannel, on_forceclosechannel,
  on_openchannel, open_to, close_channel, force_close_channel,
}

-- The six spellings of a flag.
abbrev pub is_flag : Str → Bool
is_flag word =
    word == str "--public"
    || word == str "--public=true"
    || word == str "--public=false"
    || word == str "--with-anchors"
    || word == str "--with-anchors=true"
    || word == str "--with-anchors=false"

set_flag-other : (word : Str) (f : Bool × Bool) → is_flag word ≡ false → set_flag word f ≡ f
unfolding set_flag
set_flag-other word (a, b) h = ground (arith, h)

set_flags-filter :
    (words : List Str) (f : Bool × Bool) → set_flags words f ≡ set_flags (filter is_flag words) f
unfolding set_flags
set_flags-filter [] f = refl
set_flags-filter (w ∷ words) f = elim (Bool-cases (is_flag w)) [
  | inl e ↦ ground (arith, e, set_flags-filter words (set_flag w f))
  | inr e ↦ ground (arith, e, set_flag-other w f e, set_flags-filter words f)
]

parse_channel-hex_str :
    (p : Parsers) (id v key : Bytes) (rest : List Str)
    → All IsByte id
    → length id ≡ 32
    → All IsByte v
    → p.from_slice v ≡ some key
    → parse_channel p (hex_str id ∷ hex_str v ∷ rest) ≡ some (id, key)
unfolding parse_channel
parse_channel-hex_str p id v key rest hid len hv good =
    ground (arith, to_vec-hex_str id hid, to_vec-hex_str v hv, len, good)

module _ (l : Ldk) where
  open_to-filter :
      (ldk_data_dir : FilePath) (peer_info : Str) (info : Bytes × Bytes) (amt : ℕ) (rest : List Str)
      (n : Node)
      → open_to l ldk_data_dir peer_info info amt rest n
        ≡ open_to l ldk_data_dir peer_info info amt (filter is_flag rest) n
  unfolding open_to
  open_to-filter dir peer (key, addr) amt rest n = rw (set_flags-filter rest (false, false)) refl

  -- A word that is no flag does not stop `openchannel`: it does what it does without the word.
  pub openchannel_ignores_others :
      (p : Parsers) (ldk_data_dir : FilePath) (peer_info channel_value_sat : Str) (rest : List Str)
      (n : Node)
      → on_openchannel l p ldk_data_dir (peer_info ∷ channel_value_sat ∷ rest) n
        ≡ on_openchannel l p ldk_data_dir (peer_info ∷ channel_value_sat ∷ filter is_flag rest) n
  unfolding on_openchannel
  openchannel_ignores_others p dir peer value rest n =
      go (parse_peer_info p.from_slice p.to_socket_addrs peer) (parse_uint u64_max value)
    where
      go :
          (r : Outcome IoError (Bytes × Bytes)) (o : Option ℕ)
          → (elim r as (λ _. Exec Node (Unit {0})) [
            | ok info ↦ elim o [ some amt ↦ open_to l dir peer info amt rest | none ↦ pure tt ]
            | err e ↦ pure tt
            | panic ↦ λ n. (panic, n)
          ])
              n
            ≡ (elim r as (λ _. Exec Node (Unit {0})) [
              | ok info ↦ elim o [
                | some amt ↦ open_to l dir peer info amt (filter is_flag rest)
                | none ↦ pure tt
              ]
              | err e ↦ pure tt
              | panic ↦ λ n. (panic, n)
            ])
                n
      go (ok info) (some amt) = open_to-filter dir peer info amt rest n
      go (ok info) none = refl
      go (err e) o = refl
      go panic o = refl

  -- With the texts of a 32-byte id and of a peer's key, `closechannel` and `forceclosechannel` make
  -- the call of LDK with that id and that peer, once, and change nothing else.
  closechannel-hex_str :
      (p : Parsers) (id v key : Bytes) (rest : List Str) (n : Node)
      → All IsByte id
      → length id ≡ 32
      → All IsByte v
      → p.from_slice v ≡ some key
      → (on_closechannel l p (hex_str id ∷ hex_str v ∷ rest) n
          ≡ (ok tt, record n { calls = n.calls ++ close_channel_call id key ∷ [] }))
        × (on_forceclosechannel l p (hex_str id ∷ hex_str v ∷ rest) n
            ≡ (ok tt, record n { calls = n.calls ++ force_close_channel_call id key ∷ [] }))
  unfolding on_closechannel on_forceclosechannel close_channel force_close_channel
  closechannel-hex_str p id v key rest n hid len hv good =
      let e = parse_channel-hex_str p id v key rest hid len hv good in
      (ground (arith, e), ground (arith, e))
