-- ===== src/Cli/PeerInfo.antt =====
-- `parse_peer_info` of src/cli.rs. `PublicKey::from_slice` and `to_socket_addrs`, which asks the
-- resolver, are parameters; `none` of the latter is an error.
use programming_lightning_bu.Base.{
  ℕ, ◌≡◌, Str, Option, none, some, List, [], ◌∷◌, ◌++◌, All, length, Outcome, ok, ok_or, arith,
  ◌>>=◌,
}
use programming_lightning_bu.Exec.{IoError, other}
use programming_lightning_bu.HexUtils.{hex_str, to_compressed_pubkey, hex_digit}
use programming_lightning_bu.HexUtils.RoundTrip.{IsByte}
use programming_lightning_bu.HexUtils.Pubkey.{to_compressed_pubkey-hex_str}
use programming_lightning_bu.Text.{split}
use programming_lightning_bu.Text.SplitLaws.{Lacks, split-append, split-eq_singleton}
use programming_lightning_bu.Payments.{Bytes}

-- `map(|mut r| r.next())`, and the test for an error or no address.
abbrev first_address : Option (List Bytes) → Option Bytes
first_address (some (a ∷ rest)) = some a
first_address (some []) = none
first_address none = none

-- What follows the second part is not looked at.
abbrev first_two : List Str → Option (Str × Str)
first_two (a ∷ b ∷ rest) = some (a, b)
first_two (a ∷ []) = none
first_two [] = none

module _ (from_slice : Bytes → Option Bytes) (to_socket_addrs : Str → Option (List Bytes)) where
  unfoldable pub parse_peer_info : Str → Outcome IoError (Bytes × Bytes)
  parse_peer_info info = do
    (pubkey, peer_addr_str) ← ok_or (first_two (split b'@' info)) other
    peer_addr ← ok_or (first_address (to_socket_addrs peer_addr_str)) other
    key ← ok_or (to_compressed_pubkey from_slice pubkey) other
    ok (key, peer_addr)

  Lacks-hex_str : (v : List ℕ) → All IsByte v → Lacks b'@' (hex_str v)
  unfolding hex_str hex_digit
  Lacks-hex_str [] h = tt
  Lacks-hex_str (x ∷ v) h = (ground arith, (ground arith, Lacks-hex_str v h.1))

  -- The text of a key's 33 bytes, an at sign and an address that resolves is read as the key and the
  -- first address, if the key's bytes are a key.
  pub parse_peer_info-format :
      (v : List ℕ) (addr : Str) (key a : Bytes) (more : List Bytes)
      → All IsByte v
      → length v ≡ 33
      → from_slice v ≡ some key
      → Lacks b'@' addr
      → to_socket_addrs addr ≡ some (a ∷ more)
      → parse_peer_info (hex_str v ++ b'@' ∷ addr) ≡ ok (key, a)
  unfolding parse_peer_info
  parse_peer_info-format v addr key a more bytes long good lacks resolved = ground (
    arith,
    split-append b'@' (hex_str v) addr (Lacks-hex_str v bytes),
    split-eq_singleton b'@' addr lacks,
    to_compressed_pubkey-hex_str from_slice v bytes long,
  )
