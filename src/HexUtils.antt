-- ===== src/HexUtils.antt =====
-- src/hex_utils.rs: bytes as hexadecimal text and back, and a compressed public key from such text.
-- `bitcoin::secp256k1::PublicKey::from_slice` is the parameter `from_slice`.
pub mod Decode
pub mod RoundTrip
pub mod Pubkey
use Prim.Native.Nat.{bit_or}
use programming_lightning_bu.Base.{
  ℕ, ◌+◌, ◌-◌, ◌*◌, ◌/◌, ◌%◌, Str, Bool, ◌&&◌, Option, none, some, List, [], ◌∷◌, ◌++◌, leb, ltb,
  eqb, if◌then◌else◌, length, not,
}

-- What one character adds to the byte; `none` is the early return.
unfoldable pub nibble : ℕ → Option ℕ
nibble c =
    if leb b'A' c && leb c b'F'
    then some (c - b'A' + 10)
    else if leb b'a' c && leb c b'f'
    then some (c - b'a' + 10)
    else if leb b'0' c && leb c b'9'
    then some (c - b'0')
    else none

-- The loop: the position, the byte in the making and the output so far. `idx & 1` is `idx % 2`.
to_vec_loop : ℕ → ℕ → List ℕ → Str → Option (List ℕ)
unfolding nibble
to_vec_loop idx b out [] = some out
to_vec_loop idx b out (c ∷ s) = elim (nibble c) [
  | none ↦ none
  | some d ↦
      let b' = bit_or (b * 16 % 256) d in
      let odd = eqb (idx % 2) 1 in
      to_vec_loop (idx + 1) (if odd then 0 else b') (if odd then out ++ b' ∷ [] else out) s
]

unfoldable pub to_vec : Str → Option (List ℕ)
unfolding to_vec_loop
to_vec hex = to_vec_loop 0 0 [] hex

-- A digit of `{:02x}`
unfoldable pub hex_digit : ℕ → ℕ
hex_digit d = if ltb d 10 then b'0' + d else b'a' + (d - 10)

unfoldable pub hex_str : List ℕ → Str
unfolding hex_digit
hex_str [] = []
hex_str (v ∷ value) = hex_digit (v / 16) ∷ hex_digit (v % 16) ∷ hex_str value

module _ {PublicKey : Type 0} (from_slice : List ℕ → Option PublicKey) where
  unfoldable pub to_compressed_pubkey : Str → Option PublicKey
  to_compressed_pubkey hex =
      if not (eqb (length hex) (33 * 2))
      then none
      else elim (to_vec hex) [ some bytes ↦ from_slice bytes | none ↦ none ]
