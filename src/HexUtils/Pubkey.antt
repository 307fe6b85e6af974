-- ===== src/HexUtils/Pubkey.antt =====
-- `to_compressed_pubkey`: 66 hexadecimal characters, and nothing else, reach the key parser.
use programming_lightning_bu.Base.{
  ℕ, ◌≡◌, refl, Str, Option, some, List, length, All, arith, ◌*◌, Option-cases, inl, inr, [], ◌∷◌,
}
use programming_lightning_bu.HexUtils.{to_vec, hex_str, to_compressed_pubkey}
use programming_lightning_bu.HexUtils.RoundTrip.{IsByte, to_vec-hex_str, to_vec-IsDecoded}

length-hex_str : (v : List ℕ) → length (hex_str v) ≡ 2 * length v
unfolding hex_str
length-hex_str [] = refl
length-hex_str (x ∷ v) = omega (arith, length-hex_str v)

module _ {PublicKey : Type 0} (from_slice : List ℕ → Option PublicKey) where
  -- The text of 33 bytes is parsed as those bytes.
  pub to_compressed_pubkey-hex_str :
      (v : List ℕ)
      → All IsByte v
      → length v ≡ 33
      → to_compressed_pubkey from_slice (hex_str v) ≡ from_slice v
  unfolding to_compressed_pubkey
  to_compressed_pubkey-hex_str v h n = ground (arith, length-hex_str v, to_vec-hex_str v h)

  -- A key that is returned was parsed from 33 bytes, the text's decoding.
  to_compressed_pubkey-inv :
      (s : Str) (k : PublicKey)
      → to_compressed_pubkey from_slice s ≡ some k
      → (v : List ℕ) × (to_vec s ≡ some v) × (length v ≡ 33) × (from_slice v ≡ some k)
  unfolding to_compressed_pubkey
  to_compressed_pubkey-inv s k e = elim (Option-cases (to_vec s)) [
    | inl n ↦ absurd (ground (arith, n))
    | inr (v, n) ↦
        let d : length s ≡ 66 = ground arith in
        (v, n, ground (arith, (to_vec-IsDecoded s v n).half), ground (arith, n))
  ]
