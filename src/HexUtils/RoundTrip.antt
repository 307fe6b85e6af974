-- ===== src/HexUtils/RoundTrip.antt =====
-- `hex_str` and `to_vec` undo one another.
use programming_lightning_bu.Base.{
  ℕ, ◌+◌, ◌*◌, ◌/◌, ◌%◌, ◌<◌, ◌≡◌, refl, Str, ◌&&◌, some, List, [], ◌∷◌, leb, if◌then◌else◌, length,
  All, arith, Option-cases, inl, inr, sym, ◌∙◌, map, subst,
}
use programming_lightning_bu.HexUtils.{nibble, to_vec, hex_str, hex_digit}
use programming_lightning_bu.HexUtils.Decode.{decode, nibble-lt, to_vec-eq-decode}

abbrev pub IsByte : ℕ → Type 0
IsByte x = x < 256

nibble-hex_digit : (d : ℕ) → d < 16 → nibble (hex_digit d) ≡ some d
unfolding nibble hex_digit
nibble-hex_digit d h = ground arith

decode-hex_str : (v : List ℕ) → All IsByte v → decode (hex_str v) ≡ some v
unfolding hex_str
decode-hex_str [] h = refl
decode-hex_str (x ∷ v) h =
    let high = nibble-hex_digit (x / 16) (omega arith) in
    let low = nibble-hex_digit (x % 16) (omega arith) in
    let whole : 16 * (x / 16) + x % 16 ≡ x = omega arith in
    ground (arith, high, low, whole, decode-hex_str v h.1)

-- Decoding the hexadecimal text of any bytes gives the bytes back.
pub to_vec-hex_str : (v : List ℕ) → All IsByte v → to_vec (hex_str v) ≡ some v
to_vec-hex_str v h = to_vec-eq-decode (hex_str v) ∙ decode-hex_str v h

-- ASCII capitals as small letters.
abbrev pub to_lower : ℕ → ℕ
to_lower c = if leb b'A' c && leb c b'Z' then c + 32 else c

hex_digit-nibble : (c d : ℕ) → nibble c ≡ some d → hex_digit d ≡ to_lower c
unfolding nibble hex_digit
hex_digit-nibble c d h = ground arith

-- What `to_vec` returns: bytes, half as many as there are characters, whose text is the input in
-- small letters if the input has an even number of characters.
pub record IsDecoded (s : Str) (v : List ℕ) : Type 0 where
  pub bytes : All IsByte v
  pub half : length v ≡ length s / 2
  pub text : length s % 2 ≡ 0 → hex_str v ≡ map to_lower s

decode-IsDecoded_pair :
    (c d : ℕ) (s : Str) (h l : ℕ) (r : List ℕ)
    → nibble c ≡ some h
    → nibble d ≡ some l
    → IsDecoded s r
    → IsDecoded (c ∷ d ∷ s) ((16 * h + l) ∷ r)
unfolding hex_str
decode-IsDecoded_pair c d s h l r n m i =
    let p = nibble-lt c h n in
    let q = nibble-lt d l m in
    let high : (16 * h + l) / 16 ≡ h = omega arith in
    let low : (16 * h + l) % 16 ≡ l = omega arith in
    record {
      bytes = (omega arith, i.bytes);
      half = omega (arith, i.half);
      text = λ even.
          cc (high, low, hex_digit-nibble c h n, hex_digit-nibble d l m, i.text (omega arith));
    }

decode-IsDecoded : (s : Str) (v : List ℕ) → decode s ≡ some v → IsDecoded s v
unfolding hex_str
decode-IsDecoded [] v e =
    let p : [] ≡ v = cc in
    subst (IsDecoded []) p (record { bytes = tt; half = omega arith; text = λ _. refl })
decode-IsDecoded (c ∷ []) v e = elim (Option-cases (nibble c)) [
  | inl n ↦ absurd (ground (arith, n))
  | inr (h, n) ↦
      let p : [] ≡ v = ground (arith, n) in
      subst (IsDecoded (c ∷ [])) p
        (record { bytes = tt; half = omega arith; text = λ odd. absurd (omega arith) })
]
decode-IsDecoded (c ∷ d ∷ s) v e = elim (Option-cases (nibble c)) [
  | inl n ↦ absurd (ground (arith, n))
  | inr (h, n) ↦ elim (Option-cases (nibble d)) [
    | inl m ↦ absurd (ground (arith, n, m))
    | inr (l, m) ↦ elim (Option-cases (decode s)) [
      | inl k ↦ absurd (ground (arith, n, m, k))
      | inr (r, k) ↦
          let p : (16 * h + l) ∷ r ≡ v = ground (arith, n, m, k) in
          subst (IsDecoded (c ∷ d ∷ s)) p
            (decode-IsDecoded_pair c d s h l r n m (decode-IsDecoded s r k))
    ]
  ]
]

-- If `to_vec` returns bytes, they are half as many as the characters, rounded down, and their text is
-- the input in small letters if the number of characters is even.
pub to_vec-IsDecoded : (s : Str) (v : List ℕ) → to_vec s ≡ some v → IsDecoded s v
to_vec-IsDecoded s v e = decode-IsDecoded s v (sym (to_vec-eq-decode s) ∙ e)
