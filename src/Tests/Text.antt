-- ===== src/Tests/Text.antt =====
-- Runs of the hexadecimal codec.
use programming_lightning_bu.Exercises.Intro.{is_bip68_compatible}
use programming_lightning_bu.Base.{
  ◌≡◌, refl, str, none, some, [], ◌∷◌, arith, list_eq, nat_eq, ok, true, false,
}
use programming_lightning_bu.HexUtils.{to_vec, hex_str}
use programming_lightning_bu.HexUtils.RoundTrip.{IsDecoded, to_vec-hex_str, to_vec-IsDecoded}

odd : to_vec (str "0aFf7") ≡ some (10 ∷ 255 ∷ [])
unfolding to_vec
odd = refl

bad : to_vec (str "0g") ≡ none
unfolding to_vec
bad = refl

to_vec-hex_str_example : to_vec (hex_str (0 ∷ 171 ∷ 255 ∷ [])) ≡ some (0 ∷ 171 ∷ 255 ∷ [])
to_vec-hex_str_example =
    to_vec-hex_str (0 ∷ 171 ∷ 255 ∷ []) (omega arith, (omega arith, (omega arith, tt)))

to_vec-IsDecoded_example : IsDecoded (str "0aFf7") (10 ∷ 255 ∷ [])
to_vec-IsDecoded_example = to_vec-IsDecoded (str "0aFf7") (10 ∷ 255 ∷ []) odd

-- Versions 0 and 257, in eight digits from the lowest byte on: the first passes and the second does
-- not.
is_bip68_compatible-versions :
    (is_bip68_compatible (str "00000000") ≡ ok true)
    × (is_bip68_compatible (str "01010000") ≡ ok false)
unfolding is_bip68_compatible list_eq nat_eq
is_bip68_compatible-versions = (refl, refl)
