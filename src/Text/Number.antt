-- ===== src/Text/Number.antt =====
-- `str::parse` to an unsigned integer type, and `{}` of one.
use programming_lightning_bu.Base.{
  ℕ, zero, suc, ◌+◌, ◌-◌, ◌*◌, ◌/◌, ◌%◌, ◌≤◌, ◌≡◌, Str, ◌&&◌, Option, none, some, [], ◌∷◌, ltb, leb,
  eqb, if◌then◌else◌, arith,
}

-- The digits after a value: `none` on another character and on overflow of `max`.
unfoldable pub digits : ℕ → ℕ → Str → Option ℕ
digits max n [] = some n
digits max n (c ∷ s) =
    let rest = digits max (n * 10 + (c - 48)) s in
    if leb 48 c && leb c 57 && leb (n * 10 + (c - 48)) max then rest else none

-- A plus sign may stand in front of at least one digit.
unfoldable pub parse_uint : ℕ → Str → Option ℕ
unfolding digits
parse_uint max [] = none
parse_uint max (c ∷ []) = if eqb c b'+' then none else digits max 0 (c ∷ [])
parse_uint max (c ∷ d ∷ s) = if eqb c b'+' then digits max 0 (d ∷ s) else digits max 0 (c ∷ d ∷ s)

abbrev pub u16_max : ℕ
u16_max = 0xffff

abbrev pub u32_max : ℕ
u32_max = 0xffff_ffff

abbrev pub u64_max : ℕ
u64_max = 0xffff_ffff_ffff_ffff

pub digits-le : (max n : ℕ) (s : Str) (m : ℕ) → n ≤ max → digits max n s ≡ some m → m ≤ max
unfolding digits
digits-le max n [] m h e = ground arith
digits-le max n (c ∷ s) m h e = ground (arith, digits-le max (n * 10 + (c - 48)) s m)

-- A parsed number is in the range of its type.
pub parse_uint-le : (max : ℕ) (s : Str) (n : ℕ) → parse_uint max s ≡ some n → n ≤ max
unfolding parse_uint
parse_uint-le max (c ∷ []) n e = ground (arith, digits-le max 0 (c ∷ []) n)
parse_uint-le max (c ∷ d ∷ s) n e =
    ground (arith, digits-le max 0 (c ∷ d ∷ s) n, digits-le max 0 (d ∷ s) n)
parse_uint-le max s n e = cc

-- The decimal digits, on fuel.
unfoldable pub show_from : ℕ → ℕ → Str → Str
show_from zero n out = out
show_from (suc f) n out =
    let rest = show_from f (n / 10) ((48 + n % 10) ∷ out) in
    if ltb n 10 then (48 + n) ∷ out else rest

-- `n + 1` rounds are enough for the digits of `n`.
unfoldable pub show : ℕ → Str
unfolding show_from
show n = show_from (n + 1) n []
