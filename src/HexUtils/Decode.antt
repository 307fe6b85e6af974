-- ===== src/HexUtils/Decode.antt =====
-- `to_vec` against a reading of two characters at a time.
use Prim.Native.Nat.{bit_or}
use mathlib.Core.List.{append_assoc, append-nil}
use programming_lightning_bu.Base.{
  ℕ, zero, suc, ◌+◌, ◌*◌, ◌/◌, ◌%◌, ◌<◌, ◌≡◌, refl, Str, Bool, true, ◌&&◌, Option, none, some, List,
  [], ◌∷◌, ◌++◌, eqb, eqb_iff, arith, Option-cases, inl, inr, sym, ap, ◌∙◌,
}
use programming_lightning_bu.HexUtils.{nibble, to_vec_loop, to_vec}

-- Two digits make a byte; a last single digit is checked and dropped.
abbrev pub decode : Str → Option (List ℕ)
decode [] = some []
decode (c ∷ []) = elim (nibble c) [ none ↦ none | some h ↦ some [] ]
decode (c ∷ d ∷ s) = elim (nibble c) [
  | none ↦ none
  | some h ↦ elim (nibble d) [
    | none ↦ none
    | some l ↦ elim (decode s) [ none ↦ none | some r ↦ some ((16 * h + l) ∷ r) ]
  ]
]

pub nibble-lt : (c d : ℕ) → nibble c ≡ some d → d < 16
unfolding nibble
nibble-lt c d h = ground arith

holds_under : (ℕ → Bool) → ℕ → Bool
holds_under test zero = true
holds_under test (suc bound) = holds_under test bound && test bound

holds_under_lem :
    (test : ℕ → Bool) (bound d : ℕ) → d < bound → holds_under test bound ≡ true → test d ≡ true
unfolding holds_under
holds_under_lem test zero d below all_true = absurd (omega arith)
holds_under_lem test (suc bound) d below all_true = ground (arith, holds_under_lem test bound d)

or_table : holds_under (λ x. eqb (bit_or (x / 16 * 16 % 256) (x % 16)) x) 256 ≡ true
unfolding holds_under
or_table = refl

or_byte : (x : ℕ) → x < 256 → bit_or (x / 16 * 16 % 256) (x % 16) ≡ x
or_byte x h = (eqb_iff _ x).0 (holds_under_lem _ 256 x h or_table)

or_nibbles : (h l : ℕ) → h < 16 → l < 16 → bit_or (h * 16 % 256) l ≡ 16 * h + l
or_nibbles h l p q =
    let x : ℕ = 16 * h + l in
    let high : x / 16 ≡ h = omega arith in
    let low : x % 16 ≡ l = omega arith in rw high at (rw low at (or_byte x (omega arith)))

abbrev prepend : List ℕ → Option (List ℕ) → Option (List ℕ)
prepend out none = none
prepend out (some r) = some (out ++ r)

or_zero : (d : ℕ) → d < 16 → bit_or (0 * 16 % 256) d ≡ d
or_zero d p = or_nibbles 0 d (omega arith) p ∙ omega arith

step_even :
    (i b : ℕ) (out : List ℕ) (c : ℕ) (s : Str)
    → i % 2 ≡ 0
    → to_vec_loop i b out (c ∷ s) ≡ elim (nibble c) [
      | none ↦ none
      | some d ↦ to_vec_loop (i + 1) (bit_or (b * 16 % 256) d) out s
    ]
unfolding to_vec_loop
step_even i b out c s h = ground arith

step_odd :
    (i b : ℕ) (out : List ℕ) (c : ℕ) (s : Str)
    → i % 2 ≡ 1
    → to_vec_loop i b out (c ∷ s) ≡ elim (nibble c) [
      | none ↦ none
      | some d ↦ to_vec_loop (i + 1) 0 (out ++ bit_or (b * 16 % 256) d ∷ []) s
    ]
unfolding to_vec_loop
step_odd i b out c s h = ground arith

prepend-prepend :
    (out : List ℕ) (x : ℕ) (r : Option (List ℕ))
    → prepend (out ++ x ∷ []) r ≡ prepend out (elim r [ none ↦ none | some r ↦ some (x ∷ r) ])
prepend-prepend out x none = refl
prepend-prepend out x (some r) = ap {B = Option (List ℕ)} some (append_assoc out (x ∷ []) r)

loop_end : (i b : ℕ) (out : List ℕ) → to_vec_loop i b out [] ≡ some out
unfolding to_vec_loop
loop_end i b out = refl

to_vec_loop-decode :
    (i : ℕ) (out : List ℕ) (s : Str) → i % 2 ≡ 0 → to_vec_loop i 0 out s ≡ prepend out (decode s)
to_vec_loop-decode i out [] e =
    unfold to_vec_loop in ap {B = Option (List ℕ)} some (sym (append-nil out))
to_vec_loop-decode i out (c ∷ []) e = elim (Option-cases (nibble c)) [
  | inl n ↦ ground (arith, n, step_even i 0 out c [] e)
  | inr (d, n) ↦
      let last = loop_end (i + 1) (bit_or (0 * 16 % 256) d) out in
      ground (arith, n, step_even i 0 out c [] e, append-nil out, last)
]
to_vec_loop-decode i out (c ∷ d ∷ s) e = elim (Option-cases (nibble c)) [
  | inl n ↦ ground (arith, n, step_even i 0 out c (d ∷ s) e)
  | inr (h, n) ↦
      let first = step_even i 0 out c (d ∷ s) e in
      let second = step_odd (i + 1) (bit_or (0 * 16 % 256) h) out d s (omega arith) in
      elim (Option-cases (nibble d)) [
        | inl m ↦ ground (arith, n, m, first, second)
        | inr (l, m) ↦ ground (
          arith,
          n,
          m,
          first,
          second,
          or_zero h (nibble-lt c h n),
          or_nibbles h l (nibble-lt c h n) (nibble-lt d l m),
          prepend-prepend out (16 * h + l) (decode s),
          to_vec_loop-decode (i + 1 + 1) (out ++ (16 * h + l) ∷ []) s,
        )
      ]
]

-- For every text, the loop of `to_vec` gives what reading two digits for each byte gives.
pub to_vec-eq-decode : (s : Str) → to_vec s ≡ decode s
unfolding to_vec
to_vec-eq-decode s = to_vec_loop-decode 0 [] s (omega arith) ∙ ground arith
