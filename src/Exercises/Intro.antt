-- ===== src/Exercises/Intro.antt =====
-- src/intro/exercises.rs. Whether arithmetic is checked for overflow depends on the build.
use programming_lightning_bu.Base.{
  Str, str, not, leb, ◌==◌, Bool-cases, inl, inr, ap, ◌∙◌, ℕ, ◌+◌, ◌%◌, ◌^◌, ◌≤◌, ◌≡◌, refl, Bool,
  true, false, ◌&&◌, List, [], ◌∷◌, Outcome, ok, panic, ltb, list_eq, nat_eq, if◌then◌else◌, arith,
}
use programming_lightning_bu.Exec.{IoError}
use programming_lightning_bu.Text.{u64_max}

pub record TxOut : Type 0 where
  pub amount : ℕ
  pub script : List ℕ

-- The loop of `sum_outputs`, from a total.
unfoldable pub sum_from : Bool → ℕ → List TxOut → Outcome IoError ℕ
sum_from checks total [] = ok total
sum_from checks total (tx_out ∷ outputs) =
    let rest = sum_from checks ((total + tx_out.amount) % 2 ^ 64) outputs in
    if checks && ltb u64_max (total + tx_out.amount) then panic else rest

unfoldable pub sum_outputs : Bool → List TxOut → Outcome IoError ℕ
unfolding sum_from
sum_outputs checks outputs = sum_from checks 0 outputs

abbrev pub total_of : List TxOut → ℕ
total_of [] = 0
total_of (o ∷ outputs) = o.amount + total_of outputs

sum_from-checked :
    (total : ℕ) (outputs : List TxOut)
    → total ≤ u64_max
    → sum_from true total outputs
      ≡ (if ltb u64_max (total + total_of outputs) then panic else ok (total + total_of outputs))
unfolding sum_from
sum_from-checked total [] h = ground arith
sum_from-checked total (o ∷ outputs) h = elim (Bool-cases (ltb u64_max (total + o.amount))) [
  | inl y ↦ ground (arith, y)
  | inr fits ↦
      let small : total + o.amount ≤ u64_max = ground arith in
      let same : (total + o.amount) % 2 ^ 64 ≡ total + o.amount = omega (arith, small) in
      let rest = sum_from-checked (total + o.amount) outputs small in
      let assoc : (total + o.amount) + total_of outputs ≡ total + (o.amount + total_of outputs) =
        omega arith in
      rw (fits, same, rest, assoc) refl
]

sum_from-wrapping :
    (total : ℕ) (outputs : List TxOut)
    → total ≤ u64_max
    → sum_from false total outputs ≡ ok ((total + total_of outputs) % 2 ^ 64)
unfolding sum_from
sum_from-wrapping total [] h = ground arith
sum_from-wrapping total (o ∷ outputs) h =
    let rest = sum_from-wrapping ((total + o.amount) % 2 ^ 64) outputs (omega arith) in
    rest ∙ ap ok (omega arith)

-- The sum of the amounts modulo 2^64 without checks, and with checks the sum itself, or a panic
-- where it is larger than 2^64 - 1.
pub sum_outputs_lem :
    (outputs : List TxOut)
    → (sum_outputs false outputs ≡ ok (total_of outputs % 2 ^ 64))
      × (sum_outputs true outputs
          ≡ (if ltb u64_max (total_of outputs) then panic else ok (total_of outputs)))
unfolding sum_outputs
sum_outputs_lem outputs =
    let start : 0 + total_of outputs ≡ total_of outputs = omega arith in
    (
      rw start at (sum_from-wrapping 0 outputs (omega arith)),
      rw start at (sum_from-checked 0 outputs (omega arith)),
    )

-- The inputs are of the crate `bitcoin`.
pub record Transaction (TxIn : Type 0) : Type 0 where
  pub version : ℕ
  pub lock_time : ℕ
  pub input : List TxIn
  pub output : List TxOut

unfoldable pub transaction_sum_outputs :
    {TxIn : Type 0} → Bool → Transaction TxIn → Outcome IoError ℕ
unfolding sum_from
transaction_sum_outputs checks tx = sum_from checks 0 tx.output

-- A text that begins inside a character of UTF-8.
abbrev is_cut : Str → Bool
is_cut [] = false
is_cut (c ∷ rest) = leb 128 c && ltb c 192

-- `version[0..2] == "01"`: slicing a text that is too short, or inside a character, panics.
unfoldable pub is_bip68_compatible : Str → Outcome IoError Bool
is_bip68_compatible [] = panic
is_bip68_compatible (a ∷ []) = panic
is_bip68_compatible (a ∷ b ∷ rest) =
    if is_cut rest then panic else ok (not (a ∷ b ∷ [] == str "01"))

-- The method sums as the function does.
transaction_sum_outputs-eq :
    {TxIn : Type 0} (checks : Bool) (tx : Transaction TxIn)
    → transaction_sum_outputs checks tx ≡ sum_outputs checks tx.output
unfolding transaction_sum_outputs sum_outputs
transaction_sum_outputs-eq checks tx = refl
