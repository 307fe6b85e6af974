-- ===== src/Text/ShowLaws.antt =====
-- Two numbers are never written the same.
use programming_lightning_bu.Base.{
  ◌≤◌, All, ℕ, zero, suc, ◌+◌, ◌-◌, ◌*◌, ◌/◌, ◌%◌, ◌<◌, ◌≡◌, sym, ap, ◌∙◌, Str, [], ◌∷◌, ltb, arith,
  Bool-cases, inl, inr,
}
use programming_lightning_bu.Text.Number.{show, show_from}

-- The number that digits behind a value make.
abbrev value : ℕ → Str → ℕ
value n [] = n
value n (c ∷ s) = value (n * 10 + (c - 48)) s

value-show_from : (f n : ℕ) (out : Str) → n < f → value 0 (show_from f n out) ≡ value n out
unfolding show_from
value-show_from zero n out h = absurd (omega arith)
value-show_from (suc f) n out h = elim (Bool-cases (ltb n 10)) [
  | inl small ↦ rw small (ap (λ m. value m out) (omega arith))
  | inr large ↦ rw large (
      value-show_from f (n / 10) ((48 + n % 10) ∷ out) (ground arith)
      ∙ ap (λ m. value m out) (omega arith))
]

value-show : (n : ℕ) → value 0 (show n) ≡ n
unfolding show
value-show n = value-show_from (n + 1) n [] (omega arith)

pub show-injective : (n m : ℕ) → show n ≡ show m → n ≡ m
show-injective n m e = sym (value-show n) ∙ ap (value 0) e ∙ value-show m

abbrev pub IsDigit : ℕ → Type 0
IsDigit c = (48 ≤ c) × (c ≤ 57)

show_from-digits : (f n : ℕ) (out : Str) → All IsDigit out → All IsDigit (show_from f n out)
unfolding show_from
show_from-digits zero n out h = h
show_from-digits (suc f) n out h =
    let next : IsDigit (48 + n % 10) = (omega arith, omega arith) in
    elim (Bool-cases (ltb n 10)) [
      | inl small ↦ let lt : n < 10 = ground arith in rw small ((omega arith, omega arith), h)
      | inr large ↦ rw large (show_from-digits f (n / 10) ((48 + n % 10) ∷ out) (next, h))
    ]

pub show-digits : (n : ℕ) → All IsDigit (show n)
unfolding show
show-digits n = show_from-digits (n + 1) n [] tt
