-- ===== src/FilesystemStore/Interleaved/Stages.antt =====
-- What the stage of a thread says about its temporary file.
use programming_lightning_bu.Base.{
  ℕ, ◌≡◌, ◌≢◌, ◌⊎◌, inl, inr, sym, Bool, true, false, Option, none, some, arith, eqb, subst,
  Bool-cases, list_eq, nat_eq,
}
use programming_lightning_bu.FilePath.{FilePath}
use programming_lightning_bu.FilesystemStore.Threads.{
  Stage, starting, made, renamed, opened, numbered, created, written, synced, holding, finished,
  failed, set,
}

-- The number of the temporary file in use, and of one with all the bytes.
abbrev pub number : Stage → Option ℕ
number (numbered u n) = some n
number (created u n) = some n
number (written u n) = some n
number (synced u n) = some n
number (holding u n) = some n
number _ = none

abbrev pub complete : Stage → Option ℕ
complete (written u n) = some n
complete (synced u n) = some n
complete (holding u n) = some n
complete _ = none

-- The key's file was replaced, and no call failed.
abbrev pub is_past : Stage → Bool
is_past (renamed u) = true
is_past (opened u) = true
is_past finished = true
is_past _ = false

pub complete-number : (st : Stage) (n : ℕ) → complete st ≡ some n → number st ≡ some n
complete-number (written u m) n e = e
complete-number (synced u m) n e = e
complete-number (holding u m) n e = e
complete-number starting n e = absurd (cc)
complete-number (made u) n e = absurd (cc)
complete-number (renamed u) n e = absurd (cc)
complete-number (opened u) n e = absurd (cc)
complete-number (numbered u m) n e = absurd (cc)
complete-number (created u m) n e = absurd (cc)
complete-number finished n e = absurd (cc)
complete-number failed n e = absurd (cc)

-- Of the stages behind a call of one thread.
module _ (stages : ℕ → Stage) (i : ℕ) (st : Stage) where
  pub number_before :
      ((n : ℕ) → number st ≡ some n → number (stages i) ≡ some n)
      → (j n : ℕ) → number (set i st stages j) ≡ some n
      → number (stages j) ≡ some n
  number_before keeps j n e = elim (Bool-cases (eqb i j)) [
    | inl y ↦
        let same : i ≡ j = ground arith in
        subst (λ k. number (stages k) ≡ some n) same (keeps n (ground (arith, e, y)))
    | inr differs ↦ ground (arith, e, differs)
  ]

  pub past_before :
      (is_past st ≡ true → is_past (stages i) ≡ true)
      → (j : ℕ) → is_past (stages j) ≡ false
      → is_past (set i st stages j) ≡ false
  past_before past j e = elim (Bool-cases (eqb i j)) [
    | inl y ↦
        let same : i ≡ j = ground arith in
        let e' = subst (λ k. is_past (stages k) ≡ false) (sym same) e in ground (arith, e', y, past)
    | inr differs ↦ ground (arith, e, differs)
  ]

-- The numbers behind the counter's step.
pub numbered_cases :
    (stages : ℕ → Stage) (i j m : ℕ) (u : FilePath) (c : ℕ)
    → number (set i (numbered u c) stages j) ≡ some m
    → (i ≡ j) × (m ≡ c) ⊎ (i ≢ j) × (number (stages j) ≡ some m)
numbered_cases stages i j m u c e = elim (Bool-cases (eqb i j)) [
  | inl y ↦ inl (ground arith, ground (arith, e, y))
  | inr differs ↦ inr (ground arith, ground (arith, e, differs))
]
