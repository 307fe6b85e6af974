-- ===== src/Cli/ListingFields.antt =====
-- The parts of the lines of `list_payments`.
use programming_lightning_bu.Base.{
  ℕ, zero, suc, ◌≡◌, ◌≢◌, refl, sym, ap, Str, str, List, [], ◌∷◌, none, some, All, arith,
}
use programming_lightning_bu.Text.{show}
use programming_lightning_bu.Text.SplitLaws.{Lacks, Lacks-all}
use programming_lightning_bu.Text.ShowLaws.{show-injective, IsDigit, show-digits}
use programming_lightning_bu.Payments.{
  HtlcStatus, MillisatAmount, pending, succeeded, failed, show_amount,
}
use programming_lightning_bu.Cli.Listing.{status_name, direction_line}

digits-Lacks : (s : Str) → All IsDigit s → Lacks 10 s
digits-Lacks [] h = tt
digits-Lacks (c ∷ s) h = (λ e. omega arith, digits-Lacks s h.1)

digits-ne-unknown : (s : Str) → All IsDigit s → s ≢ str "unknown"
digits-ne-unknown [] h e = absurd (cc)
digits-ne-unknown (c ∷ s) h e = ground (arith, h.0, e)

pub show_amount-injective : (a b : MillisatAmount) → show_amount a ≡ show_amount b → a ≡ b
unfolding show_amount
show_amount-injective none none e = refl
show_amount-injective (some n) (some m) e = ap some (show-injective n m e)
show_amount-injective none (some m) e = absurd (digits-ne-unknown (show m) (show-digits m) (sym e))
show_amount-injective (some n) none e = absurd (digits-ne-unknown (show n) (show-digits n) e)

pub show_amount-Lacks : (a : MillisatAmount) → Lacks 10 (show_amount a)
unfolding show_amount
show_amount-Lacks none = Lacks-all 10 (str "unknown") refl
show_amount-Lacks (some n) = digits-Lacks (show n) (show-digits n)

pub status_name-Lacks : (st : HtlcStatus) → Lacks 10 (status_name st)
status_name-Lacks pending = Lacks-all 10 (str "pending") refl
status_name-Lacks succeeded = Lacks-all 10 (str "succeeded") refl
status_name-Lacks failed = Lacks-all 10 (str "failed") refl

pub status_name-injective : (a b : HtlcStatus) → status_name a ≡ status_name b → a ≡ b
status_name-injective pending pending e = refl
status_name-injective succeeded succeeded e = refl
status_name-injective failed failed e = refl
status_name-injective pending succeeded e = absurd (cc)
status_name-injective pending failed e = absurd (cc)
status_name-injective succeeded pending e = absurd (cc)
status_name-injective succeeded failed e = absurd (cc)
status_name-injective failed pending e = absurd (cc)
status_name-injective failed succeeded e = absurd (cc)

pub directions_differ : direction_line (str "outbound") ≢ direction_line (str "inbound")
directions_differ e = cc

-- A line by its number, and what is left behind some lines.
abbrev pub nth : ℕ → List Str → Str
nth n [] = []
nth zero (l ∷ ls) = l
nth (suc n) (l ∷ ls) = nth n ls

abbrev pub skip : ℕ → List Str → List Str
skip zero ls = ls
skip (suc n) [] = []
skip (suc n) (l ∷ ls) = skip n ls
