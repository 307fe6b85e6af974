-- ===== src/Wallet/Sessions.antt =====
-- The scripts that the wallet hands out, in one run of the node and in two.
use mathlib.Core.List.{map-append}
use programming_lightning_bu.Base.{
  ℕ, suc, ◌≤◌, ◌≡◌, ◌≢◌, refl, sym, ap, ◌∙◌, Option, none, some, List, [], ◌∷◌, ◌++◌, map, arith,
  Outcome, ok, err, panic, All,
}
use programming_lightning_bu.Exec.{IoError, ◌>>=◌}
use programming_lightning_bu.Args.{Network}
use programming_lightning_bu.Payments.{Bytes}
use programming_lightning_bu.Wallet.Bdk.{Bdk, IsLawful, external}
use programming_lightning_bu.Wallet.Session.{
  OnChainWallet, sync_wallet, reveal, get_address, get_change_script, get_change_destination_script,
  sign_psbt,
}
use programming_lightning_bu.Wallet.Operations.{
  Operation, address, change_script, change_destination, sync, sign, silent, perform, run,
}
use programming_lightning_bu.Wallet.AddressLaws.{
  Step, Step-refl, Step-trans, sync_wallet-Step, sign_psbt-Step, reveal-Step,
}

-- Numbers from `lo` to below `hi`, in rising order.
abbrev pub Ascending : ℕ → List ℕ → ℕ → Type 0
Ascending lo [] hi = lo ≤ hi
Ascending lo (k ∷ ks) hi = (lo ≤ k) × Ascending (suc k) ks hi

abbrev pub AllDistinct : List Bytes → Type 0
AllDistinct [] = Unit
AllDistinct (x ∷ xs) = All (λ y. x ≢ y) xs × AllDistinct xs

Ascending-le : (lo : ℕ) (ks : List ℕ) (hi : ℕ) → Ascending lo ks hi → lo ≤ hi
Ascending-le lo [] hi h = h
Ascending-le lo (k ∷ ks) hi (h, t) = omega (arith, h, Ascending-le (suc k) ks hi t)

pub Ascending-weaken :
    (lo lo' : ℕ) (ks : List ℕ) (hi : ℕ) → lo ≤ lo' → Ascending lo' ks hi → Ascending lo ks hi
Ascending-weaken lo lo' [] hi le h = omega arith
Ascending-weaken lo lo' (k ∷ ks) hi le (h, t) = (omega arith, t)

pub Ascending-append :
    (lo : ℕ) (ks : List ℕ) (mid : ℕ) (ls : List ℕ) (hi : ℕ)
    → Ascending lo ks mid
    → Ascending mid ls hi
    → Ascending lo (ks ++ ls) hi
Ascending-append lo [] mid ls hi h h' = Ascending-weaken lo mid ls hi h h'
Ascending-append lo (k ∷ ks) mid ls hi (h, t) h' = (h, Ascending-append (suc k) ks mid ls hi t h')

module _ (b : Bdk) (lawful : IsLawful b) where
  abbrev pub script_at : ℕ → Bytes
  script_at k = b.script_pubkey (lawful.address_at k)

  apart :
      (k lo : ℕ) (ks : List ℕ) (hi : ℕ)
      → suc k ≤ lo
      → Ascending lo ks hi
      → All (λ y. script_at k ≢ y) (map script_at ks)
  apart k lo [] hi le h = tt
  apart k lo (l ∷ ks) hi le (h, t) = (
    λ same. omega (arith, lawful.script_pubkey_injective k l same),
    apart k (suc l) ks hi (omega arith) t,
  )

  pub Ascending-AllDistinct :
      (lo : ℕ) (ks : List ℕ) (hi : ℕ) → Ascending lo ks hi → AllDistinct (map script_at ks)
  Ascending-AllDistinct lo [] hi h = tt
  Ascending-AllDistinct lo (k ∷ ks) hi (h, t) =
      (apart k (suc k) ks hi (omega arith) t, Ascending-AllDistinct (suc k) ks hi t)

  module _ (d c : Bytes) (network : Network) where
    -- What a run from `s` to `s'` hands out: scripts of rising numbers between their counters.
    pub record Handed (s s' : OnChainWallet b) (scripts : List Bytes) : Type 0 where
      pub numbers : List ℕ
      pub scripts_at : scripts ≡ map script_at numbers
      pub rising : Ascending (lawful.next s.inner) numbers (lawful.next s'.inner)
      pub step : Step b lawful d c network s s'

    nothing : (s s' : OnChainWallet b) → Step b lawful d c network s s' → Handed s s' []
    nothing s s' st = record { numbers = []; scripts_at = refl; rising = st.grows; step = st }

    revealed :
        (s : OnChainWallet b)
        → Handed s (reveal b s).1 (b.script_pubkey (b.reveal_next_address external s.inner).0 ∷ [])
    unfolding reveal
    revealed s = record {
      numbers = lawful.next s.inner ∷ [];
      scripts_at = ap (λ a. b.script_pubkey a ∷ []) (lawful.revealed s.inner);
      rising = omega (arith, lawful.next-reveal s.inner);
      step = reveal-Step b lawful d c network s;
    }

    append :
        (s t u : OnChainWallet b) (xs ys : List Bytes)
        → Handed s t xs
        → Handed t u ys
        → Handed s u (xs ++ ys)
    append s t u xs ys h k = record {
      numbers = h.numbers ++ k.numbers;
      scripts_at =
          ap (λ z. z ++ ys) h.scripts_at
          ∙ ap (λ z. map script_at h.numbers ++ z) k.scripts_at
          ∙ sym (map-append script_at h.numbers k.numbers);
      rising =
          Ascending-append (lawful.next s.inner) h.numbers (lawful.next t.inner) k.numbers
            (lawful.next u.inner) h.rising k.rising;
      step = Step-trans b lawful d c network s t u h.step k.step;
    }

    abbrev scripts_of : Option (List Bytes) → List Bytes
    scripts_of none = []
    scripts_of (some scripts) = scripts

    silent-Handed :
        {A : Type 0} (r : Outcome IoError A) (s s' : OnChainWallet b)
        → Step b lawful d c network s s'
        → Handed s (silent b (r, s')).1 (scripts_of (silent b (r, s')).0)
    silent-Handed (ok x) s s' st = nothing s s' st
    silent-Handed (err e) s s' st = nothing s s' st
    silent-Handed panic s s' st = nothing s s' st

    perform-Handed :
        (op : Operation b) (s : OnChainWallet b)
        → Handed s (perform b op s).1 (scripts_of (perform b op s).0)
    unfolding perform get_address get_change_script get_change_destination_script reveal ◌>>=◌
    perform-Handed address s = revealed s
    perform-Handed change_script s = revealed s
    perform-Handed change_destination s = revealed s
    perform-Handed sync s =
        silent-Handed (sync_wallet b s).0 s (sync_wallet b s).1
          (sync_wallet-Step b lawful d c network s)
    perform-Handed (sign tx) s =
        silent-Handed (sign_psbt b tx s).0 s (sign_psbt b tx s).1
          (sign_psbt-Step b lawful d c network tx s)

    pub run-Handed :
        (ops : List (Operation b)) (s : OnChainWallet b) → Handed s (run b ops s).1 (run b ops s).0
    unfolding run
    run-Handed [] s = nothing s s (Step-refl b lawful d c network s)
    run-Handed (op ∷ ops) s =
        go (perform b op s).0 (perform-Handed op s) (run-Handed ops (perform b op s).1)
      where
        s' : OnChainWallet b
        s' = (perform b op s).1

        after : Option (List Bytes) → List Bytes × OnChainWallet b
        after r = elim r [
          | some scripts ↦ (scripts ++ (run b ops s').0, (run b ops s').1)
          | none ↦ ([], s')
        ]

        go :
            (r : Option (List Bytes))
            → Handed s s' (scripts_of r)
            → Handed s' (run b ops s').1 (run b ops s').0
            → Handed s (after r).1 (after r).0
        go none h later = h
        go (some scripts) h later = append s s' (run b ops s').1 scripts (run b ops s').0 h later
