-- ===== src/Tests/Wallet.antt =====
-- Runs of the wallet over a BDK that counts its addresses.
use programming_lightning_bu.Base.{
  ℕ, suc, ◌≤◌, ◌≡◌, refl, Option, none, some, List, [], ◌∷◌, ◌++◌, arith, ok, ap,
}
use programming_lightning_bu.Exec.{◌>>=◌}
use programming_lightning_bu.Args.{regtest}
use programming_lightning_bu.Payments.{Bytes}
use programming_lightning_bu.Wallet.Bdk.{Bdk, IsLawful}
use programming_lightning_bu.Wallet.Session.{
  Outside, OnChainWallet, new_from_seed, sync_wallet, get_address, full_scan, update_wallet,
  connect, load_or_create, ask_client, apply, save, reveal, get_change_script, sign_psbt,
}
use programming_lightning_bu.Wallet.Operations.{
  Operation, address, change_script, sign, run, perform,
}
use programming_lightning_bu.Wallet.Sessions.{AllDistinct}
use programming_lightning_bu.Wallet.Restarts.{runs-AllDistinct, get_address-again}

-- A wallet is the number of its next address, and so is the file; an address is its number.
abbrev counting : Bdk
counting = record {
  Wallet = ℕ;
  Database = Option ℕ;
  Request = Unit {0};
  Update = Unit {0};
  Psbt = Unit {0};
  Balance = ℕ;
  new_master = λ n seed. some seed;
  bip84 = λ k kind. k;
  load_wallet = λ d c n db. some db;
  create_wallet = λ d c n db. (some 0, some 0);
  start_full_scan = λ w. tt;
  start_sync_with_revealed_spks = λ w. tt;
  apply_update = λ u w. some w;
  persist = λ w db. (some w, some w);
  reveal_next_address = λ k w. (w ∷ [], suc w);
  balance = λ w. 0;
  sign = λ t w p. some p;
  extract_tx = λ p. some [];
  script_pubkey = λ a. a;
}

abbrev saved_in : Option ℕ → ℕ
saved_in none = 0
saved_in (some n) = n

singleton_injective : (i j : ℕ) → ◌≡◌ {A = Bytes} (i ∷ []) (j ∷ []) → i ≡ j
singleton_injective i j e = ground (arith, e)

le_of_some : (w w' : ℕ) → some w ≡ some w' → w ≤ w'
le_of_some w w' e = ground (arith, e)

eq_of_some : (w w' : ℕ) → some w ≡ some w' → w' ≡ w
eq_of_some w w' e = ground (arith, e)

found_saved : (db : Option ℕ) (w : ℕ) → some db ≡ some (some w) → w ≡ saved_in db
found_saved db w e = ground (arith, e)

created_first : (w : ℕ) → ◌≡◌ {A = Option ℕ} (some 0) (some w) → w ≡ 0
created_first w e = ground (arith, e)

load_created :
    (w : ℕ)
    → ◌≡◌ {A = Option ℕ} (some 0) (some w)
    → ◌≡◌ {A = Option (Option ℕ)} (some (some 0)) (some (some w))
load_created w e = ap some e

always_saved : (w : ℕ) (db : Option ℕ) → some w ≡ none → some w ≡ db
always_saved w db e = absurd (cc)

abbrev counting_laws : IsLawful counting
counting_laws = record {
  next = λ w. w;
  saved = saved_in;
  address_at = λ n. n ∷ [];
  address_at_injective = singleton_injective;
  script_pubkey_injective = singleton_injective;
  revealed = λ w. refl;
  next-reveal = λ w. refl;
  next-apply_update = λ u w w' e. le_of_some w w' e;
  next-persist = λ w w' db e. eq_of_some w w' e;
  saved-persist = λ w w' db e. refl;
  persist_fails = λ w db e. always_saved w db e;
  next-load = λ d c n db w e. found_saved db w e;
  saved-create = λ d c n db w e. created_first w e;
  load-create = λ d c n db w e. load_created w e;
  load-persist = λ d c n w w' v db e f. (w, refl);
}

abbrev online : Outside counting
online = record {
  database = none;
  connections = [];
  answers = (λ r. some tt) ∷ (λ r. some tt) ∷ [];
}

abbrev first : OnChainWallet counting
first = record {
  inner = 0;
  outside = record { database = some 0; connections = []; answers = (λ r. some tt) ∷ [] };
}

abbrev operations : List (Operation counting)
operations = address ∷ change_script ∷ sign tt ∷ []

abbrev second : OnChainWallet counting
second = record {
  inner = 2;
  outside = record { database = some 2; connections = []; answers = [] };
}

started : (new_from_seed counting (1 ∷ []) regtest online).0 ≡ ok first
unfolding new_from_seed sync_wallet full_scan update_wallet connect load_or_create ask_client apply
    save run perform get_address reveal get_change_script sign_psbt ◌>>=◌
started = refl

synced : (sync_wallet counting (run counting operations first).1).0 ≡ ok tt
unfolding new_from_seed sync_wallet full_scan update_wallet connect load_or_create ask_client apply
    save run perform get_address reveal get_change_script sign_psbt ◌>>=◌
synced = refl

again :
    (new_from_seed counting
      (1 ∷ [])
      regtest
      (sync_wallet counting (run counting operations first).1).1.outside).0
    ≡ ok second
unfolding new_from_seed sync_wallet full_scan update_wallet connect load_or_create ask_client apply
    save run perform get_address reveal get_change_script sign_psbt ◌>>=◌
again = refl

runs-AllDistinct_example :
    AllDistinct ((run counting operations first).0 ++ (run counting operations second).0)
runs-AllDistinct_example =
    runs-AllDistinct counting counting_laws regtest (1 ∷ []) (1 ∷ []) refl online first second
      operations operations started synced again

abbrev idle : OnChainWallet counting
idle = record { inner = 4; outside = record { database = some 4; connections = []; answers = [] } }

restarted :
    (new_from_seed counting (1 ∷ []) regtest (get_address counting idle).1.outside).0 ≡ ok idle
unfolding new_from_seed sync_wallet full_scan update_wallet connect load_or_create ask_client apply
    save run perform get_address reveal get_change_script sign_psbt ◌>>=◌
restarted = refl

get_address-again_example : (get_address counting idle).0 ≡ (get_address counting idle).0
get_address-again_example =
    get_address-again counting counting_laws regtest (1 ∷ []) (1 ∷ []) refl idle idle (4, refl) refl
      refl restarted
