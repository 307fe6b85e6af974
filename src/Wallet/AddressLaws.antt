-- ===== src/Wallet/AddressLaws.antt =====
-- The counter of addresses through the calls of the wallet.
use programming_lightning_bu.Base.{
  ◌≤◌, ◌≡◌, refl, sym, ◌∙◌, Option, none, some, arith, Outcome, ok, err, unwrap, true,
}
use programming_lightning_bu.Exec.{IoError, other, Exec, ◌>>=◌, bind_rule, lift}
use programming_lightning_bu.Args.{Network}
use programming_lightning_bu.Payments.{Bytes}
use programming_lightning_bu.Wallet.Bdk.{Bdk, IsLawful}
use programming_lightning_bu.Wallet.Session.{
  OnChainWallet, on_outside, connect, ask_client, apply, save, update_wallet, sync_wallet,
  full_scan, reveal, sign_psbt,
}

module _ (b : Bdk) (lawful : IsLawful b) (d c : Bytes) (network : Network) where
  -- The file holds a wallet of the descriptors.
  abbrev pub Found : b.Database → Type 0
  Found db = (v : b.Wallet) × (b.load_wallet d c network db ≡ some (some v))

  pub record Step (this this' : OnChainWallet b) : Type 0 where
    pub grows : lawful.next this.inner ≤ lawful.next this'.inner
    pub keeps : Found this.outside.database → Found this'.outside.database

  pub Step-refl : (this : OnChainWallet b) → Step this this
  Step-refl this = record { grows = omega arith; keeps = λ f. f }

  pub Step-trans : (s t u : OnChainWallet b) → Step s t → Step t u → Step s u
  Step-trans s t u p q = record {
    grows = omega (arith, p.grows, q.grows);
    keeps = λ f. q.keeps (p.keeps f);
  }

  bind-Step :
      {A B : Type 0} (m : Exec (OnChainWallet b) A) (f : A → Exec (OnChainWallet b) B)
      (s : OnChainWallet b)
      → Step s (m s).1
      → ((x : A) → Step (m s).1 (f x (m s).1).1)
      → Step s ((m >>= f) s).1
  bind-Step m f s first next =
      bind_rule (λ (r, t). Step s t) m f s
        (λ x e. Step-trans s (m s).1 (f x (m s).1).1 first (next x)) (λ x e. first) (λ e. first)

  connect-Step : (s : OnChainWallet b) → Step s (on_outside b (connect b) s).1
  unfolding connect
  connect-Step s = record { grows = omega arith; keeps = λ f. f }

  ask_client-Step :
      (request : b.Request) (s : OnChainWallet b) → Step s (on_outside b (ask_client b request) s).1
  unfolding ask_client
  ask_client-Step request s = record { grows = omega arith; keeps = λ f. f }

  apply-Step : (u : b.Update) (s : OnChainWallet b) → Step s (apply b u s).1
  unfolding apply
  apply-Step u s = go (b.apply_update u s.inner) refl
    where
      go :
          (o : Option b.Wallet)
          → b.apply_update u s.inner ≡ o
          → Step s
              (elim o as (λ _. Outcome IoError (Unit {0}) × OnChainWallet b) [
                | some wallet ↦ (ok tt, record s { inner = wallet })
                | none ↦ (err other, s)
              ]).1
      go none e = Step-refl s
      go (some wallet) e = record {
        grows = lawful.next-apply_update u s.inner wallet e;
        keeps = λ f. f;
      }

  -- Saving changes no counter, and the file then holds it.
  save_lem :
      (s : OnChainWallet b)
      → Step s (save b s).1
        × ((save b s).0 ≡ ok tt
            → lawful.saved (save b s).1.outside.database ≡ lawful.next (save b s).1.inner)
  unfolding save
  save_lem s = go (b.persist s.inner s.outside.database).0 refl
    where
      db : b.Database
      db = (b.persist s.inner s.outside.database).1

      saved_as : Option b.Wallet → Outcome IoError (Unit {0}) × OnChainWallet b
      saved_as o = elim o [
        | some inner ↦
            (ok tt, record { inner = inner; outside = record s.outside { database = db } })
        | none ↦ (err other, record s { outside = record s.outside { database = db } })
      ]

      go :
          (o : Option b.Wallet)
          → (b.persist s.inner s.outside.database).0 ≡ o
          → Step s (saved_as o).1
            × ((saved_as o).0 ≡ ok tt
                → lawful.saved (saved_as o).1.outside.database ≡ lawful.next (saved_as o).1.inner)
      go none e = (
        record {
          grows = omega arith;
          keeps = λ f. rw (lawful.persist_fails s.inner s.outside.database e) f;
        },
        λ no_ok. absurd (cc),
      )
      go (some w) e =
          let same = lawful.next-persist s.inner w s.outside.database e in
          (
            record {
              grows = omega (arith, same);
              keeps = λ (v, f). lawful.load-persist d c network s.inner w v s.outside.database f e;
            },
            λ done. lawful.saved-persist s.inner w s.outside.database e ∙ sym same,
          )

  pub update_wallet-Step :
      (start : b.Wallet → b.Request) (s : OnChainWallet b) → Step s (update_wallet b start s).1
  unfolding update_wallet
  update_wallet-Step start s = bind-Step (on_outside b (connect b)) _ s (connect-Step s) (λ _.
      let s1 = (on_outside b (connect b) s).1 in
      let asked = on_outside b (ask_client b (start s.inner)) in
      bind-Step asked _ s1 (ask_client-Step (start s.inner) s1) (λ u.
        let s2 = (asked s1).1 in
        bind-Step (apply b u) (λ _. save b) s2 (apply-Step u s2)
          (λ _. (save_lem (apply b u s2).1).0)))

  -- After a scan that returned Ok the file holds the counter.
  abbrev pub IsSaved : Outcome IoError (Unit {0}) × OnChainWallet b → Type 0
  IsSaved (r, s) = r ≡ ok tt → lawful.saved s.outside.database ≡ lawful.next s.inner

  bind-IsSaved :
      {A : Type 0} (m : Exec (OnChainWallet b) A) (f : A → Exec (OnChainWallet b) (Unit {0}))
      (s : OnChainWallet b)
      → ((x : A) → IsSaved (f x (m s).1))
      → IsSaved ((m >>= f) s)
  bind-IsSaved m f s next =
      bind_rule IsSaved m f s (λ x e. next x) (λ x e h. absurd (cc)) (λ e h. absurd (cc))

  pub update_wallet-IsSaved :
      (start : b.Wallet → b.Request) (s : OnChainWallet b) → IsSaved (update_wallet b start s)
  unfolding update_wallet
  update_wallet-IsSaved start s = bind-IsSaved (on_outside b (connect b)) _ s (λ _.
      let s1 = (on_outside b (connect b) s).1 in
      let asked = on_outside b (ask_client b (start s.inner)) in
      bind-IsSaved asked _ s1 (λ u.
        let s2 = (asked s1).1 in
        bind-IsSaved (apply b u) (λ _. save b) s2 (λ _. (save_lem (apply b u s2).1).1)))

  pub reveal-Step : (s : OnChainWallet b) → Step s (reveal b s).1
  unfolding reveal
  reveal-Step s = record { grows = omega (arith, lawful.next-reveal s.inner); keeps = λ f. f }

  pub sign_psbt-Step : (tx : b.Psbt) (s : OnChainWallet b) → Step s (sign_psbt b tx s).1
  unfolding sign_psbt
  sign_psbt-Step tx s =
      bind-Step (lift (unwrap (b.sign true s.inner tx)))
        (λ signed. lift (unwrap (b.extract_tx signed))) s (Step-refl s) (λ signed. Step-refl s)

  pub sync_wallet-Step : (s : OnChainWallet b) → Step s (sync_wallet b s).1
  unfolding sync_wallet
  sync_wallet-Step s = update_wallet-Step b.start_sync_with_revealed_spks s

  pub full_scan-Step : (s : OnChainWallet b) → Step s (full_scan b s).1
  unfolding full_scan
  full_scan-Step s = update_wallet-Step b.start_full_scan s

  pub sync_wallet-IsSaved : (s : OnChainWallet b) → IsSaved (sync_wallet b s)
  unfolding sync_wallet
  sync_wallet-IsSaved s = update_wallet-IsSaved b.start_sync_with_revealed_spks s
