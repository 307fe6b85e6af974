-- ===== src/Wallet/Restarts.antt =====
-- Starting the wallet again over the file that an earlier run left.
use programming_lightning_bu.Base.{
  ◌≤◌, ◌≡◌, refl, sym, ap, ◌∙◌, Option, none, some, List, [], ◌++◌, map, arith, Outcome, ok, err,
  panic, unwrap, ok_or, subst,
}
use programming_lightning_bu.Exec.{IoError, other, ◌>>=◌, ◌>>◌, bind_rule, lift}
use programming_lightning_bu.Args.{Network}
use programming_lightning_bu.Payments.{Bytes}
use programming_lightning_bu.Wallet.Bdk.{Bdk, IsLawful, external, internal}
use programming_lightning_bu.Wallet.Session.{
  OnChainWallet, Outside, connect, load_or_create, full_scan, new_from_seed, sync_wallet,
  get_address, scanned, opened, update_wallet, ask_client, on_outside, answer, reveal,
}
use programming_lightning_bu.Wallet.Operations.{Operation, run}
use programming_lightning_bu.Wallet.AddressLaws.{
  Found, full_scan-Step, sync_wallet-Step, sync_wallet-IsSaved,
}
use programming_lightning_bu.Wallet.Sessions.{
  AllDistinct, run-Handed, Ascending-append, Ascending-weaken, Ascending-AllDistinct, script_at,
}
use mathlib.Core.List.{map-append}

unwrap-eq-ok : {A : Type 0} (o : Option A) (a : A) → unwrap {E = IoError} o ≡ ok a → o ≡ some a
unwrap-eq-ok none a h = absurd (cc)
unwrap-eq-ok (some x) a h = cc

module _ (b : Bdk) (lawful : IsLawful b) (network : Network) (seed : Bytes) where
  module _ (xprv : Bytes) (master : b.new_master network seed ≡ some xprv) where
    abbrev pub IsFound : b.Database → Type 0
    IsFound = Found b lawful (b.bip84 xprv external) (b.bip84 xprv internal) network

    -- A wallet that was opened over `o`, and what is outside then.
    record Opened (o : Outside b) (wallet : b.Wallet) (t : Outside b) : Type 0 where
      found : IsFound t.database
      counter : lawful.next wallet ≡ lawful.saved t.database
      same : IsFound o.database → t.database ≡ o.database
      answers : t.answers ≡ o.answers

    abbrev Opens : Outside b → Outcome IoError b.Wallet × Outside b → Type 0
    Opens o (r, t) = (wallet : b.Wallet) → r ≡ ok wallet → Opened o wallet t

    load_or_create-Opens : (o : Outside b) → Opens o (load_or_create b network xprv o)
    unfolding load_or_create
    load_or_create-Opens o = go (b.load_wallet d c network o.database) refl
      where
        d : Bytes
        d = b.bip84 xprv external

        c : Bytes
        c = b.bip84 xprv internal

        go :
            (found : Option (Option b.Wallet))
            → b.load_wallet d c network o.database ≡ found
            → Opens o (elim found as (λ _. Outcome IoError b.Wallet × Outside b) [
              | none ↦ (panic, o)
              | some (some wallet) ↦ (ok wallet, o)
              | some none ↦ (
                unwrap (b.create_wallet d c network o.database).0,
                record o { database = (b.create_wallet d c network o.database).1 },
              )
            ])
        go none e wallet h = absurd (cc)
        go (some (some v)) e wallet h =
            let here : b.load_wallet d c network o.database ≡ some (some wallet) = cc in
            record {
              found = (wallet, here);
              counter = lawful.next-load d c network o.database wallet here;
              same = λ f. refl;
              answers = refl;
            }
        go (some none) e wallet h =
            let made = unwrap-eq-ok (b.create_wallet d c network o.database).0 wallet h in
            record {
              found = (wallet, lawful.load-create d c network o.database wallet made);
              counter = lawful.saved-create d c network o.database wallet made;
              same = λ (v, f). absurd (cc);
              answers = refl;
            }

    -- Loading behind a connection.
    open_wallet : Outside b → Outcome IoError b.Wallet × Outside b
    open_wallet o = (connect b >> load_or_create b network xprv) o

    open_wallet-Opens : (o : Outside b) → Opens o (open_wallet o)
    unfolding open_wallet connect
    open_wallet-Opens o =
        bind_rule (Opens o) (connect b) (λ _. load_or_create b network xprv) o
          (λ x e wallet h.
            let p = load_or_create-Opens (connect b o).1 wallet h in
            record { found = p.found; counter = p.counter; same = p.same; answers = p.answers })
          (λ x e w h. absurd (cc)) (λ e w h. absurd (cc))

    -- A start that returned: the wallet that was opened, after its scan.
    record Started (o : Outside b) (this : OnChainWallet b) : Type 0 where
      wallet : b.Wallet
      outside : Outside b
      opened : Opened o wallet outside
      scan : this ≡ (full_scan b (record { inner = wallet; outside = outside })).1

    opened-Started :
        (o : Outside b) (this : OnChainWallet b) (r : Outcome IoError b.Wallet) (t : Outside b)
        → Opens o (r, t)
        → (opened b (r, t)).0 ≡ ok this
        → Started o this
    opened-Started o this (ok wallet) t p h =
        let scan = full_scan b (record { inner = wallet; outside = t }) in
        record { wallet = wallet; outside = t; opened = p wallet refl; scan = go scan.0 h }
      where
        go :
            (r : Outcome IoError (Unit {0}))
            → (scanned b (r, (full_scan b (record { inner = wallet; outside = t })).1)).0 ≡ ok this
            → this ≡ (full_scan b (record { inner = wallet; outside = t })).1
        go (ok x) e = cc
        go (err x) e = cc
        go panic e = absurd (cc)
    opened-Started o this (err x) t p h = absurd (cc)
    opened-Started o this panic t p h = absurd (cc)

    new_from_seed-Started :
        (o : Outside b) (this : OnChainWallet b)
        → (new_from_seed b seed network o).0 ≡ ok this
        → Started o this
    unfolding new_from_seed open_wallet ◌>>=◌
    new_from_seed-Started o this h =
        opened-Started o this (open_wallet o).0 (open_wallet o).1 (open_wallet-Opens o) (
          subst
            (λ x.
              (opened b ((lift (unwrap x) >>= λ k. connect b >> load_or_create b network k) o)).0
              ≡ ok this)
            master h)

    full_scan_offline :
        (s : OnChainWallet b) → s.outside.answers ≡ [] → (full_scan b s).1.inner ≡ s.inner
    unfolding full_scan update_wallet connect ask_client
    full_scan_offline s e =
        let asked = on_outside b (ask_client b (b.start_full_scan s.inner)) in
        let s1 = (on_outside b (connect b) s).1 in
        bind_rule (λ (r, t). t.inner ≡ s.inner) (on_outside b (connect b)) _ s
          (λ x done.
            bind_rule (λ (r, t). t.inner ≡ s.inner) asked _ s1
              (λ u found.
                let none_found : (asked s1).0 ≡ err other =
                  ap (λ a. ok_or (answer b a (b.start_full_scan s.inner)) other) e in
                absurd (cc))
              (λ x e. refl) (λ e. refl))
          (λ x e. refl) (λ e. refl)

    Found-start :
        (o : Outside b) (this : OnChainWallet b) → Started o this → IsFound this.outside.database
    Found-start o this st =
        let fresh : OnChainWallet b = record { inner = st.wallet; outside = st.outside } in
        subst (λ (x : OnChainWallet b). IsFound x.outside.database) (sym st.scan)
          ((full_scan-Step b lawful (b.bip84 xprv external) (b.bip84 xprv internal) network
              fresh).keeps
            st.opened.found)

    next-start :
        (o : Outside b) (this : OnChainWallet b)
        → Started o this
        → IsFound o.database
        → lawful.saved o.database ≤ lawful.next this.inner
    next-start o this st found =
        let fresh : OnChainWallet b = record { inner = st.wallet; outside = st.outside } in
        let grows =
          (full_scan-Step b lawful (b.bip84 xprv external) (b.bip84 xprv internal) network
            fresh).grows in
        omega (
          arith,
          grows,
          st.opened.counter,
          ap lawful.saved (st.opened.same found),
          ap (λ (x : OnChainWallet b). lawful.next x.inner) st.scan,
        )

    -- If a first run of the node ends with a sync that returned Ok, no script that the wallet hands
    -- out in it is handed out again in it or in the next run over the file that it left.
    pub runs-AllDistinct :
        (o : Outside b) (first second : OnChainWallet b) (ops ops' : List (Operation b))
        → (new_from_seed b seed network o).0 ≡ ok first
        → (sync_wallet b (run b ops first).1).0 ≡ ok tt
        → (new_from_seed b seed network (sync_wallet b (run b ops first).1).1.outside).0 ≡ ok second
        → AllDistinct ((run b ops first).0 ++ (run b ops' second).0)
    runs-AllDistinct o first second ops ops' started synced again =
        let s1 = (run b ops first).1 in
        let s2 = (sync_wallet b s1).1 in
        let before = new_from_seed-Started o first started in
        let after = new_from_seed-Started s2.outside second again in
        let h =
          run-Handed b lawful (b.bip84 xprv external) (b.bip84 xprv internal) network ops first in
        let h' =
          run-Handed b lawful (b.bip84 xprv external) (b.bip84 xprv internal) network ops' second in
        let step =
          sync_wallet-Step b lawful (b.bip84 xprv external) (b.bip84 xprv internal) network s1 in
        let found = step.keeps (h.step.keeps (Found-start o first before)) in
        let on_file =
          sync_wallet-IsSaved b lawful (b.bip84 xprv external) (b.bip84 xprv internal) network s1
            synced in
        let up = next-start s2.outside second after found in
        let rising =
          Ascending-append (lawful.next first.inner) h.numbers (lawful.next s1.inner) h'.numbers
            (lawful.next (run b ops' second).1.inner) h.rising
            (Ascending-weaken (lawful.next s1.inner) (lawful.next second.inner) h'.numbers
              (lawful.next (run b ops' second).1.inner) (omega (arith, up, on_file, step.grows))
              h'.rising) in
        subst AllDistinct
          (map-append (script_at b lawful) h.numbers h'.numbers
            ∙ ap (λ xs. xs ++ map (script_at b lawful) h'.numbers) (sym h.scripts_at)
            ∙ ap (λ ys. (run b ops first).0 ++ ys) (sym h'.scripts_at))
          (Ascending-AllDistinct b lawful (lawful.next first.inner) (h.numbers ++ h'.numbers)
            (lawful.next (run b ops' second).1.inner) rising)

    -- If the file holds the wallet's counter and the next address is revealed, and the node is
    -- started again before a sync, while the server does not answer, the same address is revealed
    -- again.
    pub get_address-again :
        (this second : OnChainWallet b)
        → IsFound this.outside.database
        → lawful.saved this.outside.database ≡ lawful.next this.inner
        → this.outside.answers ≡ []
        → (new_from_seed b seed network (get_address b this).1.outside).0 ≡ ok second
        → (get_address b second).0 ≡ (get_address b this).0
    unfolding get_address reveal
    get_address-again this second found saved offline again =
        let start = new_from_seed-Started (get_address b this).1.outside second again in
        let fresh : OnChainWallet b = record { inner = start.wallet; outside = start.outside } in
        let scanned_same = full_scan_offline fresh (start.opened.answers ∙ offline) in
        let inner : second.inner ≡ start.wallet =
          ap (λ (x : OnChainWallet b). x.inner) start.scan ∙ scanned_same in
        let counter : lawful.next second.inner ≡ lawful.next this.inner =
          ap lawful.next inner
          ∙ start.opened.counter
          ∙ ap lawful.saved (start.opened.same found)
          ∙ saved in
        ap ok (
          lawful.revealed second.inner
          ∙ ap lawful.address_at counter
          ∙ sym (lawful.revealed this.inner))
