-- ===== src/Cli/Saves.antt =====
-- The records and their files through the functions that the commands call.
use programming_lightning_bu.Base.{
  ℕ, ◌≡◌, refl, sym, Str, Bool, true, false, not, ◌&&◌, Option, none, some, List, [], ◌∷◌, ◌++◌, ok,
  Outcome, if◌then◌else◌, list_eq, nat_eq, subst, contains,
}
use programming_lightning_bu.Exec.{IoError, Exec, ◌>>=◌, ◌>>◌, pure}
use programming_lightning_bu.Payments.{Bytes, Payments}
use programming_lightning_bu.Base.Dict.{insert}
use programming_lightning_bu.Node.{
  Ldk, Node, Call, connect_outbound, disconnect_by_node_id, create_invoice, set_inbound,
  pay_for_offer, tell, ask, command_line, persist_inbound,
}
use programming_lightning_bu.Node.Durable.{IsDurable, TakesNames, persist_inbound-IsDurable}
use programming_lightning_bu.Peers.{connect_peer_if_necessary, do_disconnect_peer}
use programming_lightning_bu.Peers.Laws.{
  known_before_close, connect_peer_if_necessary_lem, do_disconnect_peer_lem,
}
use programming_lightning_bu.Cli.Durability.{bind-IsDurable, record_pending-IsDurable}
use programming_lightning_bu.Cli.Offer.{
  Amount, Answer, yes_pay, no_skip, end_of_input, read_failed, send_offer, pay_offer, agreed_amount,
  confirm,
}
use programming_lightning_bu.Cli.Pay.{record_pending, get_invoice, new_record, Router, Invoice}

module _ (l : Ldk) (names : TakesNames l) where
  -- If it returns, the files hold the records behind it.
  abbrev pub Saves : {A : Type 0} → Node → Exec Node A → Type 0
  Saves {A} n m = (b : A) → (m n).0 ≡ ok b → IsDurable l (m n).1

  -- Only calls were made.
  abbrev pub Quiet : Node → Node → Type 0
  Quiet n t = (cs : List Call) × (t ≡ record n { calls = cs })

  pub Quiet-IsDurable : (n t : Node) → Quiet n t → IsDurable l n → IsDurable l t
  Quiet-IsDurable n t (cs, e) d = subst (IsDurable l) (sym e) (record {
    inbound_saved = d.inbound_saved;
    outbound_saved = d.outbound_saved;
    same_dir = d.same_dir;
  })

  pub bind-Saves :
      {A B : Type 0} (m : Exec Node A) (f : A → Exec Node B) (n : Node)
      → ((a : A) → (m n).0 ≡ ok a → Saves (m n).1 (f a))
      → Saves n (m >>= f)
  bind-Saves m f n go b e = bind-IsDurable l names m f b n (λ a done. go a done b) e

  pub if-Saves :
      {A : Type 0} (b : Bool) (m k : Exec Node A) (n : Node)
      → Saves n m
      → Saves n k
      → Saves n (if b then m else k)
  if-Saves true m k n h h' = h
  if-Saves false m k n h h' = h'

  pub then-Saves :
      {A B : Type 0} (m : Exec Node A) (b : B) (n : Node) → Saves n m → Saves n (m >> pure b)
  then-Saves m b n h = bind-Saves m (λ a. pure b) n (λ a e _ _. h a e)

  pub connect-Quiet :
      (pubkey addr : Bytes) (n : Node) → Quiet n (connect_peer_if_necessary l pubkey addr n).1
  connect-Quiet pubkey addr n =
      subst (λ r. Quiet n r.1) (sym (connect_peer_if_necessary_lem l pubkey addr n))
        (go (contains (l.peers n.calls) pubkey))
    where
      later : Outcome IoError Bool × Node
      later = (
        ok (known_before_close (l.connection n.calls pubkey addr)),
        record n { calls = n.calls ++ connect_outbound pubkey addr ∷ [] },
      )

      stays : Outcome IoError Bool × Node
      stays = (ok true, n)

      go : (b : Bool) → Quiet n (if b then stays else later).1
      go true = (n.calls, refl)
      go false = (_, refl)

  pub disconnect-Quiet : (pubkey : Bytes) (n : Node) → Quiet n (do_disconnect_peer l pubkey n).1
  disconnect-Quiet pubkey n =
      subst (λ r. Quiet n r.1) (sym (do_disconnect_peer_lem l pubkey n))
        (go (contains (l.peers n.calls) pubkey && not (contains (l.channel_peers n.calls) pubkey)))
    where
      later : Outcome IoError Bool × Node
      later = (ok true, record n { calls = n.calls ++ disconnect_by_node_id pubkey ∷ [] })

      stays : Outcome IoError Bool × Node
      stays = (ok false, n)

      go : (b : Bool) → Quiet n (if b then later else stays).1
      go true = (_, refl)
      go false = (n.calls, refl)

  pub get_invoice-Saves :
      (r : Router) (amt_msat expiry_secs : ℕ) (n : Node)
      → IsDurable l n
      → Saves n (get_invoice l r amt_msat expiry_secs >> persist_inbound l command_line)
  unfolding get_invoice tell ◌>>=◌
  get_invoice-Saves r amt_msat expiry_secs n d =
      bind-Saves (get_invoice l r amt_msat expiry_secs) _ n
        (λ a e b done. saved _ (go (r.new_invoice n.calls amt_msat expiry_secs)) done)
    where
      Changed : Node → Type 0
      Changed t =
          (cs : List Call) × (records : Payments) × (t ≡ record n { calls = cs; inbound = records })

      saved :
          (t : Node)
          → Changed t
          → (persist_inbound l command_line t).0 ≡ ok tt
          → IsDurable l (persist_inbound l command_line t).1
      saved t (cs, records, e) =
          subst
            (λ x.
              (persist_inbound l command_line x).0 ≡ ok tt
              → IsDurable l (persist_inbound l command_line x).1)
            (sym e)
            (persist_inbound-IsDurable l names command_line
              (record n { calls = cs; inbound = records }) d.outbound_saved d.same_dir)

      t0 : Node
      t0 = record n { calls = n.calls ++ create_invoice amt_msat expiry_secs ∷ [] }

      go :
          (o : Option Invoice)
          → Changed
              ((elim o as (λ _. Exec Node (Unit {0})) [
                | none ↦ pure tt
                | some i ↦ set_inbound (
                    insert i.payment_hash
                      (new_record (some i.payment_secret) (some amt_msat))
                      n.inbound)
              ])
                t0).1
      go none = (_, _, refl)
      go (some i) = (_, _, refl)

  send_offer-Saves :
      (offer id : Bytes) (amt_msat : ℕ) (n : Node)
      → IsDurable l n
      → Saves n (send_offer l offer id amt_msat)
  unfolding send_offer ask
  send_offer-Saves offer id amt_msat n d =
      bind-Saves (record_pending l id (new_record none (some amt_msat)))
        (λ _. ask l (pay_for_offer offer amt_msat id) >> pure tt) n
        (λ a e b done.
          Quiet-IsDurable _ _
            (
              (record_pending l id (new_record none (some amt_msat)) n).1.calls
                  ++ pay_for_offer offer amt_msat id ∷ [],
              refl,
            )
            (record_pending-IsDurable l names id (new_record none (some amt_msat)) n d e))

  pub pay_offer-Saves :
      (rounds : ℕ) (line : Str) (input : List (Option Str)) (offer : Bytes) (offered : Amount)
      (user : Option ℕ) (id : Bytes) (n : Node)
      → IsDurable l n
      → Saves n (pay_offer l rounds line input offer offered user id)
  unfolding pay_offer
  pay_offer-Saves rounds line input offer offered user id n d = go (agreed_amount offered user)
    where
      asked :
          (amt_msat : ℕ) (o : Option (Answer × List (Option Str)))
          → Saves n (elim o as (λ _. Exec Node (Option Bool × List (Option Str))) [
            | none ↦ pure (none, input)
            | some (yes_pay, rest) ↦ send_offer l offer id amt_msat >> pure (some true, rest)
            | some (no_skip, rest) ↦ pure (some true, rest)
            | some (end_of_input, rest) ↦ pure (some false, rest)
            | some (read_failed, rest) ↦ pure (some false, rest)
          ])
      asked amt_msat none = λ b e. d
      asked amt_msat (some (yes_pay, rest)) =
          then-Saves (send_offer l offer id amt_msat) (some true, rest) n
            (send_offer-Saves offer id amt_msat n d)
      asked amt_msat (some (no_skip, rest)) = λ b e. d
      asked amt_msat (some (end_of_input, rest)) = λ b e. d
      asked amt_msat (some (read_failed, rest)) = λ b e. d

      given :
          (amt_msat : ℕ) (user : Option ℕ)
          → Saves n (elim user as (λ _. Exec Node (Option Bool × List (Option Str))) [
            | some amt ↦ send_offer l offer id amt_msat >> pure (some true, input)
            | none ↦ elim (confirm rounds line input) [
              | none ↦ pure (none, input)
              | some (yes_pay, rest) ↦ send_offer l offer id amt_msat >> pure (some true, rest)
              | some (no_skip, rest) ↦ pure (some true, rest)
              | some (end_of_input, rest) ↦ pure (some false, rest)
              | some (read_failed, rest) ↦ pure (some false, rest)
            ]
          ])
      given amt_msat (some amt) =
          then-Saves (send_offer l offer id amt_msat) (some true, input) n
            (send_offer-Saves offer id amt_msat n d)
      given amt_msat none = asked amt_msat (confirm rounds line input)

      go :
          (o : Option ℕ)
          → Saves n (elim o as (λ _. Exec Node (Option Bool × List (Option Str))) [
            | none ↦ pure (some true, input)
            | some amt_msat ↦ elim user [
              | some amt ↦ send_offer l offer id amt_msat >> pure (some true, input)
              | none ↦ elim (confirm rounds line input) [
                | none ↦ pure (none, input)
                | some (yes_pay, rest) ↦ send_offer l offer id amt_msat >> pure (some true, rest)
                | some (no_skip, rest) ↦ pure (some true, rest)
                | some (end_of_input, rest) ↦ pure (some false, rest)
                | some (read_failed, rest) ↦ pure (some false, rest)
              ]
            ]
          ])
      go none = λ b e. d
      go (some amt_msat) = given amt_msat user
