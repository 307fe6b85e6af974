-- ===== src/Cli/Durability.antt =====
-- The commands that pay leave the records saved.
use programming_lightning_bu.Base.{
  ℕ, ◌≡◌, refl, sym, Bool, true, false, Option, none, some, [], ◌∷◌, ◌++◌, ok, arith, if◌then◌else◌,
  unwrap, list_eq, nat_eq, subst,
}
use programming_lightning_bu.Base.Dict.{insert, modify, lookup}
use programming_lightning_bu.Exec.{Exec, ◌>>=◌, ◌>>◌, pure, lift, bind_rule}
use programming_lightning_bu.Payments.{Bytes, PaymentInfo, set_status, failed}
use programming_lightning_bu.Node.{
  Ldk, Node, Call, send_spontaneous_payment, send_payment as send_payment_call, ask,
  persist_outbound, set_outbound, command_line,
}
use programming_lightning_bu.Node.Durable.{IsDurable, TakesNames, persist_outbound-IsDurable}
use programming_lightning_bu.Cli.Pay.{
  Invoice, Router, new_record, pay_params, record_failure, record_pending, pay, send_payment,
  keysend,
}

module _ (l : Ldk) (names : TakesNames l) where
  pub bind-IsDurable :
      {A B : Type 0} (m : Exec Node A) (f : A → Exec Node B) (b : B) (n : Node)
      → ((a : A) → (m n).0 ≡ ok a → (f a (m n).1).0 ≡ ok b → IsDurable l (f a (m n).1).1)
      → ((m >>= f) n).0 ≡ ok b
      → IsDurable l ((m >>= f) n).1
  bind-IsDurable m f b n go =
      bind_rule (λ (r, t). r ≡ ok b → IsDurable l t) m f n go (λ e _ p. absurd (cc p))
        (λ _ p. absurd (cc p))

  pub record_pending-IsDurable :
      (id : Bytes) (info : PaymentInfo) (n : Node)
      → IsDurable l n
      → (record_pending l id info n).0 ≡ ok tt
      → IsDurable l (record_pending l id info n).1
  unfolding record_pending
  record_pending-IsDurable id info n d e =
      persist_outbound-IsDurable l names command_line
        (record n { outbound = insert id info n.outbound }) d.inbound_saved d.same_dir e

  record_failure-IsDurable :
      (id : Bytes) (n : Node)
      → IsDurable l n
      → (record_failure l id n).0 ≡ ok tt
      → IsDurable l (record_failure l id n).1
  unfolding record_failure
  record_failure-IsDurable id n d =
      bind-IsDurable (lift (unwrap (lookup id n.outbound)))
        (λ _.
          set_outbound (modify id (set_status failed) n.outbound)
          >> persist_outbound l command_line)
        tt n
        (λ a e done.
          persist_outbound-IsDurable l names command_line
            (record n { outbound = modify id (set_status failed) n.outbound }) d.inbound_saved
            d.same_dir done)

  called-IsDurable :
      (c : Call) (n : Node) → IsDurable l n → IsDurable l (record n { calls = n.calls ++ c ∷ [] })
  called-IsDurable c n d = record {
    inbound_saved = d.inbound_saved;
    outbound_saved = d.outbound_saved;
    same_dir = d.same_dir;
  }

  settled :
      (id : Bytes) (x : Exec Node (Unit {0})) (sent : Bool) (t : Node)
      → (x t).1 ≡ t
      → IsDurable l t
      → ((if sent then x else record_failure l id) t).0 ≡ ok tt
      → IsDurable l ((if sent then x else record_failure l id) t).1
  settled id x true t same d e = subst (IsDurable l) (sym same) d
  settled id x false t same d e = record_failure-IsDurable id t d e

  -- If the two files held the records in memory before `keysend`, and it returned, they hold them
  -- after it.
  pub keysend-IsDurable :
      (sha256 : Bytes → Bytes) (payee : Bytes) (amt_msat : ℕ) (preimage : Bytes) (n : Node)
      → IsDurable l n
      → (keysend l sha256 payee amt_msat preimage n).0 ≡ ok tt
      → IsDurable l (keysend l sha256 payee amt_msat preimage n).1
  unfolding keysend ask
  keysend-IsDurable sha256 payee amt_msat preimage n d =
      let id = sha256 preimage in
      let info = new_record none (some amt_msat) in
      let call = send_spontaneous_payment preimage payee amt_msat in
      let m = (record_pending l id info n).1 in
      bind-IsDurable (record_pending l id info) _ tt n (λ a e done.
        settled id (pure tt) (l.accepts m.calls call) (record m { calls = m.calls ++ call ∷ [] })
          refl (called-IsDurable call m (record_pending-IsDurable id info n d e)) done)

  accepted-IsDurable :
      (i : Invoice) (params : Bytes) (n : Node)
      → IsDurable l n
      → (pay l i params n).0 ≡ ok tt
      → IsDurable l (pay l i params n).1
  unfolding pay ask
  accepted-IsDurable i params n d =
      let id = i.payment_hash in
      let info = new_record (some i.payment_secret) i.amount_milli_satoshis in
      let call = send_payment_call id params in
      let m = (record_pending l id info n).1 in
      let t = record m { calls = m.calls ++ call ∷ [] } in
      bind-IsDurable (record_pending l id info) _ tt n (λ a e done.
        settled id (lift (unwrap i.amount_milli_satoshis) >> pure tt) (l.accepts m.calls call) t
          (ground arith) (called-IsDurable call m (record_pending-IsDurable id info n d e)) done)

  -- If the two files held the records in memory before `send_payment`, and it returned, they hold
  -- them after it, whether LDK accepted the payment or not.
  pub send_payment-IsDurable :
      (r : Router) (i : Invoice) (required : Option ℕ) (n : Node)
      → IsDurable l n
      → (send_payment l r i required n).0 ≡ ok tt
      → IsDurable l (send_payment l r i required n).1
  unfolding send_payment
  send_payment-IsDurable r i required n d = go (pay_params r i required)
    where
      go :
          (o : Option Bytes)
          → ((elim o as (λ _. Exec Node (Unit {0})) [ none ↦ pure tt | some p ↦ pay l i p ]) n).0
            ≡ ok tt
          → IsDurable l
              ((elim o as (λ _. Exec Node (Unit {0})) [ none ↦ pure tt | some p ↦ pay l i p ]) n).1
      go none e = d
      go (some params) e = accepted-IsDurable i params n d e
