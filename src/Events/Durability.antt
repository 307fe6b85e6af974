-- ===== src/Events/Durability.antt =====
-- After every event the files of the payment records hold the records in memory.
use programming_lightning_bu.Base.{
  ◌≡◌, refl, ◌∙◌, Bool, true, false, Option, none, some, List, [], ◌∷◌, Outcome, ok, err, panic,
  arith,
}
use programming_lightning_bu.Exec.{IoError, Exec}
use programming_lightning_bu.Payments.{
  Bytes, Payments, claim, mark_sent, mark_failed, fail_forgotten,
}
use programming_lightning_bu.Node.{Ldk, Node, persist_outbound, set_outbound}
use programming_lightning_bu.Node.Durable.{
  IsDurable, TakesNames, inbound_file, persist_inbound-IsDurable, persist_outbound-IsDurable,
}
use programming_lightning_bu.Events.{
  Context, Event, handle_ldk_events, on_payment_claimed, on_payment_sent, on_payment_failed,
  reconcile, payment_claimed, payment_sent, payment_failed, preimage_of, secret_of,
  on_funding_generation_ready, on_payment_claimable, on_open_channel_request, on_spendable_outputs,
  funding_generation_ready, payment_claimable, open_channel_request, spendable_outputs,
  bump_transaction_event, connection_needed, ignored, handler,
}
use programming_lightning_bu.Exec.{bind_rule, pure, continue, ◌>>◌}
use programming_lightning_bu.Peers.{connect_addresses, connect_peer_if_necessary}
use programming_lightning_bu.Peers.Laws.{connect_peer_if_necessary_lem}

-- Nothing but the trace of calls differs.
pub record SameRecords (n n' : Node) : Type 0 where
  pub process : n'.process ≡ n.process
  pub persister : n'.persister ≡ n.persister
  pub inbound : n'.inbound ≡ n.inbound
  pub outbound : n'.outbound ≡ n.outbound

SameRecords-refl : (n : Node) → SameRecords n n
SameRecords-refl n = record { process = refl; persister = refl; inbound = refl; outbound = refl }

SameRecords-trans : (a b c : Node) → SameRecords a b → SameRecords b c → SameRecords a c
SameRecords-trans a b c p q = record {
  process = q.process ∙ p.process;
  persister = q.persister ∙ p.persister;
  inbound = q.inbound ∙ p.inbound;
  outbound = q.outbound ∙ p.outbound;
}

abbrev pub is_payment_update : Event → Bool
is_payment_update (payment_claimed hash purpose amount) = true
is_payment_update (payment_sent preimage hash id) = true
is_payment_update (payment_failed hash id) = true
is_payment_update _ = false

module _ (l : Ldk) where
  SameRecords-IsDurable : (n n' : Node) → SameRecords n n' → IsDurable l n → IsDurable l n'
  SameRecords-IsDurable n n' s d = record {
    inbound_saved = rw (s.process, s.inbound) d.inbound_saved;
    outbound_saved = rw (s.process, s.outbound) d.outbound_saved;
    same_dir = rw (s.process, s.persister) d.same_dir;
  }

  connect_peer-SameRecords :
      (id addr : Bytes) (n : Node) → SameRecords n (connect_peer_if_necessary l id addr n).1
  connect_peer-SameRecords id addr n = rw connect_peer_if_necessary_lem (ground arith)

  connect_addresses-SameRecords :
      (id : Bytes) (addresses : List (Option (List Bytes))) (n : Node)
      → SameRecords n (connect_addresses l id addresses n).1
  unfolding connect_addresses
  connect_addresses-SameRecords id [] n = SameRecords-refl n
  connect_addresses-SameRecords id (none ∷ rest) n = connect_addresses-SameRecords id rest n
  connect_addresses-SameRecords id (some [] ∷ rest) n = connect_addresses-SameRecords id rest n
  connect_addresses-SameRecords id (some (a ∷ more) ∷ rest) n =
      let first = connect_peer-SameRecords id a n in
      let t = (connect_peer_if_necessary l id a n).1 in
      let second = connect_addresses-SameRecords id (some more ∷ rest) t in
      bind_rule (λ (_, t). SameRecords n t) (connect_peer_if_necessary l id a) _ n
        (λ done e. tried done t first (SameRecords-trans n t _ first second)) (λ _ _. first)
        (λ _. first)
    where
      tried :
          (done : Bool) (t : Node)
          → SameRecords n t
          → SameRecords n (connect_addresses l id (some more ∷ rest) t).1
          → SameRecords n
              ((elim done as (λ _. Exec Node (Unit {0})) [
                | true ↦ pure tt
                | false ↦ connect_addresses l id (some more ∷ rest)
              ])
                t).1
      tried true t first second = first
      tried false t first second = second

  pub calls_only-SameRecords :
      (c : Context) (e : Event) (n : Node)
      → is_payment_update e ≡ false
      → SameRecords n (handle_ldk_events l c e n).1
  unfolding handle_ldk_events on_funding_generation_ready on_payment_claimable
      on_open_channel_request on_spendable_outputs
  calls_only-SameRecords c (funding_generation_ready i p v s) n h = ground arith
  calls_only-SameRecords c (payment_claimable hash purpose amount) n h = ground arith
  calls_only-SameRecords c (open_channel_request i p) n h = ground arith
  calls_only-SameRecords c (spendable_outputs outputs i) n h = ground arith
  calls_only-SameRecords c (bump_transaction_event b) n h = record {
    process = refl;
    persister = refl;
    inbound = refl;
    outbound = refl;
  }
  calls_only-SameRecords c (connection_needed i addresses) n h =
      connect_addresses-SameRecords i addresses n
  calls_only-SameRecords c ignored n h = SameRecords-refl n
  calls_only-SameRecords c (payment_claimed hash purpose amount) n h = absurd (cc)
  calls_only-SameRecords c (payment_sent preimage hash id) n h = absurd (cc)
  calls_only-SameRecords c (payment_failed hash id) n h = absurd (cc)

module _ (l : Ldk) (names : TakesNames l) where
  -- If the two files held the records in memory before an event, they hold them after it, whatever
  -- the event is, unless its handler panicked.
  pub handle_ldk_events-IsDurable :
      (c : Context) (e : Event) (n : Node)
      → IsDurable l n
      → (handle_ldk_events l c e n).0 ≡ ok tt
      → IsDurable l (handle_ldk_events l c e n).1
  unfolding handle_ldk_events on_payment_claimed on_payment_sent on_payment_failed
  handle_ldk_events-IsDurable c (payment_claimed hash purpose amount) n d k =
      let claimed = claim hash (preimage_of purpose) (secret_of purpose) amount n.inbound in
      persist_inbound-IsDurable l names handler (record n { inbound = claimed }) d.outbound_saved
        d.same_dir k
  handle_ldk_events-IsDurable c (payment_failed hash id) n d k =
      persist_outbound-IsDurable l names handler (record n { outbound = mark_failed id n.outbound })
        d.inbound_saved d.same_dir k
  handle_ldk_events-IsDurable c (payment_sent preimage hash id) n d k =
      sent (mark_sent id preimage n.outbound) refl k
    where
      update : Payments → Exec Node (Unit {0})
      update out = set_outbound out >> persist_outbound l handler

      sent :
          (r : Outcome IoError Payments)
          → mark_sent id preimage n.outbound ≡ r
          → (continue r update n).0 ≡ ok tt
          → IsDurable l (continue r update n).1
      sent (ok out) e k =
          persist_outbound-IsDurable l names handler (record n { outbound = out }) d.inbound_saved
            d.same_dir k
      sent (err x) e k = absurd (cc)
      sent panic e k = absurd (cc)
  handle_ldk_events-IsDurable c e n d k =
      SameRecords-IsDurable l n _ (calls_only-SameRecords l c e n refl) d

  -- If the file of the inbound records held them before the reconciliation at start-up, both stores
  -- act on one directory, and it returned, both files hold the records in memory after it.
  pub reconcile-IsDurable :
      (recent : List Bytes) (n : Node)
      → inbound_file n ≡ some (l.encode_inbound n.inbound)
      → n.persister.data_dir ≡ n.process.store.data_dir
      → (reconcile l recent n).0 ≡ ok tt
      → IsDurable l (reconcile l recent n).1
  unfolding reconcile
  reconcile-IsDurable recent n saved same e =
      persist_outbound-IsDurable l names handler
        (record n { outbound = fail_forgotten recent n.outbound }) saved same e
