-- ===== src/Events/Crash.antt =====
-- The files of the payment records after an event whose handler may have panicked.
use programming_lightning_bu.Base.{
  ◌≡◌, ◌≢◌, ◌⊎◌, inl, inr, refl, sym, ◌∙◌, Str, some, [], Outcome, ok, err, panic,
}
use programming_lightning_bu.Exec.{IoError, Exec, continue, ◌>>◌}
use programming_lightning_bu.FilesystemStore.Distinct.{Accepted}
use programming_lightning_bu.FilesystemStore.Write.{stored, write_atomic}
use programming_lightning_bu.Payments.{Bytes, Payments, claim, mark_sent, mark_failed}
use programming_lightning_bu.Node.{
  Ldk, Node, persist, persist_inbound, persist_outbound, handler, set_outbound,
  inbound_payments_fname, outbound_payments_fname,
}
use programming_lightning_bu.Node.Durable.{
  IsDurable, TakesNames, inbound_file, outbound_file, names_differ,
}
use programming_lightning_bu.Events.{
  Context, Event, handle_ldk_events, on_payment_claimed, on_payment_sent, on_payment_failed,
  payment_claimed, payment_sent, payment_failed, preimage_of, secret_of,
}
use programming_lightning_bu.Events.Durability.{
  SameRecords, calls_only-SameRecords, handle_ldk_events-IsDurable,
}

-- Each file holds what was in memory before, or what is in memory after.
pub record IsRecoverable (l : Ldk) (n n' : Node) : Type 0 where
  pub inbound_whole :
      (inbound_file n' ≡ some (l.encode_inbound n.inbound))
      ⊎ (inbound_file n' ≡ some (l.encode_inbound n'.inbound))
  pub outbound_whole :
      (outbound_file n' ≡ some (l.encode_outbound n.outbound))
      ⊎ (outbound_file n' ≡ some (l.encode_outbound n'.outbound))

module _ (l : Ldk) (names : TakesNames l) where
  persist-old_or_new :
      (name other : Str) (bytes : Bytes) (n : Node)
      → Accepted l.config [] [] name
      → Accepted l.config [] [] other
      → name ≢ other
      → ((stored [] [] name (persist l handler name bytes n).1.process ≡ some bytes)
          ⊎ (stored [] [] name (persist l handler name bytes n).1.process
              ≡ stored [] [] name n.process))
        × (stored [] [] other (persist l handler name bytes n).1.process
            ≡ stored [] [] other n.process)
  unfolding persist
  persist-old_or_new name other bytes n a b ne =
      let (here, there) =
        write_atomic l.config names.plain [] [] name bytes n.process [] [] other a b
          (λ d. ne d.2) in
      (elim here [ inl new ↦ inl new | inr (failed, old) ↦ inr old ], there)

  persist_inbound-IsRecoverable :
      (inbound : Payments) (n : Node)
      → IsDurable l n
      → IsRecoverable l n (persist_inbound l handler (record n { inbound = inbound })).1
  unfolding persist_inbound persist
  persist_inbound-IsRecoverable inbound n d =
      let (here, there) =
        persist-old_or_new inbound_payments_fname outbound_payments_fname (l.encode_inbound inbound)
          (record n { inbound = inbound }) names.inbound_name names.outbound_name names_differ in
      record {
        inbound_whole = elim here [ inl new ↦ inr new | inr old ↦ inl (old ∙ d.inbound_saved) ];
        outbound_whole = inl (there ∙ d.outbound_saved);
      }

  persist_outbound-IsRecoverable :
      (outbound : Payments) (n : Node)
      → IsDurable l n
      → IsRecoverable l n (persist_outbound l handler (record n { outbound = outbound })).1
  unfolding persist_outbound persist
  persist_outbound-IsRecoverable outbound n d =
      let (here, there) =
        persist-old_or_new outbound_payments_fname inbound_payments_fname
          (l.encode_outbound outbound) (record n { outbound = outbound }) names.outbound_name
          names.inbound_name (λ e. names_differ (sym e)) in
      record {
        inbound_whole = inl (there ∙ d.inbound_saved);
        outbound_whole = elim here [ inl new ↦ inr new | inr old ↦ inl (old ∙ d.outbound_saved) ];
      }

  same-IsRecoverable : (n n' : Node) → SameRecords n n' → IsDurable l n → IsRecoverable l n n'
  same-IsRecoverable n n' s d = record {
    inbound_whole = inl (rw s.process d.inbound_saved);
    outbound_whole = inl (rw s.process d.outbound_saved);
  }

  event-IsRecoverable :
      (c : Context) (e : Event) (n : Node)
      → IsDurable l n
      → IsRecoverable l n (handle_ldk_events l c e n).1
  unfolding handle_ldk_events on_payment_claimed on_payment_sent on_payment_failed
  event-IsRecoverable c (payment_claimed hash purpose amount) n d =
      persist_inbound-IsRecoverable
        (claim hash (preimage_of purpose) (secret_of purpose) amount n.inbound) n d
  event-IsRecoverable c (payment_failed hash id) n d =
      persist_outbound-IsRecoverable (mark_failed id n.outbound) n d
  event-IsRecoverable c (payment_sent preimage hash id) n d =
      sent (mark_sent id preimage n.outbound)
    where
      update : Payments → Exec Node (Unit {0})
      update out = set_outbound out >> persist_outbound l handler

      sent : (r : Outcome IoError Payments) → IsRecoverable l n (continue r update n).1
      sent (ok out) = persist_outbound-IsRecoverable out n d
      sent (err x) = record {
        inbound_whole = inl d.inbound_saved;
        outbound_whole = inl d.outbound_saved;
      }
      sent panic = record {
        inbound_whole = inl d.inbound_saved;
        outbound_whole = inl d.outbound_saved;
      }
  event-IsRecoverable c e n d = same-IsRecoverable n _ (calls_only-SameRecords l c e n refl) d

  -- If the two files hold the records in memory before an event, then after it, even if its handler
  -- panicked, each file holds either the records that were in memory before or those that are there
  -- after; and if the handler returned, both files hold the records in memory.
  pub handle_ldk_events-IsRecoverable :
      (c : Context) (e : Event) (n : Node)
      → IsDurable l n
      → IsRecoverable l n (handle_ldk_events l c e n).1
        × ((handle_ldk_events l c e n).0 ≡ ok tt → IsDurable l (handle_ldk_events l c e n).1)
  handle_ldk_events-IsRecoverable c e n d =
      (event-IsRecoverable c e n d, handle_ldk_events-IsDurable l names c e n d)
