-- ===== src/Node/Durable.antt =====
-- The files of the payment records against the records in memory.
use programming_lightning_bu.Base.{◌≡◌, ◌≢◌, sym, ap, ◌∙◌, Str, Option, some, [], ok, arith}
use programming_lightning_bu.FilesystemStore.Paths.{IsPlain}
use programming_lightning_bu.FilesystemStore.Distinct.{Accepted}
use programming_lightning_bu.FilesystemStore.Write.{stored, write_atomic, data_dir-write}
use programming_lightning_bu.FilesystemStore.{write, dest_file_path}
use programming_lightning_bu.Fs.Laws.{content}
use programming_lightning_bu.Payments.{Bytes}
use programming_lightning_bu.Node.{
  Ldk, Node, Owner, handler, command_line, process_of, persist, inbound_payments_fname,
  outbound_payments_fname, persist_inbound, persist_outbound,
}

abbrev pub inbound_file : Node → Option Bytes
inbound_file n = stored [] [] inbound_payments_fname n.process

abbrev pub outbound_file : Node → Option Bytes
outbound_file n = stored [] [] outbound_payments_fname n.process

-- Both files hold the records in memory, and both stores act on one directory.
pub record IsDurable (l : Ldk) (n : Node) : Type 0 where
  pub inbound_saved : inbound_file n ≡ some (l.encode_inbound n.inbound)
  pub outbound_saved : outbound_file n ≡ some (l.encode_outbound n.outbound)
  pub same_dir : n.persister.data_dir ≡ n.process.store.data_dir

-- LDK's constants let the two names pass.
pub record TakesNames (l : Ldk) : Type 0 where
  pub plain : IsPlain l.config
  pub inbound_name : Accepted l.config [] [] inbound_payments_fname
  pub outbound_name : Accepted l.config [] [] outbound_payments_fname

pub names_differ : inbound_payments_fname ≢ outbound_payments_fname
names_differ e = cc

-- A payment file in the directory that the handler's store acts on.
abbrev payment_file : Str → Node → Option Bytes
payment_file name n = stored [] [] name n.process

module _ (l : Ldk) (names : TakesNames l) where
  -- A write by either owner that does not panic saves the bytes and leaves the other file alone.
  persist-saved :
      (o : Owner) (name other : Str) (bytes : Bytes) (n : Node)
      → Accepted l.config [] [] name
      → Accepted l.config [] [] other
      → name ≢ other
      → n.persister.data_dir ≡ n.process.store.data_dir
      → (persist l o name bytes n).0 ≡ ok tt
      → (payment_file name (persist l o name bytes n).1 ≡ some bytes)
        × (payment_file other (persist l o name bytes n).1 ≡ payment_file other n)
        × ((persist l o name bytes n).1.persister.data_dir
            ≡ (persist l o name bytes n).1.process.store.data_dir)
  unfolding persist
  persist-saved handler name other bytes n a b ne same e =
      let w =
        write_atomic l.config names.plain [] [] name bytes n.process [] [] other a b
          (λ d. ne d.2) in
      let dir = data_dir-write l.config names.plain [] [] name bytes n.process in
      (ground (arith, w.0, e), w.1, same ∙ sym dir)
  persist-saved command_line name other bytes n a b ne same e =
      let p = process_of command_line n in
      let w = write_atomic l.config names.plain [] [] name bytes p [] [] other a b (λ d. ne d.2) in
      let dir = data_dir-write l.config names.plain [] [] name bytes p in
      let w' = (write l.config [] [] name bytes p).1.world in
      (
        ap (λ d. content (dest_file_path d [] [] name) w') (sym (dir ∙ same))
            ∙ ground (arith, w.0, e),
        ap (λ d. content (dest_file_path d [] [] other) w') (sym (dir ∙ same))
            ∙ w.1
            ∙ ap (λ d. content (dest_file_path d [] [] other) n.process.world) same,
        dir ∙ same,
      )

  pub persist_inbound-IsDurable :
      (o : Owner) (n : Node)
      → outbound_file n ≡ some (l.encode_outbound n.outbound)
      → n.persister.data_dir ≡ n.process.store.data_dir
      → (persist_inbound l o n).0 ≡ ok tt
      → IsDurable l (persist_inbound l o n).1
  unfolding persist_inbound
  persist_inbound-IsDurable handler n saved same e =
      let (here, there, dir) =
        persist-saved handler inbound_payments_fname outbound_payments_fname
          (l.encode_inbound n.inbound) n names.inbound_name names.outbound_name names_differ same
          e in
      record { inbound_saved = here; outbound_saved = there ∙ saved; same_dir = dir }
  persist_inbound-IsDurable command_line n saved same e =
      let (here, there, dir) =
        persist-saved command_line inbound_payments_fname outbound_payments_fname
          (l.encode_inbound n.inbound) n names.inbound_name names.outbound_name names_differ same
          e in
      record { inbound_saved = here; outbound_saved = there ∙ saved; same_dir = dir }

  pub persist_outbound-IsDurable :
      (o : Owner) (n : Node)
      → inbound_file n ≡ some (l.encode_inbound n.inbound)
      → n.persister.data_dir ≡ n.process.store.data_dir
      → (persist_outbound l o n).0 ≡ ok tt
      → IsDurable l (persist_outbound l o n).1
  unfolding persist_outbound
  persist_outbound-IsDurable handler n saved same e =
      let (here, there, dir) =
        persist-saved handler outbound_payments_fname inbound_payments_fname
          (l.encode_outbound n.outbound) n names.outbound_name names.inbound_name
          (λ d. names_differ (sym d)) same e in
      record { inbound_saved = there ∙ saved; outbound_saved = here; same_dir = dir }
  persist_outbound-IsDurable command_line n saved same e =
      let (here, there, dir) =
        persist-saved command_line outbound_payments_fname inbound_payments_fname
          (l.encode_outbound n.outbound) n names.outbound_name names.inbound_name
          (λ d. names_differ (sym d)) same e in
      record { inbound_saved = there ∙ saved; outbound_saved = here; same_dir = dir }
