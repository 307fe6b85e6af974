-- ===== src/Sweep/Laws.antt =====
-- When the migration cannot end well.
use programming_lightning_bu.Base.{
  ◌+◌, ℕ, suc, ◌≡◌, ◌≢◌, true, Option, none, some, List, [], ◌∷◌, length, Outcome, ok, err, panic,
  arith, list_eq, nat_eq, if◌then◌else◌, ◌∙◌,
}
use programming_lightning_bu.Base.Dict.{Dict, lookup}
use programming_lightning_bu.Exec.{IoError, Exec, ◌>>=◌, lift, bind_rule}
use programming_lightning_bu.FilePath.{FilePath}
use programming_lightning_bu.Fs.{
  Node as FileNode, World, Io, node, exists, read_dir, next_entry, read_file, remove_dir_all,
  without,
}
use programming_lightning_bu.Payments.{Bytes}
use programming_lightning_bu.Node.{Ldk, Node, track_spendable_outputs, ask}
use programming_lightning_bu.Sweep.{
  pending_spendables_dir, spendables_dir, attempt_io, must, remove_dirs, track_outputs, read_listed,
  read_descriptors, read_spendables, migrate_pending, migrate_spendables,
  migrate_deprecated_spendable_outputs, any_exists,
}

lookup-without :
    (p q : FilePath) (disk : Dict FilePath FileNode)
    → lookup q disk ≡ none
    → lookup q (without p disk) ≡ none
unfolding without lookup
lookup-without p q [] e = e
lookup-without p q ((r, n) ∷ disk) e = ground (arith, e, lookup-without p q disk)

module _ (p : FilePath) where
  abbrev Absent : Node → Type 0
  Absent n = node p n.process.world ≡ none

  -- A call of the file system that does not make the path.
  abbrev Spares : {A : Type 0} → Io A → Type 0
  Spares m = (w : World) → node p w ≡ none → node p (m w).1 ≡ none

  must-Absent : {A : Type 0} (m : Io A) (n : Node) → Spares m → Absent n → Absent (must m n).1
  unfolding must
  must-Absent m n h e = h n.process.world e

  next_entry-Spares : Spares next_entry
  unfolding next_entry
  next_entry-Spares w e = ground (arith, e)

  read_file-Spares : (q : FilePath) → Spares (read_file q)
  unfolding read_file
  read_file-Spares q w e = ground (arith, e)

  read_dir-Spares : (q : FilePath) → Spares (read_dir q)
  unfolding read_dir
  read_dir-Spares q w e = ground (arith, e)

  remove_dir_all-Spares : (q : FilePath) → Spares (remove_dir_all q)
  unfolding remove_dir_all
  remove_dir_all-Spares q w e = ground (arith, e, lookup-without q p w.disk)

  -- Removing what is not there panics.
  must_remove-ne-ok : (n : Node) → Absent n → (must (remove_dir_all p) n).0 ≢ ok tt
  unfolding must remove_dir_all
  must_remove-ne-ok n e k = ground (arith, e, k)

  read_spendables-Absent :
      (read : Bytes → Option (Bytes × Bytes)) (files : List FilePath) (outputs : List Bytes)
      (n : Node)
      → Absent n
      → Absent (read_spendables read files outputs n).1
  unfolding read_spendables
  read_spendables-Absent read [] outputs n e = e
  read_spendables-Absent read (f ∷ files) outputs n e =
      let e1 = must-Absent next_entry n next_entry-Spares e in
      let n1 = (must next_entry n).1 in
      let e2 = must-Absent (read_file f) n1 (read_file-Spares f) e1 in
      bind_rule (λ (_, t). Absent t) (must next_entry) _ n
        (λ _ _.
          bind_rule (λ (_, t). Absent t) (must (read_file f)) _ n1
            (λ bytes _.
              bind_rule (λ (_, t). Absent t)
                (lift (read_descriptors read (suc (length bytes)) bytes outputs)) _
                (must (read_file f) n1).1
                (λ more _. read_spendables-Absent read files more (must (read_file f) n1).1 e2)
                (λ _ _. e2) (λ _. e2))
            (λ _ _. e2) (λ _. e2))
        (λ _ _. e1) (λ _. e1)

  -- A chain that cannot return behind a first part.
  never_ok :
      {A : Type 0} (m : Exec Node A) (f : A → Exec Node (Unit {0})) (n : Node)
      → Absent (m n).1
      → ((a : A) (t : Node) → Absent t → (f a t).0 ≢ ok tt)
      → ((m >>= f) n).0 ≢ ok tt
  never_ok m f n e h =
      bind_rule (λ (r, _). r ≢ ok tt) m f n (λ a _. h a (m n).1 e) (λ x _ k. cc k) (λ _ k. cc k)

module _ (l : Ldk) (encode : Bytes → Bytes) (read : Bytes → Option (Bytes × Bytes)) (random : Bytes)
    (height : ℕ) (d : FilePath) where
  remove_dirs-ne-ok :
      (n : Node)
      → Absent (pending_spendables_dir d) n
      → (remove_dirs l encode read random height d n).0 ≢ ok tt
  unfolding remove_dirs
  remove_dirs-ne-ok n e =
      let p = pending_spendables_dir d in
      never_ok p (must (remove_dir_all (spendables_dir d))) (λ _. must (remove_dir_all p)) n
        (must-Absent p (remove_dir_all (spendables_dir d)) n
          (remove_dir_all-Spares p (spendables_dir d)) e)
        (λ _. must_remove-ne-ok p)

  track_outputs-ne-ok :
      (outputs : List Bytes) (n : Node)
      → Absent (pending_spendables_dir d) n
      → (track_outputs l encode read random height d outputs n).0 ≢ ok tt
  unfolding track_outputs ask
  track_outputs-ne-ok outputs n e =
      let p = pending_spendables_dir d in
      never_ok p (ask l (track_spendable_outputs outputs none (some (height + 2))))
        (λ tracked. lift (if tracked then ok tt else panic) >>= λ _.
          remove_dirs l encode read random height d)
        n e
        (λ tracked t e'.
          never_ok p (lift (if tracked then ok tt else panic))
            (λ _. remove_dirs l encode read random height d) t e' (λ _. remove_dirs-ne-ok))

  listed-Absent :
      (r : Outcome IoError (List FilePath)) (t : Node)
      → Absent (pending_spendables_dir d) t
      → Absent (pending_spendables_dir d) (read_listed read r t).1
  unfolding read_listed
  listed-Absent (ok files) t e = read_spendables-Absent (pending_spendables_dir d) read files [] t e
  listed-Absent (err x) t e = e
  listed-Absent panic t e = e

  spendables-ne-ok :
      (n : Node)
      → Absent (pending_spendables_dir d) n
      → (migrate_spendables l encode read random height d n).0 ≢ ok tt
  unfolding migrate_spendables attempt_io
  spendables-ne-ok n e =
      let p = pending_spendables_dir d in
      never_ok p (attempt_io (read_dir (spendables_dir d)))
        (λ r. read_listed read r >>= track_outputs l encode read random height d) n
        (read_dir-Spares p (spendables_dir d) n.process.world e)
        (λ r t e'.
          never_ok p (read_listed read r) (track_outputs l encode read random height d) t
            (listed-Absent r t e') track_outputs-ne-ok)

  any_exists-disk : (d : FilePath) (w : World) (p : FilePath) → node p (any_exists d w).1 ≡ node p w
  unfolding any_exists exists ◌>>=◌
  any_exists-disk d w p = ground arith

  pending-Absent :
      (n : Node)
      → Absent (pending_spendables_dir d) n
      → Absent (pending_spendables_dir d) (migrate_pending l encode read random height d n).1
  unfolding migrate_pending attempt_io read_dir
  pending-Absent n e = ground (arith, e)

  -- Where there is no directory of pending outputs, but one of the two other directories is seen, the
  -- migration does not return, whatever is in it and whichever later calls of the file system fail.
  migrate-ne-ok :
      (n : Node)
      → node (pending_spendables_dir d) n.process.world ≡ none
      → (any_exists d n.process.world).0 ≡ ok true
      → (migrate_deprecated_spendable_outputs l encode read random height d n).0 ≢ ok tt
  unfolding migrate_deprecated_spendable_outputs must
  migrate-ne-ok n e there k =
      let p = pending_spendables_dir d in
      let t = record n {
        process = record n.process { world = (any_exists d n.process.world).1 };
      } in
      let absent : Absent p t = any_exists-disk d n.process.world p ∙ e in
      let after = pending-Absent t absent in
      never_ok p (migrate_pending l encode read random height d)
        (λ _. migrate_spendables l encode read random height d) t after (λ _. spendables-ne-ok)
        (ground (arith, there, k))
