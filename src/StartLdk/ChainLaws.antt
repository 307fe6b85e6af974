-- ===== src/StartLdk/ChainLaws.antt =====
-- Which monitors a start hands to LDK, and from where the listeners are brought to the tip.
use programming_lightning_bu.Base.{
  ◌≡◌, refl, sym, ap, ◌∙◌, Bool, true, false, Option, none, some, List, [], ◌∷◌, ◌++◌, map, Outcome,
  ok, err, panic, unwrap,
}
use mathlib.Core.List.{append_assoc, append-nil}
use programming_lightning_bu.Exec.{IoError, Exec, pure, lift, ◌>>=◌, >>=-eq-ok}
use programming_lightning_bu.FilePath.{FilePath}
use programming_lightning_bu.Fs.{open_read, read_file, World}
use programming_lightning_bu.Payments.{Bytes}
use programming_lightning_bu.Node.{Ldk, Node, Call, synchronize_listeners, watch_channel, ask, tell}
use programming_lightning_bu.StartLdk.Chain.{
  Chain, chain_listeners, sync_to_tip, watch_monitors, manager_path, load_channel_manager,
  unwrap_io, unwrapped,
}

ok_injective : {A : Type 0} {a b : A} → ◌≡◌ {A = Outcome IoError A} (ok a) (ok b) → a ≡ b
ok_injective e = cc

of_unwrapped : {A : Type 0} {a : A} (r : Outcome IoError A) → unwrapped r ≡ ok a → r ≡ ok a
of_unwrapped (ok a) e = e
of_unwrapped (err x) e = absurd (cc)
of_unwrapped panic e = absurd (cc)

module _ {M S : Type 0} (c : Chain M S) where
  abbrev pub watches : List (Bytes × M) → List Call
  watches monitors = map (λ (blockhash, m). watch_channel (c.funding_txo m)) monitors

  -- A loop that ended has handed over every monitor, in order.
  pub calls-watch_monitors :
      (l : Ldk) (monitors : List (Bytes × M)) (n : Node)
      → (watch_monitors c l monitors n).0 ≡ ok tt
      → (watch_monitors c l monitors n).1 ≡ record n { calls = n.calls ++ watches monitors }
  unfolding watch_monitors ask ◌>>=◌
  calls-watch_monitors l [] n h = ap (λ cs. record n { calls = cs }) (sym (append-nil n.calls))
  calls-watch_monitors l ((blockhash, m) ∷ monitors) n h =
      go (l.accepts n.calls (watch_channel (c.funding_txo m)))
        (λ e.
          calls-watch_monitors l monitors t e
          ∙ ap (λ cs. record n { calls = cs })
              (append_assoc n.calls (watch_channel (c.funding_txo m) ∷ []) (watches monitors)))
        h
    where
      t : Node
      t = record n { calls = n.calls ++ watch_channel (c.funding_txo m) ∷ [] }

      next : Bool → Outcome IoError (Unit {0}) × Node
      next b =
          (elim b as (λ _. Exec Node (Unit {0})) [
            | true ↦ watch_monitors c l monitors
            | false ↦ lift panic
          ])
            t

      end : Node
      end = record n { calls = n.calls ++ watches ((blockhash, m) ∷ monitors) }

      go :
          (b : Bool)
          → ((watch_monitors c l monitors t).0 ≡ ok tt → (watch_monitors c l monitors t).1 ≡ end)
          → (next b).0 ≡ ok tt
          → (next b).1 ≡ end
      go true rest e = rest e
      go false rest e = absurd (cc)

  pub sync_to_tip-fresh :
      (h s tip : Bytes) (monitors : List (Bytes × M)) (n : Node)
      → sync_to_tip c false h s tip monitors n ≡ (ok (tip, []), n)
  unfolding sync_to_tip
  sync_to_tip-fresh h s tip monitors n = refl

  pub sync_to_tip-restart :
      (h s tip : Bytes) (monitors : List (Bytes × M)) (n : Node) (r : Bytes × List (Bytes × M))
      → (sync_to_tip c true h s tip monitors n).0 ≡ ok r
      → (r.1 ≡ monitors)
        × ((sync_to_tip c true h s tip monitors n).1 ≡ record n {
          calls = n.calls ++ synchronize_listeners (chain_listeners c h s monitors) ∷ [];
        })
  unfolding sync_to_tip tell ◌>>=◌
  sync_to_tip-restart h s tip monitors n r e =
      go (c.synchronize n.calls (chain_listeners c h s monitors)) e
    where
      t : Node
      t = record n {
        calls = n.calls ++ synchronize_listeners (chain_listeners c h s monitors) ∷ [];
      }

      reached : Option Bytes → Outcome IoError (Bytes × List (Bytes × M)) × Node
      reached o = (lift (unwrap o) >>= λ tip. pure (tip, monitors)) t

      go : (o : Option Bytes) → (reached o).0 ≡ ok r → (r.1 ≡ monitors) × ((reached o).1 ≡ t)
      go none e = absurd (cc)
      go (some tip) e = (ap (λ (p : Bytes × List (Bytes × M)). p.1) (ok_injective (sym e)), refl)

  -- Opening the file of the channel manager, and reading it then.
  abbrev pub opening : FilePath → World → Outcome IoError (Unit {0}) × World
  opening dir = open_read (manager_path dir)

  abbrev pub manager_bytes : FilePath → World → Outcome IoError Bytes
  manager_bytes dir w = (read_file (manager_path dir) (opening dir w).1).0

  pub load_channel_manager-fresh :
      (dir : FilePath) (monitors : List (Bytes × M)) (tip : Bytes) (w : World) (e : IoError)
      → (opening dir w).0 ≡ err e
      → load_channel_manager c dir monitors tip w ≡ (ok (false, tip, monitors), (opening dir w).1)
  unfolding load_channel_manager
  load_channel_manager-fresh dir monitors tip w e cannot_open = cc

  restarted :
      (o : Option (Bytes × List (Bytes × M))) (r : Bool × Bytes × List (Bytes × M)) (w : World)
      → ((lift (unwrap o) >>= λ (h, ms). pure (true, h, ms)) w).0 ≡ ok r
      → (r.0 ≡ true) × (o ≡ some (r.1, r.2))
  unfolding ◌>>=◌
  restarted none r w e = absurd (cc)
  restarted (some (h, ms)) r w e =
      let same = ok_injective e in
      (
        ap (λ (x : Bool × Bytes × List (Bytes × M)). x.0) (sym same),
        ap (λ (x : Bool × Bytes × List (Bytes × M)). some (x.1, x.2)) same,
      )

  pub load_channel_manager-restart :
      (dir : FilePath) (monitors : List (Bytes × M)) (tip : Bytes) (w : World)
      (r : Bool × Bytes × List (Bytes × M))
      → (opening dir w).0 ≡ ok tt
      → (load_channel_manager c dir monitors tip w).0 ≡ ok r
      → (content : Bytes) × (manager_bytes dir w ≡ ok content)
        × (r.0 ≡ true)
        × (c.read_manager content monitors ≡ some (r.1, r.2))
  unfolding load_channel_manager ◌>>=◌
  load_channel_manager-restart dir monitors tip w r opened done =
      let decoded : Bytes → Exec World (Bool × Bytes × List (Bytes × M)) = λ content.
        lift (unwrap (c.read_manager content monitors)) >>= λ (h, ms). pure (true, h, ms) in
      let reading : Exec World Bytes = unwrap_io (read_file (manager_path dir)) in
      let chosen : load_channel_manager c dir monitors tip w
          ≡ (reading >>= decoded) (opening dir w).1 =
        cc in
      let (content, have, q) = >>=-eq-ok reading decoded (opening dir w).1 (
        ap (λ (x : Outcome IoError (Bool × Bytes × List (Bytes × M)) × World). x.0) (sym chosen)
        ∙ done) in
      let (fresh, found) =
        restarted (c.read_manager content monitors) r (reading (opening dir w).1).1 (
          ap (λ (x : Outcome IoError (Bool × Bytes × List (Bytes × M)) × World). x.0)
            (sym (chosen ∙ q))
          ∙ done) in
      (content, of_unwrapped (manager_bytes dir w) have, fresh, found)
