-- ===== src/StartLdk/RestoreLaws.antt =====
-- A fresh start and a restart.
use programming_lightning_bu.Base.{
  ◌≡◌, refl, sym, ap, ◌∙◌, subst, Bool, true, false, some, List, [], ◌∷◌, ◌++◌, Outcome, ok, err,
  panic,
}
use mathlib.Core.List.{append_assoc}
use programming_lightning_bu.Exec.{IoError, Exec, lift, continue, ◌>>=◌, ◌>>◌, >>=-eq-ok}
use programming_lightning_bu.FilePath.{FilePath}
use programming_lightning_bu.Fs.{World}
use programming_lightning_bu.FilesystemStore.{Process, read, on_world}
use programming_lightning_bu.Payments.{Bytes}
use programming_lightning_bu.Node.{Ldk, Node, Call, synchronize_listeners}
use programming_lightning_bu.StartLdk.{Sweeper, output_sweeper}
use programming_lightning_bu.StartLdk.Chain.{
  Chain, unwrapped, unwrap_io, chain_listeners, sync_to_tip, watch_monitors, load_channel_manager,
}
use programming_lightning_bu.StartLdk.ChainLaws.{
  watches, calls-watch_monitors, sync_to_tip-restart, opening, manager_bytes,
  load_channel_manager-fresh, load_channel_manager-restart,
}
use programming_lightning_bu.StartLdk.Prepare.{
  Saved, on_process, sweeper_blockhash, catch_up, from_tip, restore,
}

module _ {M S : Type 0} (l : Ldk) (c : Chain M S) (saved : Saved) where
  abbrev onward : Bool → Bytes → Bytes → List (Bytes × M) → Bytes → Exec Node (Unit {0})
  onward restarting h tip monitors sweeper =
      sync_to_tip c restarting h sweeper tip monitors >>= λ (tip, watched).
      watch_monitors c l watched

  -- Reading the sweeper's key in the store of the node.
  abbrev pub read_sweeper_key : Node → Outcome IoError Bytes × Process
  read_sweeper_key n =
      read l.config saved.sweeper_primary saved.sweeper_secondary saved.sweeper_key n.process

  -- The sweeper of a start, and the node behind reading it.
  record Found (n : Node) (restarting : Bool) (h tip : Bytes) (monitors : List (Bytes × M))
      : Type 0 where
    sweeper : Sweeper S
    settled : output_sweeper c.read_sweeper (read_sweeper_key n).0 ≡ ok sweeper
    behind : Node
    same_calls : behind.calls ≡ n.calls
    rest :
        catch_up l c saved restarting h tip monitors n
        ≡ onward restarting h tip monitors (sweeper_blockhash l c saved sweeper n.calls) behind

  found :
      (n : Node) (restarting : Bool) (h tip : Bytes) (monitors : List (Bytes × M))
      → (catch_up l c saved restarting h tip monitors n).0 ≡ ok tt
      → Found n restarting h tip monitors
  unfolding catch_up ◌>>=◌
  found n restarting h tip monitors e = go (output_sweeper c.read_sweeper asked.0) refl e
    where
      asked : Outcome IoError Bytes × Process
      asked = read_sweeper_key n

      t : Node
      t = record n { process = asked.1 }

      after : Outcome IoError (Sweeper S) → Outcome IoError (Unit {0}) × Node
      after r =
          (lift r >>= λ sweeper.
          onward restarting h tip monitors (sweeper_blockhash l c saved sweeper n.calls))
            t

      go :
          (r : Outcome IoError (Sweeper S))
          → output_sweeper c.read_sweeper asked.0 ≡ r
          → (after (output_sweeper c.read_sweeper asked.0)).0 ≡ ok tt
          → Found n restarting h tip monitors
      go (ok sweeper) same e = record {
        sweeper = sweeper;
        settled = same;
        behind = t;
        same_calls = refl;
        rest = ap after same;
      }
      go (err x) same e = absurd (cc)
      go panic same e = absurd (cc)

  catch_up-fresh :
      (h tip : Bytes) (monitors : List (Bytes × M)) (n : Node)
      → (catch_up l c saved false h tip monitors n).0 ≡ ok tt
      → (catch_up l c saved false h tip monitors n).1.calls ≡ n.calls
  unfolding sync_to_tip watch_monitors ◌>>=◌
  catch_up-fresh h tip monitors n e =
      let f = found n false h tip monitors e in
      ap (λ (r : Outcome IoError (Unit {0}) × Node). r.1.calls) f.rest ∙ f.same_calls

  -- The sweeper that was read, and the calls that bring all to the tip and hand the monitors over.
  abbrev pub CaughtUp : Bytes → List (Bytes × M) → Node → List Call → Type 0
  CaughtUp h monitors n calls =
      (sweeper : Sweeper S) × (output_sweeper c.read_sweeper (read_sweeper_key n).0 ≡ ok sweeper)
      × (calls
          ≡ n.calls
            ++ synchronize_listeners
                (chain_listeners c h (sweeper_blockhash l c saved sweeper n.calls) monitors)
              ∷ watches c monitors)

  catch_up-restart :
      (h tip : Bytes) (monitors : List (Bytes × M)) (n : Node)
      → (catch_up l c saved true h tip monitors n).0 ≡ ok tt
      → CaughtUp h monitors n (catch_up l c saved true h tip monitors n).1.calls
  catch_up-restart h tip monitors n e =
      let f = found n true h tip monitors e in
      let block = sweeper_blockhash l c saved f.sweeper n.calls in
      let synced = sync_to_tip c true h block tip monitors in
      let (r, er, eq) =
        >>=-eq-ok synced (λ (tip, watched). watch_monitors c l watched) f.behind
          (ap (λ (r : Outcome IoError (Unit {0}) × Node). r.0) (sym f.rest) ∙ e) in
      let (same, moved) = sync_to_tip-restart c h block tip monitors f.behind r er in
      let call = synchronize_listeners (chain_listeners c h block monitors) in
      let t : Node = record f.behind { calls = f.behind.calls ++ call ∷ [] } in
      let whole =
        f.rest
        ∙ eq
        ∙ ap (λ ms. watch_monitors c l ms (synced f.behind).1) same
        ∙ ap (watch_monitors c l monitors) moved in
      let done : (watch_monitors c l monitors t).0 ≡ ok tt =
        ap (λ (r : Outcome IoError (Unit {0}) × Node). r.0) (sym whole) ∙ e in
      (
        f.sweeper,
        f.settled,
        ap (λ (r : Outcome IoError (Unit {0}) × Node). r.1.calls) whole
            ∙ ap (λ (x : Node). x.calls) (calls-watch_monitors c l monitors t done)
            ∙ append_assoc f.behind.calls (call ∷ []) (watches c monitors)
            ∙ ap (λ cs. cs ++ call ∷ watches c monitors) f.same_calls,
      )

  module _ (dir : FilePath) (n : Node) (channelmonitors : List (Bytes × M))
      (are_read : (c.read_monitors n.process).0 ≡ ok channelmonitors) where
    abbrev pub process : Process
    process = (c.read_monitors n.process).1

    abbrev with_monitors : Node
    with_monitors = record n { process = process }

    -- A start that returned had a tip of the chain to go on from.
    on_from_tip :
        (restore l c saved dir n).0 ≡ ok tt
        → (tip : Bytes) × (restore l c saved dir n
            ≡ from_tip l c saved dir channelmonitors tip with_monitors)
    unfolding restore
    on_from_tip done =
        let tip_read : Exec Node Bytes = unwrap_io (lift c.polled_chain_tip) in
        let best : Exec Node Bytes = unwrap_io (lift c.best_block) in
        let next = λ (ms : List (Bytes × M)). best >> (tip_read >>= from_tip l c saved dir ms) in
        let first = ap (λ r. (continue (unwrapped r) next with_monitors)) are_read in
        let (hash, e2, q2) =
          >>=-eq-ok best (λ _. tip_read >>= from_tip l c saved dir channelmonitors) with_monitors
            (ap (λ (r : Outcome IoError (Unit {0}) × Node). r.0) (sym first) ∙ done) in
        let (tip, e3, q3) =
          >>=-eq-ok tip_read (from_tip l c saved dir channelmonitors) (best with_monitors).1
            (ap (λ (r : Outcome IoError (Unit {0}) × Node). r.0) (sym (first ∙ q2)) ∙ done) in
        (tip, first ∙ q2 ∙ q3)

    -- If the channel monitors were read, the file of the channel manager could not be opened, for
    -- whatever reason, and the start returned, then it has made no call: no monitor was handed to LDK
    -- and nothing was synchronized.
    pub restore-fresh :
        {e : IoError}
        → (opening c dir process.world).0 ≡ err e
        → (restore l c saved dir n).0 ≡ ok tt
        → (restore l c saved dir n).1.calls ≡ n.calls
    unfolding from_tip on_world ◌>>=◌
    restore-fresh {e} cannot_open done =
        let (tip, eq) = on_from_tip done in
        let behind : World → Node = λ w. record n { process = record process { world = w } } in
        let after = λ (r : Outcome IoError (Bool × Bytes × List (Bytes × M)) × World).
          (continue r.0 (λ (restarting, h, ms). catch_up l c saved restarting h tip ms)
            (behind r.1)) in
        let whole =
          eq
          ∙ ap after
              (load_channel_manager-fresh c dir channelmonitors tip process.world e cannot_open) in
        let final = behind (opening c dir process.world).1 in
        ap (λ (r : Outcome IoError (Unit {0}) × Node). r.1.calls) whole
        ∙ catch_up-fresh tip tip channelmonitors final
            (ap (λ (r : Outcome IoError (Unit {0}) × Node). r.0) (sym whole) ∙ done)

    -- If the channel monitors were read, the file of the channel manager could be opened, and the start
    -- returned, then LDK made a manager and monitors of that file's content, and the start has made
    -- these calls: one that brings the manager, the sweeper that its key held or a new one, and every
    -- monitor to the tip of the chain, each from the block that it had reached, and then one for each
    -- monitor, in order, that hands it over.
    pub restore-restart :
        (opening c dir process.world).0 ≡ ok tt
        → (restore l c saved dir n).0 ≡ ok tt
        → (content : Bytes) × (h : Bytes) × (monitors : List (Bytes × M)) × (behind : Node)
          × (manager_bytes c dir process.world ≡ ok content)
          × (c.read_manager content channelmonitors ≡ some (h, monitors))
          × (behind.calls ≡ n.calls)
          × CaughtUp h monitors behind (restore l c saved dir n).1.calls
    unfolding from_tip on_world ◌>>=◌
    restore-restart can_open done =
        let (tip, eq) = on_from_tip done in
        let load : Exec Node (Bool × Bytes × List (Bytes × M)) =
          on_process (on_world (load_channel_manager c dir channelmonitors tip)) in
        let (r, loaded, q) =
          >>=-eq-ok load (λ (restarting, h, ms). catch_up l c saved restarting h tip ms)
            with_monitors (ap (λ (r : Outcome IoError (Unit {0}) × Node). r.0) (sym eq) ∙ done) in
        let (content, have, restarting, decoded) =
          load_channel_manager-restart c dir channelmonitors tip process.world r can_open loaded in
        let behind = (load with_monitors).1 in
        let whole = eq ∙ q ∙ ap (λ b. catch_up l c saved b r.1 tip r.2 behind) restarting in
        (
          content,
          r.1,
          r.2,
          behind,
          have,
          decoded,
          refl,
          subst (λ (x : Outcome IoError (Unit {0}) × Node). CaughtUp r.1 r.2 behind x.1.calls)
              (sym whole)
              (catch_up-restart r.1 tip r.2 behind
                (ap (λ (r : Outcome IoError (Unit {0}) × Node). r.0) (sym whole) ∙ done)),
        )
