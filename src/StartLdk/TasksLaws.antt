-- ===== src/StartLdk/TasksLaws.antt =====
-- What the tasks call.
use mathlib.Core.List.{append_assoc, append-nil}
use programming_lightning_bu.Exec.{Exec, ◌>>=◌, ◌>>◌, continue}
use programming_lightning_bu.Base.{
  refl, subst, ◌⊎◌, Option-cases, ◌≡◌, sym, ap, ◌∙◌, Bool, true, false, List, [], ◌∷◌, ◌++◌, map,
  filter, contains, ◌==◌, list_eq, nat_eq, arith, ok, Bool-cases, inl, inr, subst, ◌⊎◌,
}
use programming_lightning_bu.Base.Dict.{Dict}
use programming_lightning_bu.Payments.{Bytes}
use programming_lightning_bu.Node.{Ldk, Node, Call, connect_outbound, tell}
use programming_lightning_bu.Peers.{do_connect_peer}
use programming_lightning_bu.StartLdk.Tasks.{connect_recorded, reconnect_peers}

-- The node with more calls made.
abbrev pub with_calls : List Call → Node → Node
with_calls more n = record n { calls = n.calls ++ more }

-- Connections to all recorded addresses of a peer.
abbrev pub connections : Dict Bytes Bytes → Bytes → List Call
connections info node_id =
    map (λ (k, addr). connect_outbound k addr) (filter (λ (k, addr). k == node_id) info)

connections-same :
    (k addr node_id : Bytes) (info : Dict Bytes Bytes)
    → (k == node_id) ≡ true
    → connections ((k, addr) ∷ info) node_id
      ≡ (connect_outbound k addr ∷ []) ++ connections info node_id
connections-same k addr node_id info e = ground (arith, e)

connections-other :
    (k addr node_id : Bytes) (info : Dict Bytes Bytes)
    → (k == node_id) ≡ false
    → connections ((k, addr) ∷ info) node_id ≡ connections info node_id
connections-other k addr node_id info e = ground (arith, e)

module _ (l : Ldk) where
  do_connect_peer-then :
      (k addr : Bytes) (n : Node) (rest : Exec Node (Unit {0}))
      → (do_connect_peer l k addr >> rest) n ≡ rest (with_calls (connect_outbound k addr ∷ []) n)
  unfolding do_connect_peer tell ◌>>=◌
  do_connect_peer-then k addr n rest = elim (Option-cases (l.connection n.calls k addr)) [
    | inl e ↦ ground (arith, e)
    | inr (polls, e) ↦ ground (arith, e)
  ]

  connect_recorded_lem :
      (node_id : Bytes) (info : Dict Bytes Bytes) (n : Node)
      → connect_recorded l node_id info n ≡ (ok tt, with_calls (connections info node_id) n)
  unfolding connect_recorded
  connect_recorded_lem node_id [] n =
      ap (λ calls. (ok tt, record n { calls = calls })) (sym (append-nil n.calls))
  connect_recorded_lem node_id ((k, addr) ∷ info) n = elim (Bool-cases (k == node_id)) [
    | inl y ↦
        rw (connections-same k addr node_id info y, y)
          (do_connect_peer-then k addr n (connect_recorded l node_id info)
            ∙ connect_recorded_lem node_id info (with_calls (connect_outbound k addr ∷ []) n)
            ∙ ap (λ calls. (ok tt, record n { calls = calls }))
                (append_assoc n.calls (connect_outbound k addr ∷ []) (connections info node_id)))
    | inr differs ↦
        rw (connections-other k addr node_id info differs, differs)
          (connect_recorded_lem node_id info n)
  ]

  module _ (stopped : List Call → Bool) (info : Dict Bytes Bytes) where
    abbrev round : List Bytes → Exec Node Bool
    round = reconnect_peers l stopped info

    round-connected :
        (k : Bytes) (ks : List Bytes) (n : Node)
        → contains (l.peers n.calls) k ≡ true
        → round (k ∷ ks) n ≡ round ks n
    unfolding reconnect_peers
    round-connected k ks n y = rw y refl

    round-stopped :
        (k : Bytes) (ks : List Bytes) (n : Node)
        → contains (l.peers n.calls) k ≡ false
        → stopped n.calls ≡ true
        → round (k ∷ ks) n ≡ (ok false, n)
    unfolding reconnect_peers
    round-stopped k ks n y s = rw (y, s) refl

    round-apart :
        (k : Bytes) (ks : List Bytes) (n : Node)
        → contains (l.peers n.calls) k ≡ false
        → stopped n.calls ≡ false
        → round (k ∷ ks) n ≡ round ks (with_calls (connections info k) n)
    unfolding reconnect_peers ◌>>=◌
    round-apart k ks n y s =
        rw (y, s) (ap (λ (r, t). continue r (λ _. round ks) t) (connect_recorded_lem k info n))

    with_calls-append :
        (first more : List Call) (n : Node)
        → with_calls more (with_calls first n) ≡ with_calls (first ++ more) n
    with_calls-append first more n =
        ap (λ calls. record n { calls = calls }) (append_assoc n.calls first more)

    round-calls :
        (ks : List Bytes) (n : Node) → (more : List Call) × ((round ks n).1 ≡ with_calls more n)
    unfolding reconnect_peers
    round-calls [] n = ([], ap (λ calls. record n { calls = calls }) (sym (append-nil n.calls)))
    round-calls (k ∷ ks) n = elim (Bool-cases (contains (l.peers n.calls) k)) [
      | inl y ↦
          let (more, e) = round-calls ks n in
          (more, ap (λ (r, t). t) (round-connected k ks n y) ∙ e)
      | inr y ↦ elim (Bool-cases (stopped n.calls)) [
        | inl s ↦ (
          [],
          ap (λ (r, t). t) (round-stopped k ks n y s)
              ∙ ap (λ calls. record n { calls = calls }) (sym (append-nil n.calls)),
        )
        | inr s ↦
            let (more, e) = round-calls ks (with_calls (connections info k) n) in
            (
              connections info k ++ more,
              ap (λ (r, t). t) (round-apart k ks n y s)
                  ∙ e
                  ∙ with_calls-append (connections info k) more n,
            )
      ]
    ]

    ==→≡ : (a b : Bytes) → (a == b) ≡ true → a ≡ b
    ==→≡ a b e = ground (arith, e)

    -- The round came to `id` behind some of its calls: then the peer was connected, or connections to
    -- all its recorded addresses come next, in the order of the file.
    abbrev pub Visited : Bytes → Node → Node → Type 0
    Visited id n n' =
        (before : List Call) × (after : List Call) × (n' ≡ with_calls (before ++ after) n)
        × ((contains (l.peers (n.calls ++ before)) id ≡ true)
            ⊎ ((rest : List Call) × (after ≡ connections info id ++ rest)))

    Visited-later :
        (id : Bytes) (first : List Call) (n n' : Node)
        → Visited id (with_calls first n) n'
        → Visited id n n'
    Visited-later id first n n' (before, after, e, inl y) = (
      first ++ before,
      after,
      e
          ∙ with_calls-append first (before ++ after) n
          ∙ ap (λ calls. with_calls calls n) (sym (append_assoc first before after)),
      inl (ap (λ calls. contains (l.peers calls) id) (sym (append_assoc n.calls first before)) ∙ y),
    )
    Visited-later id first n n' (before, after, e, inr rest) = (
      first ++ before,
      after,
      e
          ∙ with_calls-append first (before ++ after) n
          ∙ ap (λ calls. with_calls calls n) (sym (append_assoc first before after)),
      inr rest,
    )

    Visited-connected :
        (id : Bytes) (ks : List Bytes) (n : Node)
        → contains (l.peers n.calls) id ≡ true
        → Visited id n (round ks n).1
    Visited-connected id ks n y =
        let (more, e) = round-calls ks n in
        ([], more, e, inl (ap (λ calls. contains (l.peers calls) id) (append-nil n.calls) ∙ y))

    Visited-apart :
        (id : Bytes) (ks : List Bytes) (n : Node)
        → Visited id n (round ks (with_calls (connections info id) n)).1
    Visited-apart id ks n =
        let (more, e) = round-calls ks (with_calls (connections info id) n) in
        (
          [],
          connections info id ++ more,
          e ∙ with_calls-append (connections info id) more n,
          inr (more, refl),
        )

    -- If a round over the counterparties of the channels returns that the task goes on, then for each
    -- of them there was a moment in the round at which it was connected, or at which the task
    -- connected to all its recorded addresses, whatever peers connect meanwhile; and the round does
    -- nothing but call LDK.
    pub reconnect_peers-Visited :
        (node_ids : List Bytes) (n : Node) (id : Bytes)
        → contains node_ids id ≡ true
        → (reconnect_peers l stopped info node_ids n).0 ≡ ok true
        → Visited id n (reconnect_peers l stopped info node_ids n).1
    reconnect_peers-Visited [] n id there done = cc
    reconnect_peers-Visited (k ∷ ks) n id there done =
        elim (Bool-cases (contains (l.peers n.calls) k)) [
          | inl y ↦
              let e = round-connected k ks n y in
              subst (λ r. Visited id n r.1) (sym e)
                (elim (Bool-cases (k == id)) [
                  | inl same ↦
                      Visited-connected id ks n
                        (ap (λ x. contains (l.peers n.calls) x) (sym (==→≡ k id same)) ∙ y)
                  | inr differs ↦
                      reconnect_peers-Visited ks n id (ground (arith, there, differs))
                        (ap (λ (r, t). r) (sym e) ∙ done)
                ])
          | inr y ↦ elim (Bool-cases (stopped n.calls)) [
            | inl s ↦ ground (arith, ap (λ (r, t). r) (sym (round-stopped k ks n y s)) ∙ done)
            | inr s ↦
                let e = round-apart k ks n y s in
                subst (λ r. Visited id n r.1) (sym e)
                  (elim (Bool-cases (k == id)) [
                    | inl same ↦
                        subst (λ x. Visited id n (round ks (with_calls (connections info x) n)).1)
                          (sym (==→≡ k id same)) (Visited-apart id ks n)
                    | inr differs ↦ Visited-later id (connections info k) n _ (
                        reconnect_peers-Visited ks (with_calls (connections info k) n) id
                          (ground (arith, there, differs)) (ap (λ (r, t). r) (sym e) ∙ done))
                  ])
          ]
        ]
