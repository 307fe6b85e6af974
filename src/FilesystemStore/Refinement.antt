-- ===== src/FilesystemStore/Refinement.antt =====
-- `FilesystemStore` refines the map `FileStore`.
use programming_lightning_bu.Base.{
  ℕ, ◌≡◌, ◌≢◌, inl, inr, refl, sym, ap, ◌∙◌, Str, Bool, Option, none, some, List, [], ◌∷◌, ok, err,
  panic, arith, pair_eq, list_eq, nat_eq, option_eq, eq_dec, subst,
}
use programming_lightning_bu.Base.Dict.{lookup, insert, erase, lookup-insert, lookup-erase}
use programming_lightning_bu.Exec.{Exec, ◌>>=◌, pure, bind_rule}
use programming_lightning_bu.FileStore.{FileStore, Key}
use programming_lightning_bu.Fs.{read_file, next_fails}
use programming_lightning_bu.FilesystemStore.Names.{Config}
use programming_lightning_bu.FilesystemStore.Locks.{Process, on_world, with_lock, collect}
use programming_lightning_bu.FilesystemStore.Io.{read, write, remove}
use programming_lightning_bu.FilesystemStore.Paths.{IsPlain}
use programming_lightning_bu.FilesystemStore.Distinct.{Accepted}
use programming_lightning_bu.FilesystemStore.Write.{stored, stored-write, stored-write_other}
use programming_lightning_bu.FilesystemStore.Remove.{stored-remove, stored-remove_other}
use programming_lightning_bu.FilesystemStore.Requests.{
  Request, put, delete, get, key_of, Answer, serve, serve_all, Effect, put_done, put_failed,
  delete_done, delete_failed, got, get_failed, Replay, finished, next,
}

abbrev pub IsAccepted : Config → Key → Type 0
IsAccepted c (p, (s, k)) = Accepted c p s k

abbrev pub stored_at : Key → Process → Option (List ℕ)
stored_at (p, (s, k)) t = stored p s k t

-- The file of every valid key holds what the map has for it.
pub record Represents (c : Config) (t : Process) (m : FileStore) : Type 0 where
  pub same : (k : Key) → IsAccepted c k → stored_at k t ≡ lookup k m.entries

-- The requests are about valid keys.
abbrev pub AllAccepted : Config → List Request → Type 0
AllAccepted c [] = Unit {0}
AllAccepted c (r ∷ rs) = IsAccepted c (key_of r) × AllAccepted c rs

-- A read that returned bytes returned those of the file, and no read changes a file.
module _ (c : Config) (p s k : Str) (t : Process) (valid : Accepted c p s k) where
  stored-read : (b : List ℕ) → (read c p s k t).0 ≡ ok b → stored p s k t ≡ some b
  unfolding read with_lock on_world read_file collect
  stored-read b e = ground (arith, valid)

  disk-read : (q : Key) → stored_at q (read c p s k t).1 ≡ stored_at q t
  unfolding read with_lock on_world read_file collect
  disk-read q = ground (arith, valid)

-- What one key's file and the others' are after a change of that key.
abbrev Changed : Config → Key → Option (List ℕ) → Process → Process → Type 0
Changed c k value t t' =
    (stored_at k t' ≡ value) × ((j : Key) → IsAccepted c j → k ≢ j → stored_at j t' ≡ stored_at j t)

module _ (c : Config) (k : Key) (t t' : Process) (m : FileStore) where
  Represents-insert :
      (buf : List ℕ)
      → Represents c t m
      → Changed c k (some buf) t t'
      → Represents c t' (record { entries = insert k buf m.entries })
  Represents-insert buf r h = record {
    same = λ j valid.
        ground (arith, lookup-insert k j buf m.entries, r.same j valid, h.0, h.1 j valid);
  }

  Represents-erase :
      Represents c t m
      → Changed c k none t t'
      → Represents c t' (record { entries = erase k m.entries })
  Represents-erase r h = record {
    same = λ j valid. ground (arith, lookup-erase k j m.entries, r.same j valid, h.0, h.1 j valid);
  }

  Represents-unchanged : Represents c t m → Changed c k (stored_at k t) t t' → Represents c t' m
  Represents-unchanged r h = record {
    same = λ j valid. elim (eq_dec k j) [
      | yes e ↦ ap (λ q. stored_at q t') (sym e) ∙ h.0 ∙ ap (λ q. stored_at q t) e ∙ r.same j valid
      | no n ↦ h.1 j valid n ∙ r.same j valid
    ];
  }

-- A call whose result is replaced.
module _ {A B : Type 0} (m : Exec Process A) (f : A → B) (t : Process) where
  pub state-then : ((m >>= λ a. pure (f a)) t).1 ≡ (m t).1
  unfolding ◌>>=◌
  state-then = ground arith

  pub ok-then :
      (b : B) → ((m >>= λ a. pure (f a)) t).0 ≡ ok b → (a : A) × ((m t).0 ≡ ok a) × (f a ≡ b)
  ok-then b =
      bind_rule (λ (r, _). r ≡ ok b → (a : A) × ((m t).0 ≡ ok a) × (f a ≡ b)) m (λ a. pure (f a)) t
        (λ a e p. (a, e, ground (arith, p))) (λ x e p. absurd (cc p)) (λ e p. absurd (cc p))

-- What `put` and `delete` return.
abbrev missing : Option (List ℕ)
missing = none

-- What a request leaves: the map behind its effect.
abbrev Next : Config → Request → Answer × Process → Bool → FileStore → Type 0
Next c r (a, t') blind m = (n : FileStore) × Effect r a blind m n × Represents c t' n

module _ (c : Config) (plain : IsPlain c) (t : Process) (m : FileStore)
    (rep : Represents c t m) where
  put-Next :
      (k : Key) (buf : List ℕ)
      → IsAccepted c k
      → Next c (put k buf) (serve c (put k buf) t) (next_fails t.world) m
  unfolding serve
  put-Next (p, (s, k)) buf valid =
      let op = write c p s k buf in
      let others : (j : Key)
          → IsAccepted c j
          → (p, (s, k)) ≢ j
          → stored_at j (op t).1 ≡ stored_at j t =
        λ j v ne.
          stored-write_other c plain p s k buf t j.0 j.1.0 j.1.1 valid v
            (λ e. ne (λ i. (e.0 i, (e.1 i, e.2 i)))) in
      let back : (n : FileStore)
          → Represents c (op t).1 n
          → Represents c ((op >>= λ _. pure missing) t).1 n =
        λ n. subst (λ z. Represents c z n) (sym (state-then op (λ _. missing) t)) in
      elim (stored-write c plain p s k buf t valid) [
        | inl e ↦ (
          record { entries = insert (p, (s, k)) buf m.entries },
          put_done (p, (s, k)) buf _ _ m,
          back _ (Represents-insert c (p, (s, k)) t (op t).1 m buf rep (e, others)),
        )
        | inr (fails, e) ↦ (
          m,
          put_failed (p, (s, k)) buf _ _ m
              (λ done. let (u, done', _) = ok-then op (λ _. missing) t none done in fails done'),
          back _ (Represents-unchanged c (p, (s, k)) t (op t).1 m rep (e, others)),
        )
      ]

  delete-Next :
      (k : Key) (lazy : Bool)
      → IsAccepted c k
      → Next c (delete k lazy) (serve c (delete k lazy) t) (next_fails t.world) m
  unfolding serve
  delete-Next (p, (s, k)) lazy valid =
      let op = remove c p s k lazy in
      let others : (j : Key)
          → IsAccepted c j
          → (p, (s, k)) ≢ j
          → stored_at j (op t).1 ≡ stored_at j t =
        λ j v ne.
          stored-remove_other c plain p s k lazy t j.0 j.1.0 j.1.1 valid v
            (λ e. ne (λ i. (e.0 i, (e.1 i, e.2 i)))) in
      let back : (n : FileStore)
          → Represents c (op t).1 n
          → Represents c ((op >>= λ _. pure missing) t).1 n =
        λ n. subst (λ z. Represents c z n) (sym (state-then op (λ _. missing) t)) in
      elim (stored-remove c plain p s k lazy t valid) [
        | inl e ↦ (
          record { entries = erase (p, (s, k)) m.entries },
          delete_done (p, (s, k)) lazy _ _ m,
          back _ (Represents-erase c (p, (s, k)) t (op t).1 m rep (e, others)),
        )
        | inr (fails, e) ↦ (
          m,
          delete_failed (p, (s, k)) lazy _ _ m
              (elim fails [
                | inl wrong ↦ inl (λ done.
                    let (u, done', _) = ok-then op (λ _. missing) t none done in wrong done')
                | inr unseen ↦ inr unseen
              ]),
          back _ (Represents-unchanged c (p, (s, k)) t (op t).1 m rep (e, others)),
        )
      ]

  get-Next : (k : Key) → IsAccepted c k → Next c (get k) (serve c (get k) t) (next_fails t.world) m
  unfolding serve
  get-Next (p, (s, k)) valid =
      let op = read c p s k in
      let t' = (op t).1 in
      let end =
        subst (λ z. Represents c z m) (sym (state-then op some t))
          (Represents-unchanged c (p, (s, k)) t t' m rep
            (disk-read c p s k t valid (p, (s, k)), λ j v ne. disk-read c p s k t valid j)) in
      (m, answered ((op >>= λ b. pure (some b)) t).0 refl, end)
    where
      answered :
          (a : Answer)
          → (serve c (get (p, (s, k))) t).0 ≡ a
          → Effect (get (p, (s, k))) a (next_fails t.world) m m
      answered (ok (some b)) e =
          let (b', done, same) = ok-then (read c p s k) some t (some b) e in
          got (p, (s, k)) b _ m
            (sym (rep.same (p, (s, k)) valid) ∙ stored-read c p s k t valid b' done ∙ same)
      answered (ok none) e =
          let (b', done, same) = ok-then (read c p s k) some t none e in absurd (cc)
      answered (err x) e = get_failed (p, (s, k)) (err x) _ m (λ b q. cc)
      answered panic e = get_failed (p, (s, k)) panic _ m (λ b q. cc)

  serve-Next :
      (r : Request) → IsAccepted c (key_of r) → Next c r (serve c r t) (next_fails t.world) m
  serve-Next (put k buf) = put-Next k buf
  serve-Next (delete k lazy) = delete-Next k lazy
  serve-Next (get k) = get-Next k

-- Whatever valid keys a client writes, removes and reads one after another, and whichever calls of
-- the file system fail, its answers are answers of the map that the files represented at first, in
-- which a failed request may or may not have taken effect, and so may a removal that answered `Ok`
-- while its first call failed; and the files represent that map at last.
pub serve_all-Replay :
    (c : Config) (rs : List Request) (t : Process) (m : FileStore)
    → IsPlain c
    → AllAccepted c rs
    → Represents c t m
    → (end : FileStore) × Replay rs (serve_all c rs t).0 m end
      × Represents c (serve_all c rs t).1 end
unfolding serve_all
serve_all-Replay c [] t m plain valid rep = (m, finished m, rep)
serve_all-Replay c (r ∷ rs) t m plain valid rep =
    let (n, effect, rep') = serve-Next c plain t m rep r valid.0 in
    let (end, run, rep'') = serve_all-Replay c rs (serve c r t).1 n plain valid.1 rep' in
    (
      end,
      next r (serve c r t).0 (next_fails t.world) m n rs (serve_all c rs (serve c r t).1).0 end
          effect run,
      rep'',
    )
