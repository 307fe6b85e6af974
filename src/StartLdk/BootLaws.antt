-- ===== src/StartLdk/BootLaws.antt =====
-- What the beginning of a start leaves behind.
use programming_lightning_bu.Base.{
  ◌≡◌, refl, sym, ap, ◌∙◌, subst, Str, Bool, true, false, Option, none, some, length, Outcome, ok,
  err, panic, if◌then◌else◌, ◌≢◌,
}
use programming_lightning_bu.Exec.{IoError, pure, lift, ◌>>=◌, ◌>>◌, >>=-eq-ok}
use programming_lightning_bu.Fs.{World, Io, create_dir_all}
use programming_lightning_bu.Fs.Laws.{content}
use programming_lightning_bu.Logger
use programming_lightning_bu.Args.{LdkUserInfo}
use programming_lightning_bu.Payments.{Bytes}
use programming_lightning_bu.StartLdk.{is_expected_chain}
use programming_lightning_bu.StartLdk.Keys.{keys_seed_path, load_keys_seed}
use programming_lightning_bu.StartLdk.KeysLaws.{saved_seed}
use programming_lightning_bu.StartLdk.Chain.{unwrap_io}
use programming_lightning_bu.StartLdk.Boot.{
  Boot, no_args, no_client, wrong_chain, no_seed, ready, Surroundings, ldk_data_dir, with_seed,
  connected, boot_with, boot,
}
use programming_lightning_bu.StartLdk.BootFiles.{
  SameFiles, load_keys_seed-none, SameFiles-directories, SameFiles-logger,
}

ok_injective : {A : Type 0} {a b : A} → ◌≡◌ {A = Outcome IoError A} (ok a) (ok b) → a ≡ b
ok_injective e = cc

-- What has to be so for each outcome of `boot`.
abbrev pub IsSafe : Surroundings → World → Boot → World → Type 0
IsSafe s w (ready dir info seed) w' =
    (s.args ≡ some info)
    × (s.client_connects ≡ true)
    × ((chain : Str) × (s.bitcoind_chain ≡ ok chain)
        × (is_expected_chain info.network chain ≡ true))
    × (content (keys_seed_path dir) w' ≡ some seed)
    × (length seed ≡ 32)
IsSafe s w no_args w' = SameFiles w w'
IsSafe s w no_client w' = SameFiles w w'
IsSafe s w wrong_chain w' = SameFiles w w'
IsSafe s w no_seed w' = SameFiles w w'

module _ (s : Surroundings) (enough : length s.random ≡ 32) (info : LdkUserInfo)
    (given : s.args ≡ some info) (w : World) where
  Safe : Outcome IoError Boot × World → Type 0
  Safe r = (b : Boot) → r.0 ≡ ok b → IsSafe s w b r.1

  -- The same files, and an outcome that builds nothing.
  early :
      (b : Boot) (w' : World)
      → ((w'' : World) → SameFiles w w'' → IsSafe s w b w'')
      → SameFiles w w'
      → Safe (ok b, w')
  unfolding Safe
  early b w' safe same b' e = subst (λ x. IsSafe s w x w') (ok_injective e) (safe w' same)

  failing : (r : Outcome IoError Boot) (w' : World) → ((b : Boot) → r ≢ ok b) → Safe (r, w')
  unfolding Safe
  failing r w' fails b e = absurd (fails b e)

  seeding : Io Boot
  seeding = load_keys_seed (ldk_data_dir info) s.random >>= λ seed.
      pure (with_seed (ldk_data_dir info) info seed)

  seeding-Safe :
      (chain : Str) (w' : World)
      → s.client_connects ≡ true
      → s.bitcoind_chain ≡ ok chain
      → is_expected_chain info.network chain ≡ true
      → SameFiles w w'
      → Safe (seeding w')
  unfolding seeding Safe ◌>>=◌
  seeding-Safe chain w' client answer expected same b done =
      let dir = ldk_data_dir info in
      let (seed, loaded, q) =
        >>=-eq-ok (load_keys_seed dir s.random) (λ seed. pure (with_seed dir info seed)) w' done in
      subst (λ r. IsSafe s w b r.1) (sym q)
        (go seed loaded
          (ok_injective (ap (λ (r : Outcome IoError Boot × World). r.0) (sym q) ∙ done)))
    where
      t : World
      t = (load_keys_seed (ldk_data_dir info) s.random w').1

      go :
          (seed : Option Bytes)
          → (load_keys_seed (ldk_data_dir info) s.random w').0 ≡ ok seed
          → with_seed (ldk_data_dir info) info seed ≡ b
          → IsSafe s w b t
      go none loaded e =
          subst (λ b. IsSafe s w b t) e
            (λ f. load_keys_seed-none (ldk_data_dir info) s.random w' loaded f ∙ same f)
      go (some seed) loaded e =
          let (kept, whole) = saved_seed (ldk_data_dir info) s.random seed w' enough loaded in
          subst (λ b. IsSafe s w b t) e (given, client, (chain, answer, expected), kept, whole)

  on_expected : Bool → Io Boot
  on_expected e = if e then seeding else pure wrong_chain

  on_chain : Outcome IoError Str → Io Boot
  on_chain r = lift r >>= λ chain. on_expected (is_expected_chain info.network chain)

  on_client : Bool → Io Boot
  on_client c = if c then on_chain s.bitcoind_chain else pure no_client

  connected-Safe : (w' : World) → SameFiles w w' → Safe (connected s info w')
  unfolding connected seeding on_expected on_chain on_client ◌>>=◌
  connected-Safe w' same = client s.client_connects refl
    where
      expected :
          (chain : Str) (e : Bool)
          → s.client_connects ≡ true
          → s.bitcoind_chain ≡ ok chain
          → is_expected_chain info.network chain ≡ e
          → Safe (on_expected e w')
      expected chain true connects answer fits = seeding-Safe chain w' connects answer fits same
      expected chain false connects answer differs = early wrong_chain w' (λ w'' h. h) same

      answered :
          (r : Outcome IoError Str)
          → s.client_connects ≡ true
          → s.bitcoind_chain ≡ r
          → Safe (on_chain r w')
      answered (ok chain) connects answer =
          expected chain (is_expected_chain info.network chain) connects answer refl
      answered (err e) connects answer = failing (err e) w' (λ b h. absurd (cc))
      answered panic connects answer = failing panic w' (λ b h. absurd (cc))

      client : (c : Bool) → s.client_connects ≡ c → Safe (on_client c w')
      client true connects = answered s.bitcoind_chain connects refl
      client false connects = early no_client w' (λ w'' h. h) same

  boot_with-Safe : Safe (boot_with s info w)
  unfolding boot_with Safe ◌>>=◌
  boot_with-Safe b done =
      let dir = ldk_data_dir info in
      let (x, made, q) =
        >>=-eq-ok (unwrap_io (create_dir_all dir)) (λ _. Logger.new dir >> connected s info) w
          done in
      let w1 = (create_dir_all dir w).1 in
      let (logger, opened, p) =
        >>=-eq-ok (Logger.new dir) (λ _. connected s info) w1
          (ap (λ (r : Outcome IoError Boot × World). r.0) (sym q) ∙ done) in
      let w2 = (Logger.new dir w1).1 in
      let same : SameFiles w w2 = λ f. SameFiles-logger dir w1 f ∙ SameFiles-directories dir w f in
      let whole = q ∙ p in
      subst (λ r. IsSafe s w b r.1) (sym whole)
        (connected-Safe w2 same b
          (ap (λ (r : Outcome IoError Boot × World). r.0) (sym whole) ∙ done))

-- Whatever fails, a start that returns before it builds anything (no arguments, no client of
-- bitcoind, another chain than the arguments name, no file for the seed) has changed no file. One
-- that goes on has a client, its bitcoind is on the chain of the arguments, and the 32 bytes of its
-- seed are in the seed's file.
pub boot-IsSafe :
    (s : Surroundings) (b : Boot) (w : World)
    → length s.random ≡ 32
    → (boot s w).0 ≡ ok b
    → IsSafe s w b (boot s w).1
unfolding boot Safe
boot-IsSafe s b w enough done = go s.args refl done
  where
    booted : Option LdkUserInfo → Outcome IoError Boot × World
    booted args =
        (elim args as (λ _. Io Boot) [ none ↦ pure no_args | some info ↦ boot_with s info ]) w

    go :
        (args : Option LdkUserInfo)
        → s.args ≡ args
        → (booted args).0 ≡ ok b
        → IsSafe s w b (booted args).1
    go none given done = subst (λ b. IsSafe s w b w) (ok_injective done) (λ q. refl)
    go (some info) given done = boot_with-Safe s enough info given w b done
