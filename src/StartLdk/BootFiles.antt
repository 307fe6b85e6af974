-- ===== src/StartLdk/BootFiles.antt =====
-- The files through the steps of the beginning of a start.
use programming_lightning_bu.Base.{
  ◌≡◌, refl, sym, ap, ◌∙◌, Option, none, some, [], ◌∷◌, arith, Outcome, ok, err, panic, ◌++◌, ◌≢◌,
  str,
}
use programming_lightning_bu.Exec.{IoError, pure, ◌>>=◌, >>=-eq-ok}
use programming_lightning_bu.FilePath.{FilePath}
use programming_lightning_bu.Fs.{
  World, Io, create, read_file, create_dir_all, call, write_all, sync_all,
}
use programming_lightning_bu.Fs.Laws.{content, content-create_dir_all}
use programming_lightning_bu.Logger
use programming_lightning_bu.Payments.{Bytes}
use programming_lightning_bu.StartLdk.Keys.{keys_seed_path, make_keys_seed, load_keys_seed, expect}
use programming_lightning_bu.StartLdk.Chain.{unwrap_io}

-- The files that are there, directories apart.
abbrev pub SameFiles : World → World → Type 0
SameFiles w w' = (q : FilePath) → content q w' ≡ content q w

create-fails :
    (under p : FilePath) (w : World) (e : IoError)
    → (create under p w).0 ≡ err e
    → SameFiles w (create under p w).1
unfolding create call
create-fails under p w e fails q = ground (arith, fails)

read_file-SameFiles : (p : FilePath) (w : World) → SameFiles w (read_file p w).1
unfolding read_file call
read_file-SameFiles p w q = ground arith

module _ (d : FilePath) (random : Bytes) where
  write_seed : Io (Option Bytes)
  write_seed =
      let path = keys_seed_path d in
      expect (write_all path random) >>= λ _. expect (sync_all path) >>= λ _. pure (some random)

  some_ne_none : ◌≢◌ {A = Outcome IoError (Option Bytes)} (ok (some random)) (ok none)
  some_ne_none e = cc

  write_seed-ne-none : (w : World) → (write_seed w).0 ≢ ok none
  unfolding write_seed
  write_seed-ne-none w e =
      let path = keys_seed_path d in
      let synced : Io (Option Bytes) = expect (sync_all path) >>= λ _. pure (some random) in
      let (x, written, q) = >>=-eq-ok (expect (write_all path random)) (λ _. synced) w e in
      let w' = (expect (write_all path random) w).1 in
      let (y, done, p) =
        >>=-eq-ok (expect (sync_all path)) (λ _. pure (some random)) w'
          (ap (λ (r : Outcome IoError (Option Bytes) × World). r.0) (sym q) ∙ e) in
      some_ne_none (ap (λ (r : Outcome IoError (Option Bytes) × World). r.0) (sym (q ∙ p)) ∙ e)

  make_keys_seed-none :
      (q : FilePath) (w : World)
      → (make_keys_seed d random w).0 ≡ ok none
      → content q (make_keys_seed d random w).1 ≡ content q w
  unfolding make_keys_seed write_seed
  make_keys_seed-none q w e = go (create d (keys_seed_path d) w).0 refl e
    where
      w' : World
      w' = (create d (keys_seed_path d) w).1

      made : Outcome IoError (Unit {0}) → Outcome IoError (Option Bytes) × World
      made r = elim r [ ok x ↦ write_seed w' | err e ↦ (ok none, w') | panic ↦ (panic, w') ]

      go :
          (r : Outcome IoError (Unit {0}))
          → (create d (keys_seed_path d) w).0 ≡ r
          → (made r).0 ≡ ok none
          → content q (made (create d (keys_seed_path d) w).0).1 ≡ content q w
      go (ok x) same e = absurd (write_seed-ne-none w' e)
      go (err x) same e =
          ap (λ r. content q (made r).1) same ∙ create-fails d (keys_seed_path d) w x same q
      go panic same e = absurd (cc)

  pub load_keys_seed-none :
      (w : World)
      → (load_keys_seed d random w).0 ≡ ok none
      → SameFiles w (load_keys_seed d random w).1
  unfolding load_keys_seed
  load_keys_seed-none w e q =
      let path = keys_seed_path d in
      let w' = (read_file path w).1 in
      ground (arith, read_file-SameFiles path w q, make_keys_seed-none q w')

pub SameFiles-directories :
    (dir : FilePath) (w : World) → SameFiles w (unwrap_io (create_dir_all dir) w).1
SameFiles-directories dir w q = content-create_dir_all q dir w

pub SameFiles-logger : (dir : FilePath) (w : World) → SameFiles w (Logger.new dir w).1
unfolding Logger.new ◌>>=◌
SameFiles-logger dir w q =
    let logs = dir ++ str "logs" ∷ [] in ground (arith, content-create_dir_all q logs w)
