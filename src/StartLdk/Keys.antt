-- ===== src/StartLdk/Keys.antt =====
-- The seed of the keys, which `start_ldk` of src/main.rs reads or makes.
use programming_lightning_bu.Base.{
  str, Option, none, some, [], ◌∷◌, ◌++◌, eqb, length, if◌then◌else◌, ok, err, panic,
}
use programming_lightning_bu.Exec.{pure, ◌>>=◌, ◌>>◌}
use programming_lightning_bu.FilePath.{FilePath}
use programming_lightning_bu.Fs.{Io, read_file, create, write_all, sync_all}
use programming_lightning_bu.Payments.{Bytes}

-- `expect`
abbrev pub expect : Io (Unit {0}) → Io (Unit {0})
expect m w = let (r, w') = m w in (elim r [ ok x ↦ ok x | err e ↦ panic | panic ↦ panic ], w')

abbrev pub keys_seed_path : FilePath → FilePath
keys_seed_path ldk_data_dir = ldk_data_dir ++ str "keys_seed" ∷ []

module _ (ldk_data_dir : FilePath) (random : Bytes) where
  -- `none` where `start_ldk` prints a message and returns.
  unfoldable pub make_keys_seed : Io (Option Bytes)
  unfolding ◌>>=◌
  make_keys_seed w =
      let path = keys_seed_path ldk_data_dir in
      let (r, w') = create ldk_data_dir path w in
      elim r [
        | ok x ↦ (do expect (write_all path random); expect (sync_all path); pure (some random)) w'
        | err e ↦ (ok none, w')
        | panic ↦ (panic, w')
      ]

  -- `random` is what `thread_rng` fills the 32 bytes with.
  unfoldable pub load_keys_seed : Io (Option Bytes)
  unfolding make_keys_seed
  load_keys_seed w =
      let (r, w') = read_file (keys_seed_path ldk_data_dir) w in
      elim r [
        | ok seed ↦ (if eqb (length seed) 32 then ok (some seed) else panic, w')
        | err e ↦ make_keys_seed w'
        | panic ↦ (panic, w')
      ]
