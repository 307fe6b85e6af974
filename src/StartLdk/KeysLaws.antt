-- ===== src/StartLdk/KeysLaws.antt =====
-- What becomes of the seed from one start of the node to the next.
use programming_lightning_bu.Base.{
  zero, suc, ◌≤◌, list_eq, nat_eq, ℕ, ◌≡◌, ◌≢◌, ◌<◌, none, some, [], ◌∷◌, length, take, arith, ok,
  panic,
}
use programming_lightning_bu.Base.Dict.{lookup, insert, lookup-insert}
use programming_lightning_bu.FilePath.{FilePath}
use programming_lightning_bu.Fs.{World, dir, file, read_file, create, write_all, sync_all}
use programming_lightning_bu.Fs.Laws.{content, content-write_all_self, content-sync_all}
use programming_lightning_bu.Payments.{Bytes}
use programming_lightning_bu.StartLdk.Keys.{keys_seed_path, make_keys_seed, load_keys_seed}

-- The world of the next start, if no call of the file system fails in it.
abbrev pub calm_again : World → World
calm_again w = record w { faults = [] }

length-take : (n : ℕ) (xs : Bytes) → length (take n xs) ≤ n
length-take zero xs = omega arith
length-take (suc n) [] = omega arith
length-take (suc n) (x ∷ xs) = omega (arith, length-take n xs)

-- A start that finds the seed.
calm_load :
    (d : FilePath) (random key : Bytes) (w : World)
    → content (keys_seed_path d) w ≡ some key
    → length key ≡ 32
    → (load_keys_seed d random (calm_again w)).0 ≡ ok (some key)
unfolding load_keys_seed read_file
calm_load d random key w e h = ground (arith, e, h)

-- A start that finds another file there.
short_load :
    (d : FilePath) (random seed : Bytes) (w : World)
    → lookup (keys_seed_path d) w.disk ≡ some (file seed)
    → w.faults ≡ []
    → length seed ≢ 32
    → (load_keys_seed d random w).0 ≡ panic
unfolding load_keys_seed read_file
short_load d random seed w e calm h = ground (arith, e, calm, h)

module _ (d : FilePath) (random : Bytes) where
  created : World → World
  created w = (create d (keys_seed_path d) w).1

  read-World : (w : World) → (read_file (keys_seed_path d) w).1.disk ≡ w.disk
  unfolding read_file
  read-World w = ground arith

  read-content :
      (key : Bytes) (w : World)
      → (read_file (keys_seed_path d) w).0 ≡ ok key
      → content (keys_seed_path d) w ≡ some key
  unfolding read_file
  read-content key w e = ground arith

  made_seed :
      (key : Bytes) (w : World)
      → (make_keys_seed d random w).0 ≡ ok (some key)
      → (content (keys_seed_path d) (make_keys_seed d random w).1 ≡ some key) × (key ≡ random)
  unfolding make_keys_seed created
  made_seed key w e =
      let path = keys_seed_path d in
      let w' = created w in
      ground (
        arith,
        content-write_all_self path random w',
        content-sync_all path path (write_all path random w').1,
      )

  pub saved_seed :
      (key : Bytes) (w : World)
      → length random ≡ 32
      → (load_keys_seed d random w).0 ≡ ok (some key)
      → (content (keys_seed_path d) (load_keys_seed d random w).1 ≡ some key) × (length key ≡ 32)
  unfolding load_keys_seed
  saved_seed key w h e =
      let path = keys_seed_path d in
      let w' = (read_file path w).1 in
      ground (arith, read-World w, read-content key w, made_seed key w')

  -- A seed that a start of the node used, read or made, is the seed of the next start too, if no call
  -- of the file system fails in that one, whatever its random bytes are.
  pub load_again :
      (key random' : Bytes) (w : World)
      → length random ≡ 32
      → (load_keys_seed d random w).0 ≡ ok (some key)
      → (load_keys_seed d random' (calm_again (load_keys_seed d random w).1)).0 ≡ ok (some key)
  load_again key random' w h e =
      let (saved, whole) = saved_seed key w h e in
      calm_load d random' key (load_keys_seed d random w).1 saved whole

  -- If the file of the seed is there and the call that reads it fails for any reason, while no other
  -- call fails, the seed is lost: the node starts with new random bytes and has overwritten the file
  -- with them.
  pub load_keys_seed-unread :
      (seed : Bytes) (n : ℕ) (w : World)
      → lookup d w.disk ≡ some dir
      → content (keys_seed_path d) w ≡ some seed
      → w.faults ≡ some n ∷ []
      → ((load_keys_seed d random w).0 ≡ ok (some random))
        × (content (keys_seed_path d) (load_keys_seed d random w).1 ≡ some random)
  unfolding load_keys_seed make_keys_seed read_file create write_all sync_all
  load_keys_seed-unread seed n w is_dir there fails =
      let path = keys_seed_path d in
      ground (
        arith,
        is_dir,
        there,
        fails,
        lookup-insert path path (file []) w.disk,
        lookup-insert path path (file random) (insert path (file []) w.disk),
      )

  leaves_short :
      (n : ℕ) (w : World)
      → lookup d w.disk ≡ some dir
      → lookup (keys_seed_path d) w.disk ≡ none
      → w.faults ≡ none ∷ none ∷ some n ∷ []
      → ((load_keys_seed d random w).0 ≡ panic)
        × ((load_keys_seed d random w).1.faults ≡ [])
        × (lookup (keys_seed_path d) (load_keys_seed d random w).1.disk
            ≡ some (file (take n random)))
  unfolding load_keys_seed make_keys_seed read_file create write_all sync_all
  leaves_short n w is_dir absent fails =
      let path = keys_seed_path d in
      ground (
        arith,
        is_dir,
        absent,
        fails,
        lookup-insert path path (file []) w.disk,
        lookup-insert path path (file (take n random)) (insert path (file []) w.disk),
      )

  -- If the write of a new seed fails before its end, that start of the node panics, and so does the
  -- next one, although no call of the file system fails in it: the shorter file is taken for a seed.
  pub load_keys_seed-torn :
      (n : ℕ) (random' : Bytes) (w : World)
      → lookup d w.disk ≡ some dir
      → lookup (keys_seed_path d) w.disk ≡ none
      → w.faults ≡ none ∷ none ∷ some n ∷ []
      → n < 32
      → ((load_keys_seed d random w).0 ≡ panic)
        × ((load_keys_seed d random' (load_keys_seed d random w).1).0 ≡ panic)
  load_keys_seed-torn n random' w is_dir absent fails short =
      let (panics, calm, left) = leaves_short n w is_dir absent fails in
      (
        panics,
        short_load d random' (take n random) (load_keys_seed d random w).1 left calm
            (λ e. omega (arith, length-take n random)),
      )
