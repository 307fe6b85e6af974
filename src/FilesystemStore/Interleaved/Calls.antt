-- ===== src/FilesystemStore/Interleaved/Calls.antt =====
-- The calls of the file system that `write` makes.
use programming_lightning_bu.Base.{
  ℕ, ◌≡◌, refl, ap, ◌∙◌, none, some, List, Outcome, ok, err, panic, ok_or,
}
use programming_lightning_bu.Exec.{IoError, invalid_input, Exec, pure, continue, ◌>>=◌, ◌>>◌}
use programming_lightning_bu.FilePath.{FilePath, parent}
use programming_lightning_bu.Fs.{World, Io, create_dir_all, create, write_all, sync_all}
use programming_lightning_bu.FilesystemStore.Names.{Config}
use programming_lightning_bu.FilesystemStore.Locks.{Process, next_tmp, with_lock, on_world, collect}
use programming_lightning_bu.FilesystemStore.Io.{write_tmp, commit, tmp_path}
use programming_lightning_bu.FilesystemStore.Interleaved.Solo.{commit_calls, tmp_calls}

-- A result and the world behind it.
abbrev pub view : Outcome IoError (Unit {0}) × Process → Outcome IoError (Unit {0}) × World
view (r, p) = (r, p.world)

on_world-bind :
    {A : Type 0} (m : Io (Unit {0})) (f : Exec Process A) (K : A → Exec Process (Unit {0}))
    (g : Io (Unit {0})) (p : Process)
    → ((w : World) → view ((f >>= K) (record p { world = w })) ≡ g w)
    → view (((on_world m >> f) >>= K) p) ≡ (m >> g) p.world
unfolding on_world ◌>>=◌
on_world-bind {A} m f K g p next = go (m p.world).0
  where
    w : World
    w = (m p.world).1

    go :
        (r : Outcome IoError (Unit {0}))
        → (let (x, q) = continue r (λ _. f) (record p { world = w }) in view (continue x K q))
          ≡ continue r (λ _. g) w
    go (ok x) = next w
    go (err x) = refl
    go panic = refl

-- The clean-up changes neither the result nor the world.
collect-view :
    (r : Outcome IoError (Unit {0})) (q : Process)
    → view (continue r (λ _. collect) q) ≡ (r, q.world)
unfolding collect
collect-view (ok x) q = refl
collect-view (err x) q = refl
collect-view panic q = refl

module _ (c : Config) where
  commit-view :
      (dest under tmp : FilePath) (p : Process)
      → view ((commit c dest under tmp >> collect) p) ≡ commit_calls dest under tmp p.world
  unfolding commit with_lock on_world ◌>>=◌
  commit-view dest under tmp p = collect-view (commit_calls dest under tmp p.world).0 _

  module _ (dest : FilePath) (buf : List ℕ) where
    unfoldable pub commit_pair : FilePath × FilePath → Exec Process (Unit {0})
    commit_pair pair = commit c dest pair.0 pair.1 >> collect

    -- The rest of `write_tmp`, once the directory is known, and once the number is.
    unfoldable pub with_number : FilePath → ℕ → Exec Process (FilePath × FilePath)
    with_number under n =
        on_world (create under (tmp_path dest n))
        >> (on_world (write_all (tmp_path dest n) buf)
            >> (on_world (sync_all (tmp_path dest n)) >> pure (under, tmp_path dest n)))

    unfoldable pub rest : FilePath → Exec Process (FilePath × FilePath)
    rest under = on_world (create_dir_all under) >> (next_tmp >>= with_number under)

    with_number-view :
        (under : FilePath) (n : ℕ) (p : Process)
        → view ((with_number under n >>= commit_pair) p)
          ≡ tmp_calls dest under (tmp_path dest n) buf p.world
    unfolding with_number commit_pair ◌>>=◌
    with_number-view under n p =
        on_world-bind (create under (tmp_path dest n)) _ commit_pair _ p (λ w1.
          on_world-bind (write_all (tmp_path dest n) buf) _ commit_pair _ (record p { world = w1 })
            (λ w2.
              on_world-bind (sync_all (tmp_path dest n)) _ commit_pair _ (record p { world = w2 })
                (λ w3. commit-view dest under (tmp_path dest n) (record p { world = w3 }))))

    rest-view :
        (under : FilePath) (p : Process)
        → view ((rest under >>= commit_pair) p)
          ≡ (create_dir_all under
                >> tmp_calls dest under (tmp_path dest p.store.tmp_file_counter) buf)
              p.world
    unfolding rest next_tmp ◌>>=◌
    rest-view under p =
        on_world-bind (create_dir_all under) (next_tmp >>= with_number under) commit_pair _ p
          (λ w. with_number-view under p.store.tmp_file_counter _)

    -- The calls of a write to a file in a directory, with the next number of the counter.
    pub write_tmp-view :
        (under : FilePath) (p : Process)
        → parent dest ≡ some under
        → view ((write_tmp c dest buf >>= commit_pair) p)
          ≡ (create_dir_all under
                >> tmp_calls dest under (tmp_path dest p.store.tmp_file_counter) buf)
              p.world
    unfolding write_tmp rest with_number ◌>>=◌
    write_tmp-view under p e =
        ap
          (λ x. view ((((λ (s : Process). (ok_or x invalid_input, s)) >>= rest) >>= commit_pair) p))
          e
        ∙ rest-view under p

    -- A path without a parent is refused.
    pub write_tmp-no_parent :
        (p : Process)
        → parent dest ≡ none
        → view ((write_tmp c dest buf >>= commit_pair) p) ≡ (err invalid_input, p.world)
    unfolding write_tmp rest with_number ◌>>=◌
    write_tmp-no_parent p e =
        ap
          (λ x. view ((((λ (s : Process). (ok_or x invalid_input, s)) >>= rest) >>= commit_pair) p))
          e
