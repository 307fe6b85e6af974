-- ===== src/FilesystemStore/Atomic.antt =====
-- `write` replaces a key's file in one step, whichever call of the file system fails.
use programming_lightning_bu.Base.{
  ℕ, ◌≡◌, ◌≢◌, Option, some, List, arith, ok, Outcome, err, inr, sym, ◌⊎◌, panic,
}
use programming_lightning_bu.Exec.{IoError, bind_rule, ◌>>=◌}
use programming_lightning_bu.FilePath.{FilePath, parent}
use programming_lightning_bu.Fs.{World, create_dir_all, create, write_all, rename, open_read}
use programming_lightning_bu.Fs.Laws.{
  content, content-create_dir_all, content-create, content-write_all, content-sync_all,
  content-write_all_self, content-rename, content-open_read, content-rename_self,
}
use programming_lightning_bu.FilesystemStore.Names.{Config}
use programming_lightning_bu.FilesystemStore.Locks.{Process, on_world, next_tmp, with_lock, collect}
use programming_lightning_bu.FilesystemStore.Io.{tmp_path, write_tmp, commit}

abbrev pub file_at : FilePath → Process → Option (List ℕ)
file_at q s = content q s.world

module _ (c : Config) (dest under : FilePath) (buf : List ℕ) (s : Process)
    (above : parent dest ≡ some under) where
  abbrev tmp : FilePath
  tmp = tmp_path dest s.store.tmp_file_counter

  made : World
  made = (create_dir_all under s.world).1

  created : World
  created = (create under tmp made).1

  written : World
  written = (write_all tmp buf created).1

  write_tmp_others : (q : FilePath) → q ≢ tmp → file_at q (write_tmp c dest buf s).1 ≡ file_at q s
  unfolding write_tmp on_world next_tmp made created written
  write_tmp_others q h = ground (
    arith,
    above,
    content-create_dir_all q under s.world,
    content-create q under tmp made h,
    content-write_all q tmp buf created h,
    content-sync_all q tmp written,
  )

  write_tmp_whole :
      (u p : FilePath)
      → (write_tmp c dest buf s).0 ≡ ok (u, p)
      → (u ≡ under) × (p ≡ tmp) × (file_at tmp (write_tmp c dest buf s).1 ≡ some buf)
  unfolding write_tmp on_world next_tmp made created written
  write_tmp_whole u p e =
      ground
        (arith, above, content-write_all_self tmp buf created, content-sync_all tmp tmp written)

-- The block under the lock moves the temporary file or changes nothing.
module _ (c : Config) (dest under tmp : FilePath) (buf : List ℕ) (s : Process)
    (apart : tmp ≢ dest) where
  renamed : World
  renamed = (rename tmp dest s.world).1

  commit_others :
      (q : FilePath) → q ≢ tmp → q ≢ dest → file_at q (commit c dest under tmp s).1 ≡ file_at q s
  unfolding commit with_lock on_world renamed
  commit_others q h k = ground (
    arith,
    content-rename q tmp dest s.world h k,
    content-open_read q under renamed,
    content-sync_all q under (open_read under renamed).1,
  )

  commit-dest :
      file_at tmp s ≡ some buf
      → (file_at dest (commit c dest under tmp s).1 ≡ some buf)
        ⊎ ((commit c dest under tmp s).0 ≢ ok tt)
          × (file_at dest (commit c dest under tmp s).1 ≡ file_at dest s)
  unfolding commit with_lock on_world renamed
  commit-dest e = ground (
    arith,
    content-rename_self tmp dest buf s.world apart e,
    content-open_read dest under renamed,
    content-sync_all dest under (open_read under renamed).1,
  )

-- What a call of `write` from `s` leaves, with its result `r`, in the world of `t`.
pub record Written (dest : FilePath) (buf : List ℕ) (s : Process) (r : Outcome IoError (Unit {0}))
    (t : Process) : Type 0 where
  -- The key's file is the old one or the complete new one.
  pub whole : (file_at dest t ≡ some buf) ⊎ (r ≢ ok tt) × (file_at dest t ≡ file_at dest s)
  -- All other files but the temporary one are as they were.
  pub others :
      (q : FilePath)
      → q ≢ dest
      → q ≢ tmp_path dest s.store.tmp_file_counter
      → file_at q t ≡ file_at q s

abbrev pub Finished : FilePath → List ℕ → Process → Outcome IoError (Unit {0}) × Process → Type 0
Finished dest buf s (r, t) = Written dest buf s r t

module _ (c : Config) (dest under : FilePath) (buf : List ℕ) (s : Process)
    (above : parent dest ≡ some under) (apart : tmp_path dest s.store.tmp_file_counter ≢ dest) where
  tmp_written : Process
  tmp_written = (write_tmp c dest buf s).1

  -- The calls after the temporary file is complete.
  finish-Written :
      (u p : FilePath)
      → (write_tmp c dest buf s).0 ≡ ok (u, p)
      → Finished dest buf s ((commit c dest u p >>= λ _. collect) tmp_written)
  unfolding ◌>>=◌ tmp_written collect
  finish-Written u p e =
      let (_, p-tmp, whole) = write_tmp_whole c dest under buf s above u p e in
      let there = write_tmp_others c dest under buf s above dest (λ q. apart (sym q)) in
      rw p-tmp (record {
        whole = ground (
          arith,
          commit-dest c dest u (tmp_path dest s.store.tmp_file_counter) buf tmp_written apart whole,
          there,
        );
        others = λ q h k. ground (
          arith,
          commit_others c dest u (tmp_path dest s.store.tmp_file_counter) buf tmp_written apart q k
              h,
          write_tmp_others c dest under buf s above q k,
        );
      })

  failed-Written : (r : Outcome IoError (Unit {0})) → r ≢ ok tt → Written dest buf s r tmp_written
  unfolding tmp_written
  failed-Written r h = record {
    whole = inr (h, write_tmp_others c dest under buf s above dest (λ q. apart (sym q)));
    others = λ q _ k. write_tmp_others c dest under buf s above q k;
  }

  pub write_steps-Written :
      Finished dest buf s
        ((write_tmp c dest buf >>= λ (u, p). commit c dest u p >>= λ _. collect) s)
  unfolding tmp_written
  write_steps-Written =
      bind_rule (Finished dest buf s) (write_tmp c dest buf)
        (λ (u, p). commit c dest u p >>= λ _. collect) s (λ (u, p) e. finish-Written u p e)
        (λ x e. failed-Written (err x) (λ q. cc)) (λ e. failed-Written panic (λ q. cc))
