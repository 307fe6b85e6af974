-- ===== src/FilesystemStore/Interleaved/Solo.antt =====
-- A thread that nobody interrupts, from each of its stages on.
use programming_lightning_bu.Base.{
  ℕ, zero, suc, ◌≡◌, refl, sym, ap, ◌∙◌, true, List, ◌∷◌, replicate, arith, if◌then◌else◌, ok, err,
  panic, Outcome, subst,
}
use programming_lightning_bu.Exec.{IoError, ◌>>=◌, ◌>>◌, continue}
use programming_lightning_bu.FilePath.{FilePath}
use programming_lightning_bu.Fs.{World, Io, rename, create, write_all, sync_all, open_read}
use programming_lightning_bu.FilesystemStore.Threads.{
  Stage, renamed, opened, numbered, created, written, synced, holding, finished, failed, Writer,
  System, moved, dest_of, tmp_of, advance, run, advance_from, attempt, stage_after, is_free,
}

-- The calls of the file system that `write` makes.
abbrev pub commit_calls : FilePath → FilePath → FilePath → Io (Unit {0})
commit_calls dest under tmp = rename tmp dest >> (open_read under >> sync_all under)

abbrev pub tmp_calls : FilePath → FilePath → FilePath → List ℕ → Io (Unit {0})
tmp_calls dest under tmp buf =
    create under tmp >> (write_all tmp buf >> (sync_all tmp >> commit_calls dest under tmp))

-- What the thread has come to, against a result and the world behind it.
pub record Ended (i : ℕ) (r : Outcome IoError (Unit {0}) × World) (t : System) : Type 0 where
  pub same_world : t.world ≡ r.1
  pub same_stage : t.stages i ≡ stage_after r.0 finished

module _ (d : FilePath) (ws : ℕ → Writer) (i : ℕ) where
  abbrev pub alone : ℕ → System → System
  alone k s = run d ws (replicate k i) s

  pub moved_stage : (st : Stage) (w : World) (s : System) → (moved i st w s).stages i ≡ st
  moved_stage st w s = ground arith

  advance-at :
      (st : Stage) (s : System) → s.stages i ≡ st → advance d ws i s ≡ advance_from d ws st i s
  unfolding advance
  advance-at st s e = ap (λ x. advance_from d ws x i s) e

  pub alone-suc :
      (k : ℕ) (st : Stage) (s : System)
      → s.stages i ≡ st
      → alone (suc k) s ≡ alone k (advance_from d ws st i s)
  unfolding run
  alone-suc k st s e = ap (alone k) (advance-at st s e)

  pub alone-failed : (k : ℕ) (s : System) → s.stages i ≡ failed → alone k s ≡ s
  unfolding run advance_from
  alone-failed zero s e = refl
  alone-failed (suc k) s e = alone-suc k failed s e ∙ alone-failed k s e

  -- A call, and what comes after it.
  pub attempt-Ended :
      (k : ℕ) (m f : Io (Unit {0})) (st : Stage) (s : System)
      → ((t : System)
          → t.stages i ≡ st
          → t.holders ≡ (moved i st s.world s).holders
          → t.counters ≡ s.counters
          → Ended i (f t.world) (alone k t))
      → Ended i ((m >> f) s.world) (alone k (attempt m st i s))
  unfolding ◌>>=◌
  attempt-Ended k m f st s next = go (m s.world).0
    where
      w : World
      w = (m s.world).1

      stays :
          (r : Outcome IoError (Unit {0}))
          → stage_after r finished ≡ failed
          → Ended i (r, w) (alone k (moved i failed w s))
      stays r e =
          subst (Ended i (r, w))
            (sym (alone-failed k (moved i failed w s) (moved_stage failed w s)))
            (record { same_world = refl; same_stage = moved_stage failed w s ∙ sym e })

      go :
          (r : Outcome IoError (Unit {0}))
          → Ended i (continue r (λ _. f) w) (alone k (moved i (stage_after r st) w s))
      go (ok x) = next (moved i st w s) (moved_stage st w s) refl refl
      go (err x) = stays (err x) refl
      go panic = stays panic refl

  -- The last call.
  last-Ended : (m : Io (Unit {0})) (s : System) → Ended i (m s.world) (attempt m finished i s)
  last-Ended m s = record {
    same_world = refl;
    same_stage = moved_stage (stage_after (m s.world).0 finished) (m s.world).1 s;
  }

  -- From a stage on, with the calls that are left, where the holders of locks are as the stage needs.
  abbrev pub From : (List ℕ → Type 0) → ℕ → Stage → Io (Unit {0}) → Type 0
  From held k st m =
      (t : System) → t.stages i ≡ st → held t.holders → Ended i (m t.world) (alone k t)

  abbrev pub Any : List ℕ → Type 0
  Any hs = Unit

  abbrev pub Free : List ℕ → Type 0
  Free hs = is_free d ws i hs ≡ true

  step :
      (held : List ℕ → Type 0) (k : ℕ) (old st : Stage) (m f : Io (Unit {0}))
      → ((s : System) → advance_from d ws old i s ≡ attempt m st i s)
      → ((s : System) → (moved i st s.world s).holders ≡ s.holders)
      → From held k st f
      → From held (suc k) old (m >> f)
  step held k old st m f calls keeps rest s e h =
      subst (Ended i ((m >> f) s.world)) (sym (alone-suc k old s e ∙ ap (alone k) (calls s))) (
        attempt-Ended k m f st s
          (λ t at same counters. rest t at (subst held (sym (same ∙ keeps s)) h)))

  opened-From : (u : FilePath) → From Any 1 (opened u) (sync_all u)
  unfolding run advance_from
  opened-From u s e h =
      subst (Ended i (sync_all u s.world)) (sym (alone-suc 0 (opened u) s e))
        (last-Ended (sync_all u) s)

  renamed-From : (u : FilePath) → From Any 2 (renamed u) (open_read u >> sync_all u)
  unfolding advance_from
  renamed-From u =
      step Any 1 (renamed u) (opened u) (open_read u) (sync_all u) (λ s. refl) (λ s. refl)
        (opened-From u)

  module _ (u : FilePath) (n : ℕ) where
    abbrev dest : FilePath
    dest = dest_of d ws i

    abbrev tmp : FilePath
    tmp = tmp_of d ws i n

    holding-From : From Any 3 (holding u n) (commit_calls dest u tmp)
    unfolding advance_from
    holding-From =
        step Any 2 (holding u n) (renamed u) (rename tmp dest) (open_read u >> sync_all u)
          (λ s. refl) (λ s. refl) (renamed-From u)

    taken : System → System
    taken s = record (moved i (holding u n) s.world s) { holders = i ∷ s.holders }

    takes : (s : System) → Free s.holders → advance_from d ws (synced u n) i s ≡ taken s
    unfolding taken advance_from
    takes s h = ap (λ b. if b then taken s else s) h

    synced-From : From Free 4 (synced u n) (commit_calls dest u tmp)
    unfolding taken
    synced-From s e h =
        subst (Ended i (commit_calls dest u tmp s.world))
          (sym (alone-suc 3 (synced u n) s e ∙ ap (alone 3) (takes s h)))
          (holding-From (taken s) (moved_stage (holding u n) s.world s) tt)

    pub numbered-From : From Free 7 (numbered u n) (tmp_calls dest u tmp (ws i).buf)
    unfolding advance_from
    numbered-From =
        step Free 6 (numbered u n) (created u n) (create u tmp) _ (λ s. refl) (λ s. refl)
          (step Free 5 (created u n) (written u n) (write_all tmp (ws i).buf) _ (λ s. refl)
            (λ s. refl)
            (step Free 4 (written u n) (synced u n) (sync_all tmp) (commit_calls dest u tmp)
              (λ s. refl) (λ s. refl) synced-From))
