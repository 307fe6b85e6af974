-- ===== src/FilesystemStore/Interleaved/Alone.antt =====
-- `write` of one process, and a thread that goes on alone.
use programming_lightning_bu.Base.{
  ℕ, ◌≡◌, refl, sym, ap, ◌∙◌, Option, none, some, replicate, Outcome, err, subst, true,
}
use programming_lightning_bu.Exec.{IoError, invalid_input, continue, ◌>>=◌}
use programming_lightning_bu.FilePath.{FilePath, parent}
use programming_lightning_bu.Fs.{create_dir_all}
use programming_lightning_bu.FilesystemStore.Names.{Config}
use programming_lightning_bu.FilesystemStore.Locks.{FilesystemStore, Process}
use programming_lightning_bu.FilesystemStore.Io.{write, write_tmp}
use programming_lightning_bu.FilesystemStore.Distinct.{Accepted}
use programming_lightning_bu.FilesystemStore.Interleaved.Solo.{
  tmp_calls, Ended, alone, moved_stage, alone-suc, alone-failed, attempt-Ended, numbered-From,
}
use programming_lightning_bu.FilesystemStore.Threads.{
  starting, made, numbered, failed, Writer, System, dest_of, tmp_of, is_free, advance_from, moved,
  attempt, run, stage_after, finished,
}
use programming_lightning_bu.FilesystemStore.Interleaved.Calls.{
  view, commit_pair, write_tmp-view, write_tmp-no_parent,
}

module _ (c : Config) (d : FilePath) (ws : ℕ → Writer) (i : ℕ) where
  -- The store of the thread as one process sees it, and the world of all threads.
  abbrev pub process_of : System → FilesystemStore → Process
  process_of s t = record {
    store = record t { data_dir = d; tmp_file_counter = s.counters (ws i).store };
    world = s.world;
  }

  abbrev pub write_alone : Process → Outcome IoError (Unit {0}) × Process
  write_alone = write c (ws i).primary (ws i).secondary (ws i).key (ws i).buf

  made-Ended :
      (u : FilePath) (s : System)
      → s.stages i ≡ made u
      → is_free d ws i s.holders ≡ true
      → Ended i
          (tmp_calls
            (dest_of d ws i)
            u
            (tmp_of d ws i (s.counters (ws i).store))
            (ws i).buf
            s.world)
          (alone d ws i 8 s)
  unfolding advance_from
  made-Ended u s e h = subst (Ended i _) (sym (alone-suc d ws i 7 (made u) s e)) (
      numbered-From d ws i u (s.counters (ws i).store) (advance_from d ws (made u) i s)
        (moved_stage d ws i (numbered u (s.counters (ws i).store)) s.world s) h)

  -- What is left of a write when its key has been accepted.
  abbrev left : System → FilesystemStore → Outcome IoError (Unit {0}) × Process
  left s t =
      (write_tmp c (dest_of d ws i) (ws i).buf >>= commit_pair c (dest_of d ws i) (ws i).buf)
        (process_of s t)

  write-view :
      (s : System) (t : FilesystemStore)
      → Accepted c (ws i).primary (ws i).secondary (ws i).key
      → view (write_alone (process_of s t)) ≡ view (left s t)
  unfolding write commit_pair ◌>>=◌
  write-view s t valid =
      let after =
        write_tmp c (dest_of d ws i) (ws i).buf >>= commit_pair c (dest_of d ws i) (ws i).buf in
      ap (λ r. view (continue r (λ (x : Unit {0}). after) (process_of s t))) valid

  first_call : Option FilePath → System → System
  first_call under s = elim under [
    | none ↦ moved i failed s.world s
    | some u ↦ attempt (create_dir_all u) (made u) i s
  ]

  first_call-eq :
      (under : Option FilePath) (s : System)
      → s.stages i ≡ starting
      → parent (dest_of d ws i) ≡ under
      → alone d ws i 9 s ≡ alone d ws i 8 (first_call under s)
  unfolding advance_from first_call
  first_call-eq under s e p =
      alone-suc d ws i 8 starting s e ∙ ap (λ x. alone d ws i 8 (first_call x s)) p

  starting-Ended :
      (s : System) (t : FilesystemStore)
      → s.stages i ≡ starting
      → is_free d ws i s.holders ≡ true
      → (under : Option FilePath) → parent (dest_of d ws i) ≡ under
      → Ended i (view (left s t)) (alone d ws i 9 s)
  unfolding first_call
  starting-Ended s t e h none p =
      let stuck =
        alone-failed d ws i 8 (moved i failed s.world s) (moved_stage d ws i failed s.world s) in
      let runs = first_call-eq none s e p ∙ stuck in
      let result = write_tmp-no_parent c (dest_of d ws i) (ws i).buf (process_of s t) p in
      subst (λ x. Ended i x (alone d ws i 9 s)) (sym result)
        (subst (Ended i (err invalid_input, s.world)) (sym runs)
          (record { same_world = refl; same_stage = moved_stage d ws i failed s.world s }))
  starting-Ended s t e h (some u) p =
      let calls =
        tmp_calls (dest_of d ws i) u (tmp_of d ws i (s.counters (ws i).store)) (ws i).buf in
      subst (λ x. Ended i x (alone d ws i 9 s))
        (sym (write_tmp-view c (dest_of d ws i) (ws i).buf u (process_of s t) p))
        (subst (Ended i _) (sym (first_call-eq (some u) s e p)) (
          attempt-Ended d ws i 8 (create_dir_all u) calls (made u) s (λ s' at same counters.
            subst
              (λ n.
                Ended i (tmp_calls (dest_of d ws i) u (tmp_of d ws i n) (ws i).buf s'.world)
                  (alone d ws i 8 s'))
              (ap (λ f. f (ws i).store) counters)
              (made-Ended u s' at (ap (is_free d ws i) same ∙ h)))))

  -- A thread that has not begun, that writes a valid key and whose lock nobody of its store holds,
  -- goes on alone for nine steps: the world is then the one that `write` of its store leaves, called
  -- with the number that the store's counter shows, and the thread has finished if `write` returns
  -- and has failed if `write` fails, in every case of its calls.
  run-write :
      (s : System) (t : FilesystemStore)
      → Accepted c (ws i).primary (ws i).secondary (ws i).key
      → s.stages i ≡ starting
      → is_free d ws i s.holders ≡ true
      → ((run d ws (replicate 9 i) s).world ≡ (write_alone (process_of s t)).1.world)
        × ((run d ws (replicate 9 i) s).stages i
            ≡ stage_after (write_alone (process_of s t)).0 finished)
  run-write s t valid e h =
      let ended =
        subst (λ x. Ended i x (alone d ws i 9 s)) (sym (write-view s t valid))
          (starting-Ended s t e h (parent (dest_of d ws i)) refl) in
      (ended.same_world, ended.same_stage)
