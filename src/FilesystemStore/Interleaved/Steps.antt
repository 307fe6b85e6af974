-- ===== src/FilesystemStore/Interleaved/Steps.antt =====
-- The invariant through every call of a thread.
use programming_lightning_bu.Base.{
  ℕ, suc, ◌≡◌, ◌≢◌, refl, ap, ◌∙◌, Bool, true, false, Option, none, some, ◌∷◌, if◌then◌else◌, subst,
  ok, Outcome, err, panic, list_eq, nat_eq,
}
use mathlib.Core.Option.{some-injective}
use programming_lightning_bu.Exec.{IoError}
use programming_lightning_bu.FilePath.{FilePath, parent}
use programming_lightning_bu.Fs.{World, Io, create_dir_all, create, write_all, sync_all, open_read}
use programming_lightning_bu.Fs.Laws.{
  content, content-create_dir_all, content-create, content-write_all_self, content-write_all,
  content-sync_all, content-open_read,
}
use programming_lightning_bu.FilesystemStore.Threads.{
  Stage, starting, made, renamed, opened, numbered, created, written, synced, holding, finished,
  failed, Writer, System, moved, dest_of, tmp_of, advance_from, attempt, stage_after, is_free,
}
use programming_lightning_bu.FilesystemStore.Interleaved.Stages.{number, complete, is_past}
use programming_lightning_bu.FilesystemStore.Interleaved.Invariant.{
  IsFinal, Inv, Frame, quiet-Inv, idle-Inv, holders-Inv,
}
use programming_lightning_bu.FilesystemStore.Interleaved.Renaming.{rename-Inv}
use programming_lightning_bu.FilesystemStore.Interleaved.Numbering.{number-Inv}

module _ (d : FilePath) (ws : ℕ → Writer) (w0 : World)
    (apart : (i j n m : ℕ)
      → i ≢ j
      → tmp_of d ws i n ≡ tmp_of d ws j m
      → ((ws i).store ≡ (ws j).store) × (n ≡ m))
    (final : (i : ℕ) → IsFinal d ws w0 (dest_of d ws i)) where
  attempt-Inv :
      (left i : ℕ) (m : Io (Unit {0})) (st : Stage) (s : System)
      → Inv d ws w0 (suc left) s
      → ((n : ℕ) → number st ≡ some n → number (s.stages i) ≡ some n)
      → (is_past st ≡ true → is_past (s.stages i) ≡ true)
      → ((m s.world).0 ≡ ok tt
          → (n : ℕ) → complete st ≡ some n
          → content (tmp_of d ws i n) (m s.world).1 ≡ some (ws i).buf)
      → Frame d ws w0 i (s.stages i) s.world (m s.world).1
      → Inv d ws w0 left (attempt m st i s)
  attempt-Inv left i m st s inv keeps past filled frame = go (m s.world).0 refl
    where
      go :
          (r : Outcome IoError (Unit {0}))
          → (m s.world).0 ≡ r
          → Inv d ws w0 left (moved i (stage_after r st) (m s.world).1 s)
      go (ok x) e =
          quiet-Inv d ws w0 apart final left i st (m s.world).1 s inv keeps past (filled e) frame
      go (err x) e =
          quiet-Inv d ws w0 apart final left i failed (m s.world).1 s inv (λ n f. absurd (cc f))
            (λ f. absurd (cc f)) (λ n f. absurd (cc f)) frame
      go panic e =
          quiet-Inv d ws w0 apart final left i failed (m s.world).1 s inv (λ n f. absurd (cc f))
            (λ f. absurd (cc f)) (λ n f. absurd (cc f)) frame

  pub advance_from-Inv :
      (left i : ℕ) (st : Stage) (s : System)
      → Inv d ws w0 (suc left) s
      → s.stages i ≡ st
      → Inv d ws w0 left (advance_from d ws st i s)
  unfolding advance_from
  advance_from-Inv left i starting s inv at = go (parent (dest_of d ws i))
    where
      go :
          (o : Option FilePath)
          → Inv d ws w0 left (elim o [
            | none ↦ moved i failed s.world s
            | some under ↦ attempt (create_dir_all under) (made under) i s
          ])
      go none =
          quiet-Inv d ws w0 apart final left i failed s.world s inv (λ n f. absurd (cc f))
            (λ f. absurd (cc f)) (λ n f. absurd (cc f)) (λ q h. refl)
      go (some under) =
          attempt-Inv left i (create_dir_all under) (made under) s inv (λ m e. absurd (cc e))
            (λ e. absurd (cc e)) (λ done m e. absurd (cc e))
            (λ q h. content-create_dir_all q under s.world)
  advance_from-Inv left i (made u) s inv at = number-Inv d ws w0 left i u s inv at
  advance_from-Inv left i (numbered u n) s inv at =
      attempt-Inv left i (create u (tmp_of d ws i n)) (created u n) s inv (λ m e. ap number at ∙ e)
        (λ e. absurd (cc e)) (λ done m e. absurd (cc e))
        (λ q h. content-create q u (tmp_of d ws i n) s.world (h n (ap number at)))
  advance_from-Inv left i (created u n) s inv at =
      attempt-Inv left i (write_all (tmp_of d ws i n) (ws i).buf) (written u n) s inv
        (λ m e. ap number at ∙ e) (λ e. absurd (cc e))
        (λ done m e.
          subst
            (λ k.
              content (tmp_of d ws i k) (write_all (tmp_of d ws i n) (ws i).buf s.world).1
              ≡ some (ws i).buf)
            (some-injective n m e)
            (content-write_all_self (tmp_of d ws i n) (ws i).buf s.world done))
        (λ q h. content-write_all q (tmp_of d ws i n) (ws i).buf s.world (h n (ap number at)))
  advance_from-Inv left i (written u n) s inv at =
      attempt-Inv left i (sync_all (tmp_of d ws i n)) (synced u n) s inv (λ m e. ap number at ∙ e)
        (λ e. absurd (cc e))
        (λ done m e.
          content-sync_all (tmp_of d ws i m) (tmp_of d ws i n) s.world
          ∙ inv.whole i m (ap complete at ∙ e))
        (λ q h. content-sync_all q (tmp_of d ws i n) s.world)
  advance_from-Inv left i (synced u n) s inv at = go (is_free d ws i s.holders)
    where
      go :
          (b : Bool)
          → Inv d ws w0 left (
              if b then record (moved i (holding u n) s.world s) { holders = i ∷ s.holders } else s)
      go true = holders-Inv d ws w0 apart final left (i ∷ s.holders) _ (
          quiet-Inv d ws w0 apart final left i (holding u n) s.world s inv (λ m e. ap number at ∙ e)
            (λ e. absurd (cc e)) (λ m e. inv.whole i m (ap complete at ∙ e)) (λ q h. refl))
      go false = idle-Inv d ws w0 apart final left s inv
  advance_from-Inv left i (holding u n) s inv at =
      rename-Inv d ws w0 apart final left i n u s inv at
  advance_from-Inv left i (renamed u) s inv at =
      attempt-Inv left i (open_read u) (opened u) s inv (λ m e. absurd (cc e)) (λ e. ap is_past at)
        (λ done m e. absurd (cc e)) (λ q h. content-open_read q u s.world)
  advance_from-Inv left i (opened u) s inv at =
      attempt-Inv left i (sync_all u) finished s inv (λ m e. absurd (cc e)) (λ e. ap is_past at)
        (λ done m e. absurd (cc e)) (λ q h. content-sync_all q u s.world)
  advance_from-Inv left i finished s inv at = idle-Inv d ws w0 apart final left s inv
  advance_from-Inv left i failed s inv at = idle-Inv d ws w0 apart final left s inv
