-- ===== src/FilesystemStore/Interleaved/Renaming.antt =====
-- The invariant through the renaming of a temporary file.
use programming_lightning_bu.Base.{
  ℕ, suc, ◌≡◌, ◌≢◌, inl, inr, refl, sym, ap, ◌∙◌, false, some, arith, eqb, subst, ok, Outcome,
  Bool-cases, err, eq_dec, panic, list_eq, nat_eq,
}
use programming_lightning_bu.Exec.{IoError}
use programming_lightning_bu.FilePath.{FilePath}
use programming_lightning_bu.Fs.{World, rename}
use programming_lightning_bu.Fs.Laws.{content, content-rename, content-rename_self}
use programming_lightning_bu.FilesystemStore.Threads.{
  Stage, renamed, holding, Writer, System, moved, dest_of, tmp_of, attempt, stage_after,
}
use programming_lightning_bu.FilesystemStore.Interleaved.Stages.{
  number, complete, is_past, past_before,
}
use programming_lightning_bu.FilesystemStore.Interleaved.Invariant.{
  Settled, IsFinal, Inv, moved-Inv,
}

module _ (d : FilePath) (ws : ℕ → Writer) (w0 : World)
    (apart : (i j n m : ℕ)
      → i ≢ j
      → tmp_of d ws i n ≡ tmp_of d ws j m
      → ((ws i).store ≡ (ws j).store) × (n ≡ m))
    (final : (i : ℕ) → IsFinal d ws w0 (dest_of d ws i)) where
  pub rename-Inv :
      (left i n : ℕ) (u : FilePath) (s : System)
      → Inv d ws w0 (suc left) s
      → s.stages i ≡ holding u n
      → Inv d ws w0 left (attempt (rename (tmp_of d ws i n) (dest_of d ws i)) (renamed u) i s)
  rename-Inv left i n u s inv at =
      moved-Inv d ws w0 apart final left i st w s inv
        (λ m e. absurd (none_number (rename tmp dest s.world).0 m e))
        (λ m e. absurd (none_complete (rename tmp dest s.world).0 m e))
        (λ q h k. content-rename q tmp dest s.world (h n (ap number at)) k) settles
    where
      tmp : FilePath
      tmp = tmp_of d ws i n

      dest : FilePath
      dest = dest_of d ws i

      st : Stage
      st = stage_after (rename tmp dest s.world).0 (renamed u)

      w : World
      w = (rename tmp dest s.world).1

      none_number :
          (r : Outcome IoError (Unit {0})) (m : ℕ) → number (stage_after r (renamed u)) ≢ some m
      none_number (ok x) m e = cc
      none_number (err x) m e = cc
      none_number panic m e = cc

      none_complete :
          (r : Outcome IoError (Unit {0})) (m : ℕ) → complete (stage_after r (renamed u)) ≢ some m
      none_complete (ok x) m e = cc
      none_complete (err x) m e = cc
      none_complete panic m e = cc

      refused :
          (r : Outcome IoError (Unit {0})) → r ≢ ok tt → is_past (stage_after r (renamed u)) ≡ false
      refused (ok x) h = absurd (h refl)
      refused (err x) h = refl
      refused panic h = refl

      unchanged :
          content dest w ≡ content dest s.world
          → is_past st ≡ false
          → Settled d ws w0 s dest
          → Settled d ws w0 (moved i st w s) dest
      unchanged same now (inl (old, none_past)) =
          inl (same ∙ old, λ j e. past_before s.stages i st (λ p. absurd (cc)) j (none_past j e))
      unchanged same now (inr (j, e, new)) = inr (j, e, same ∙ new)

      others :
          (q : FilePath)
          → IsFinal d ws w0 q
          → q ≢ dest
          → Settled d ws w0 s q
          → Settled d ws w0 (moved i st w s) q
      others q fin ne (inl (old, none_past)) = inl (
        content-rename q tmp dest s.world (fin i n) ne ∙ old,
        λ j e. elim (Bool-cases (eqb i j)) [
          | inl y ↦
              let same : i ≡ j = ground arith in absurd (ne (sym (ap (dest_of d ws) same ∙ e)))
          | inr differs ↦ ground (arith, none_past j e, differs)
        ],
      )
      others q fin ne (inr (j, e, new)) =
          inr (j, e, content-rename q tmp dest s.world (fin i n) ne ∙ new)

      settles : (q : FilePath) → IsFinal d ws w0 q → Settled d ws w0 (moved i st w s) q
      settles q fin = elim (eq_dec q dest) [
        | yes e ↦
            subst (Settled d ws w0 (moved i st w s)) (sym e)
              (elim (content-rename_self tmp dest (ws i).buf s.world
                (λ same. final i i n (sym same)) (inv.whole i n (ap complete at))) [
                  | inl (done, new) ↦ inr (i, refl, new)
                  | inr (fails, same) ↦
                      unchanged same (refused (rename tmp dest s.world).0 fails)
                        (inv.settled dest (final i))
                ])
        | no ne ↦ others q fin ne (inv.settled q fin)
      ]
