-- ===== src/FilesystemStore/Interleaved/Numbering.antt =====
-- The invariant when a thread takes the number of its temporary file.
use programming_lightning_bu.Base.{
  ℕ, suc, ◌+◌, ◌%◌, ◌<◌, ◌≡◌, ◌≢◌, inl, inr, sym, ap, ◌∙◌, some, arith, eqb, subst, Bool-cases,
  list_eq, nat_eq,
}
use programming_lightning_bu.FilePath.{FilePath}
use programming_lightning_bu.Fs.{World}
use programming_lightning_bu.FilesystemStore.Locks.{usize_mod}
use programming_lightning_bu.FilesystemStore.Threads.{
  made, numbered, Writer, System, set, advance_from,
}
use programming_lightning_bu.FilesystemStore.Interleaved.Stages.{
  number, complete, past_before, numbered_cases,
}
use programming_lightning_bu.FilesystemStore.Interleaved.Invariant.{Inv}

module _ (d : FilePath) (ws : ℕ → Writer) (w0 : World) where
  -- Two threads of a store never hold one number.
  number-distinct :
      (left i : ℕ) (u : FilePath) (s : System)
      → Inv d ws w0 (suc left) s
      → (j k m : ℕ) → j ≢ k
      → (ws j).store ≡ (ws k).store
      → number (set i (numbered u (s.counters (ws i).store)) s.stages j) ≡ some m
      → number (set i (numbered u (s.counters (ws i).store)) s.stages k) ≡ some m
      → ⊥
  number-distinct left i u s inv j k m ne stores e f =
      elim (numbered_cases s.stages i j m u (s.counters (ws i).store) e) [
        | inl (same, is_new) ↦ elim (numbered_cases s.stages i k m u (s.counters (ws i).store) f) [
          | inl (same', _) ↦ ne (sym same ∙ same')
          | inr (_, before) ↦ omega (
            arith,
            inv.below k m before,
            is_new,
            ap (λ x. s.counters (ws x).store) same,
            ap s.counters stores,
          )
        ]
        | inr (_, before) ↦ elim (numbered_cases s.stages i k m u (s.counters (ws i).store) f) [
          | inl (same', is_new) ↦ omega (
            arith,
            inv.below j m before,
            is_new,
            ap (λ x. s.counters (ws x).store) same',
            ap s.counters stores,
          )
          | inr (_, before') ↦ inv.distinct j k m ne stores before before'
        ]
      ]

  pub number-Inv :
      (left i : ℕ) (u : FilePath) (s : System)
      → Inv d ws w0 (suc left) s
      → s.stages i ≡ made u
      → Inv d ws w0 left (advance_from d ws (made u) i s)
  unfolding advance_from
  number-Inv left i u s inv at = record {
    room = λ x. elim (Bool-cases (eqb (ws i).store x)) [
      | inl y ↦
          let same : (ws i).store ≡ x = ground arith in ground (arith, y, inv.room (ws i).store)
      | inr differs ↦ ground (arith, differs, inv.room x)
    ];
    below = λ j m e. elim (numbered_cases s.stages i j m u (s.counters (ws i).store) e) [
      | inl (same, is_new) ↦
          subst
            (λ k.
              m
              < set (ws i).store ((s.counters (ws i).store + 1) % usize_mod) s.counters
                  (ws k).store)
            same (ground (arith, is_new, inv.room (ws i).store))
      | inr (differs, before) ↦ ground (arith, inv.below j m before, inv.room (ws i).store)
    ];
    distinct = number-distinct left i u s inv;
    whole = λ j m e. elim (Bool-cases (eqb i j)) [
      | inl y ↦ absurd (none_created (s.counters (ws i).store) m (ground (arith, e, y)))
      | inr differs ↦ inv.whole j m (ground (arith, e, differs))
    ];
    settled = λ q fin. elim (inv.settled q fin) [
      | inl (old, none_past) ↦ inl (
        old,
        λ j e.
            past_before s.stages i (numbered u (s.counters (ws i).store)) (λ p. absurd (cc p)) j
              (none_past j e),
      )
      | inr new ↦ inr new
    ];
  }
    where
      none_created : (c m : ℕ) → complete (numbered u c) ≢ some m
      none_created c m e = cc
