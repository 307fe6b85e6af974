-- ===== src/FilesystemStore/Interleaved/Invariant.antt =====
-- What holds between two calls of the threads that write.
use programming_lightning_bu.Base.{
  ℕ, suc, ◌+◌, ◌<◌, ◌≡◌, ◌≢◌, ◌⊎◌, inl, inr, sym, ap, ◌∙◌, true, false, some, List, arith, eqb,
  subst, Bool-cases, list_eq, nat_eq,
}
use programming_lightning_bu.FilePath.{FilePath}
use programming_lightning_bu.Fs.{World}
use programming_lightning_bu.Fs.Laws.{content}
use programming_lightning_bu.FilesystemStore.Locks.{usize_mod}
use programming_lightning_bu.FilesystemStore.Threads.{Stage, Writer, System, moved, dest_of, tmp_of}
use programming_lightning_bu.FilesystemStore.Interleaved.Stages.{
  number, complete, is_past, complete-number, number_before, past_before,
}

module _ (d : FilePath) (ws : ℕ → Writer) (w0 : World) where
  -- The file is the old one and nobody has replaced it, or it is all of what one writer writes.
  abbrev pub Settled : System → FilePath → Type 0
  Settled s q =
      (content q s.world ≡ content q w0)
        × ((i : ℕ) → dest_of d ws i ≡ q → is_past (s.stages i) ≡ false)
      ⊎ (i : ℕ) × (dest_of d ws i ≡ q) × (content q s.world ≡ some (ws i).buf)

  -- Not the path of a temporary file.
  abbrev pub IsFinal : FilePath → Type 0
  IsFinal q = (i n : ℕ) → q ≢ tmp_of d ws i n

  pub record Inv (left : ℕ) (s : System) : Type 0 where
    pub room : (x : ℕ) → s.counters x + left < usize_mod
    pub below : (i n : ℕ) → number (s.stages i) ≡ some n → n < s.counters (ws i).store
    pub distinct :
        (i j n : ℕ)
        → i ≢ j
        → (ws i).store ≡ (ws j).store
        → number (s.stages i) ≡ some n
        → number (s.stages j) ≢ some n
    pub whole :
        (i n : ℕ)
        → complete (s.stages i) ≡ some n
        → content (tmp_of d ws i n) s.world ≡ some (ws i).buf
    pub settled : (q : FilePath) → IsFinal q → Settled s q

  -- The files of a thread: what its next call may touch.
  abbrev pub Frame : ℕ → Stage → World → World → Type 0
  Frame i old w w' =
      (q : FilePath)
      → ((n : ℕ) → number old ≡ some n → q ≢ tmp_of d ws i n)
      → content q w' ≡ content q w

  module _
      (apart : (i j n m : ℕ)
        → i ≢ j
        → tmp_of d ws i n ≡ tmp_of d ws j m
        → ((ws i).store ≡ (ws j).store) × (n ≡ m))
      (final : (i : ℕ) → IsFinal (dest_of d ws i)) where
    -- A call of one thread leaves the complete temporary files of the others.
    others_whole :
        (left i j n : ℕ) (s : System) (w' : World)
        → Inv left s
        → i ≢ j
        → complete (s.stages j) ≡ some n
        → ((q : FilePath)
            → ((m : ℕ) → number (s.stages i) ≡ some m → q ≢ tmp_of d ws i m)
            → q ≢ dest_of d ws i
            → content q w' ≡ content q s.world)
        → content (tmp_of d ws j n) w' ≡ some (ws j).buf
    others_whole left i j n s w' inv ne e frame =
        let mine = complete-number (s.stages j) n e in
        frame (tmp_of d ws j n)
          (λ m num same.
            let (stores, numbers) = apart i j m n ne (sym same) in
            inv.distinct i j m ne stores num (mine ∙ ap some (sym numbers)))
          (λ same. final i j n (sym same))
        ∙ inv.whole j n e

    pub moved-Inv :
        (left i : ℕ) (st : Stage) (w : World) (s : System)
        → Inv (suc left) s
        → ((n : ℕ) → number st ≡ some n → number (s.stages i) ≡ some n)
        → ((n : ℕ) → complete st ≡ some n → content (tmp_of d ws i n) w ≡ some (ws i).buf)
        → ((q : FilePath)
            → ((n : ℕ) → number (s.stages i) ≡ some n → q ≢ tmp_of d ws i n)
            → q ≢ dest_of d ws i
            → content q w ≡ content q s.world)
        → ((q : FilePath) → IsFinal q → Settled (moved i st w s) q)
        → Inv left (moved i st w s)
    moved-Inv left i st w s inv keeps filled frame settles = record {
      room = λ x. ground (arith, inv.room x);
      below = λ j n e. inv.below j n (number_before s.stages i st keeps j n e);
      distinct = λ j k n ne stores e f.
          inv.distinct j k n ne stores (number_before s.stages i st keeps j n e)
            (number_before s.stages i st keeps k n f);
      whole = λ j n e. elim (Bool-cases (eqb i j)) [
        | inl y ↦
            let same : i ≡ j = ground arith in
            subst (λ k. content (tmp_of d ws k n) w ≡ some (ws k).buf) same
              (filled n (ground (arith, e, y)))
        | inr differs ↦
            others_whole (suc left) i j n s w inv (ground arith) (ground (arith, e, differs)) frame
      ];
      settled = settles;
    }

    pub quiet-Inv :
        (left i : ℕ) (st : Stage) (w : World) (s : System)
        → Inv (suc left) s
        → ((n : ℕ) → number st ≡ some n → number (s.stages i) ≡ some n)
        → (is_past st ≡ true → is_past (s.stages i) ≡ true)
        → ((n : ℕ) → complete st ≡ some n → content (tmp_of d ws i n) w ≡ some (ws i).buf)
        → Frame i (s.stages i) s.world w
        → Inv left (moved i st w s)
    quiet-Inv left i st w s inv keeps past filled frame =
        moved-Inv left i st w s inv keeps filled (λ q h _. frame q h)
          (λ q fin. elim (inv.settled q fin) [
            | inl (old, none_past) ↦ inl (
              frame q (λ n _. fin i n) ∙ old,
              λ j e. past_before s.stages i st past j (none_past j e),
            )
            | inr (j, e, new) ↦ inr (j, e, frame q (λ n _. fin i n) ∙ new)
          ])

    -- The state is left as it is.
    pub idle-Inv : (left : ℕ) (s : System) → Inv (suc left) s → Inv left s
    idle-Inv left s inv = record {
      room = λ x. ground (arith, inv.room x);
      below = inv.below;
      distinct = inv.distinct;
      whole = inv.whole;
      settled = inv.settled;
    }

    pub holders-Inv :
        (left : ℕ) (hs : List ℕ) (s : System) → Inv left s → Inv left (record s { holders = hs })
    holders-Inv left hs s inv = record {
      room = inv.room;
      below = inv.below;
      distinct = inv.distinct;
      whole = inv.whole;
      settled = inv.settled;
    }
