-- ===== src/FilesystemStore/Interleaved.antt =====
-- The threads of Threads, their calls in any order.
pub mod Stages
pub mod Invariant
pub mod Renaming
pub mod Numbering
pub mod Steps
pub mod Solo
pub mod Calls
pub mod Alone
use programming_lightning_bu.Base.{
  ℕ, zero, suc, ◌+◌, ◌<◌, ◌≡◌, ◌≢◌, inl, refl, sym, ap, ◌∙◌, List, [], ◌∷◌, length, arith, Str,
}
use programming_lightning_bu.FilePath.{FilePath}
use programming_lightning_bu.FilesystemStore.Names.{Config, dest_file_path}
use programming_lightning_bu.FilesystemStore.Locks.{usize_mod}
use programming_lightning_bu.FilesystemStore.Paths.{IsPlain}
use programming_lightning_bu.FilesystemStore.Distinct.{Accepted, tmp_path-ne-dest_file_path}
use programming_lightning_bu.FilesystemStore.Temporary.{tmp_path_injective}
use programming_lightning_bu.FilesystemStore.Threads.{
  starting, Writer, System, dest_of, tmp_of, advance, run,
}
use programming_lightning_bu.FilesystemStore.Interleaved.Stages.{number, complete, is_past}
use programming_lightning_bu.FilesystemStore.Interleaved.Invariant.{Settled, IsFinal, Inv}
use programming_lightning_bu.FilesystemStore.Interleaved.Steps.{advance_from-Inv}

module _ (c : Config) (plain : IsPlain c) (d : FilePath) (ws : ℕ → Writer) (s0 : System) where
  -- The threads write valid keys, the same key only through the same store, and have not begun.
  pub record AreFresh : Type 0 where
    pub accepted : (i : ℕ) → Accepted c (ws i).primary (ws i).secondary (ws i).key
    pub one_store : (i j : ℕ) → dest_of d ws i ≡ dest_of d ws j → (ws i).store ≡ (ws j).store
    pub not_begun : (i : ℕ) → s0.stages i ≡ starting

  module _ (fresh : AreFresh) where
    apart :
        (i j n m : ℕ)
        → i ≢ j
        → tmp_of d ws i n ≡ tmp_of d ws j m
        → ((ws i).store ≡ (ws j).store) × (n ≡ m)
    apart i j n m ne e =
        let both =
          tmp_path_injective c plain d (ws i).primary (ws i).secondary (ws i).key (ws j).primary
            (ws j).secondary (ws j).key n m (fresh.accepted i) (fresh.accepted j) e in
        (fresh.one_store i j both.0, both.1)

    key-IsFinal : (p s k : Str) → Accepted c p s k → IsFinal d ws s0.world (dest_file_path d p s k)
    key-IsFinal p s k valid i n =
        tmp_path-ne-dest_file_path c plain d (ws i).primary (ws i).secondary (ws i).key p s k n
          (fresh.accepted i) valid

    run-Inv :
        (schedule : List ℕ) (s : System)
        → Inv d ws s0.world (length schedule) s
        → Inv d ws s0.world 0 (run d ws schedule s)
    unfolding run advance
    run-Inv [] s inv = inv
    run-Inv (i ∷ schedule) s inv = run-Inv schedule (advance d ws i s) (
        advance_from-Inv d ws s0.world apart (λ i. key-IsFinal _ _ _ (fresh.accepted i))
          (length schedule) i (s.stages i) s inv refl)

    start-Inv :
        (left : ℕ) → ((x : ℕ) → s0.counters x + left < usize_mod) → Inv d ws s0.world left s0
    start-Inv left room = record {
      room = room;
      below = λ i n e. absurd (ground (arith, fresh.not_begun i, e));
      distinct = λ i j n ne stores e. absurd (ground (arith, fresh.not_begun i, e));
      whole = λ i n e. absurd (ground (arith, fresh.not_begun i, e));
      settled = λ q fin. inl (refl, λ i e. ap is_past (fresh.not_begun i));
    }

    -- Let no thread have begun, their keys be valid, and each key be written through one store only. In
    -- whatever order the calls of the threads come, as long as no counter wraps around, and whichever
    -- of them fail, the file of a valid key is afterwards as it was at first and no write
    -- of it has gone past the renaming without an error, or it is all of what one thread writes to
    -- that key.
    pub run-Settled :
        (schedule : List ℕ) (p s k : Str)
        → ((x : ℕ) → s0.counters x + length schedule < usize_mod)
        → Accepted c p s k
        → Settled d ws s0.world (run d ws schedule s0) (dest_file_path d p s k)
    run-Settled schedule p s k room valid =
        (run-Inv schedule s0 (start-Inv (length schedule) room)).settled (dest_file_path d p s k)
          (key-IsFinal p s k valid)
