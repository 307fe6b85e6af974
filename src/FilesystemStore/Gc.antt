-- ===== src/FilesystemStore/Gc.antt =====
-- The clean-up of the locks.
use programming_lightning_bu.Base.{
  ℕ, ◌+◌, ◌-◌, ◌<◌, ◌≡◌, Option, some, none, [], ◌∷◌, arith, list_eq, nat_eq, ltb, ◌==◌, Eq,
  if◌then◌else◌, Option-cases, inl, inr,
}
use programming_lightning_bu.Base.Dict.{Dict, lookup, insert, retain, lookup-insert, lookup-modify}
use programming_lightning_bu.Exec.{Exec}
use programming_lightning_bu.FilePath.{FilePath}
use programming_lightning_bu.FilesystemStore.Locks.{
  FilesystemStore, Process, garbage_collect_locks, with_lock, clone_lock, drop_lock, on_world,
}
use programming_lightning_bu.Fs.{World}

abbrev pub count : FilePath → FilesystemStore → Option ℕ
count p t = lookup p t.locks

module _ {ℓ} {K : Type ℓ} ⦃e : Eq K⦄ where
  lookup-retain_held :
      (k : K) (n : ℕ) (d : Dict K ℕ)
      → lookup k d ≡ some n
      → 1 < n
      → lookup k (retain (λ m. ltb 1 m) d) ≡ some n
  unfolding lookup retain
  lookup-retain_held k n [] h lt = cc
  lookup-retain_held k n ((j, m) ∷ d) h lt = ground (arith, lookup-retain_held k n d)

-- A lock that is still referenced outside the map survives every clean-up.
garbage_collect_locks_held :
    (p : FilePath) (n : ℕ) (t : FilesystemStore)
    → count p t ≡ some n
    → 1 < n
    → count p (garbage_collect_locks t) ≡ some n
unfolding garbage_collect_locks
garbage_collect_locks_held p n t h lt = ground (arith, lookup-retain_held p n t.locks h lt)

abbrev pub counted : Option ℕ → ℕ
counted none = 1
counted (some n) = n

clone_drop :
    (p q : FilePath) (t : FilesystemStore)
    → count q (drop_lock p (clone_lock p t))
      ≡ (if p == q then some (counted (count q t)) else count q t)
unfolding clone_lock drop_lock
clone_drop p q t = elim (Option-cases (lookup p t.locks)) [
  | inl e ↦
      ground
        (arith, e, lookup-insert p q 2 t.locks, lookup-modify p q (λ n. n - 1) (insert p 2 t.locks))
  | inr (n, e) ↦ ground (
    arith,
    e,
    lookup-insert p q (n + 1) t.locks,
    lookup-modify p q (λ n. n - 1) (insert p (n + 1) t.locks),
  )
]

-- A block under a lock leaves every count as it was, but for a lock that was not there: only the
-- map refers to it then.
with_lock_balanced :
    {A : Type 0} (p q : FilePath) (body : Exec World A) (t : Process)
    → count q (with_lock p (on_world body) t).1.store
      ≡ (if p == q then some (counted (count q t.store)) else count q t.store)
unfolding with_lock on_world
with_lock_balanced p q body t = clone_drop p q t.store
