-- ===== src/FilesystemStore/Locks.antt =====
-- The state of `FilesystemStore`: its counters and the reference-counted locks of the paths in use.
use programming_lightning_bu.Base.{
  ℕ, ◌+◌, ◌-◌, ◌%◌, ◌^◌, none, some, [], ltb, eqb, if◌then◌else◌, list_eq, nat_eq, ok,
}
use programming_lightning_bu.Base.Dict.{Dict, lookup, insert, modify, retain}
use programming_lightning_bu.Exec.{Exec}
use programming_lightning_bu.FilePath.{FilePath}
use programming_lightning_bu.Fs.{World}

-- `Arc::strong_count` of a lock counts the map's own reference.
pub record FilesystemStore : Type 0 where
  pub data_dir : FilePath
  pub tmp_file_counter : ℕ
  pub gc_counter : ℕ
  pub locks : Dict FilePath ℕ

-- A process: the store and the world that it acts on.
pub record Process : Type 0 where
  pub store : FilesystemStore
  pub world : World

abbrev pub usize_mod : ℕ
usize_mod = 2 ^ 64

abbrev pub gc_lock_interval : ℕ
gc_lock_interval = 25

-- `FilesystemStore::new`
unfoldable pub new : FilePath → FilesystemStore
new data_dir = record { data_dir = data_dir; tmp_file_counter = 0; gc_counter = 1; locks = [] }

abbrev pub on_store : (FilesystemStore → FilesystemStore) → Process → Process
on_store f s = record s { store = f s.store }

-- A call of the file system.
unfoldable pub on_world : {A : Type 0} → Exec World A → Exec Process A
on_world m s = let (r, w) = m s.world in (r, record s { world = w })

-- `tmp_file_counter.fetch_add(1, ..)`
unfoldable pub next_tmp : Exec Process ℕ
next_tmp s =
    let n = s.store.tmp_file_counter in
    (ok n, on_store (λ t. record t { tmp_file_counter = (n + 1) % usize_mod }) s)

unfoldable pub garbage_collect_locks : FilesystemStore → FilesystemStore
garbage_collect_locks t =
    let kept =
      if eqb (t.gc_counter % gc_lock_interval) 0 then retain (λ n. ltb 1 n) t.locks else t.locks in
    record t { gc_counter = (t.gc_counter + 1) % usize_mod; locks = kept }

-- `Arc::clone(&outer_lock.entry(path).or_default())`
unfoldable pub clone_lock : FilePath → FilesystemStore → FilesystemStore
clone_lock p t = elim (lookup p t.locks) [
  | some n ↦ record t { locks = insert p (n + 1) t.locks }
  | none ↦ record t { locks = insert p 2 t.locks }
]

-- The end of the scope of a cloned reference.
unfoldable pub drop_lock : FilePath → FilesystemStore → FilesystemStore
drop_lock p t = record t { locks = modify p (λ n. n - 1) t.locks }

-- A block that holds the lock of a path; the reference is dropped on every way out.
unfoldable pub with_lock : {A : Type 0} → FilePath → Exec Process A → Exec Process A
unfolding clone_lock drop_lock
with_lock p body s =
    let (r, s') = body (on_store (clone_lock p) s) in (r, on_store (drop_lock p) s')

unfoldable pub collect : Exec Process (Unit {0})
unfolding garbage_collect_locks
collect s = (ok tt, on_store garbage_collect_locks s)
