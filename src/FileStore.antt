-- ===== src/FileStore.antt =====
-- `FileStore` of src/internal/types.rs: the store that the sketches of the commands use, a map from
-- the two namespaces and the key to the bytes. It is also what `FilesystemStore` is to be like.
use programming_lightning_bu.Base.{ℕ, Str, List, [], ok, list_eq, nat_eq, pair_eq}
use programming_lightning_bu.Base.Dict.{Dict, insert}
use programming_lightning_bu.Exec.{Exec}

abbrev pub Key : Type 0
Key = Str × (Str × Str)

pub record FileStore : Type 0 where
  -- `data`
  pub entries : Dict Key (List ℕ)

-- `FileStore::new`
abbrev pub new : FileStore
new = record { entries = [] }

-- `FileStore::write`
unfoldable pub write : Str → Str → Str → List ℕ → Exec FileStore (Unit {0})
write primary secondary key buf m =
    (ok tt, record { entries = insert (primary, (secondary, key)) buf m.entries })
