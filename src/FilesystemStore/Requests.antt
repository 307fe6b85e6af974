-- ===== src/FilesystemStore/Requests.antt =====
-- The requests that a client makes of a key-value store, and what a store of LDK's contract may
-- answer: the map `FileStore`, in which a request that failed may still have taken effect.
use programming_lightning_bu.Base.{
  list_eq, nat_eq, pair_eq, ℕ, ◌≡◌, ◌≢◌, Bool, Option, true, ◌⊎◌, none, some, List, [], ◌∷◌,
  Outcome, ok, ◌⊎◌, true,
}
use programming_lightning_bu.Base.Dict.{lookup, insert, erase}
use programming_lightning_bu.Exec.{IoError, Exec, ◌>>◌, ◌>>=◌, pure}
use programming_lightning_bu.Fs.{next_fails}
use programming_lightning_bu.FileStore.{FileStore, Key}
use programming_lightning_bu.FilesystemStore.Names.{Config}
use programming_lightning_bu.FilesystemStore.Locks.{Process}
use programming_lightning_bu.FilesystemStore.Io.{read, write, remove}

pub data Request : Type 0 where
  put : Key → List ℕ → Request
  delete : Key → Bool → Request
  get : Key → Request

abbrev pub key_of : Request → Key
key_of (put k buf) = k
key_of (delete k lazy) = k
key_of (get k) = k

abbrev pub Answer : Type 0
Answer = Outcome IoError (Option (List ℕ))

module _ (c : Config) where
  -- A request of the store on files; only `get` returns bytes.
  unfoldable pub serve : Request → Exec Process (Option (List ℕ))
  unfolding ◌>>=◌
  serve (put (p, (s, k)) buf) = write c p s k buf >> pure none
  serve (delete (p, (s, k)) lazy) = remove c p s k lazy >> pure none
  serve (get (p, (s, k))) = read c p s k >>= λ b. pure (some b)

  -- The requests of a client that goes on after errors: each answer, and whether the first call of
  -- the file system for it failed.
  unfoldable pub serve_all : List Request → Process → List (Answer × Bool) × Process
  serve_all [] t = ([], t)
  serve_all (r ∷ rs) t =
      let (a, t') = serve r t in
      let (answers, end) = serve_all rs t' in ((a, next_fails t.world) ∷ answers, end)

-- `Effect r a blind m m'`: the map may answer `a` to the request `r` in state `m`, and be `m'` then,
-- where `blind` says whether the first call of the file system failed: a removal that cannot see its
-- file answers `Ok` and does nothing.
pub data Effect : Request → Answer → Bool → FileStore → FileStore → Type 0 where
  put_done :
      (k : Key) (buf : List ℕ) (a : Answer) (blind : Bool) (m : FileStore)
      → Effect (put k buf) a blind m (record { entries = insert k buf m.entries })
  put_failed :
      (k : Key) (buf : List ℕ) (a : Answer) (blind : Bool) (m : FileStore)
      → a ≢ ok none
      → Effect (put k buf) a blind m m
  delete_done :
      (k : Key) (lazy : Bool) (a : Answer) (blind : Bool) (m : FileStore)
      → Effect (delete k lazy) a blind m (record { entries = erase k m.entries })
  delete_failed :
      (k : Key) (lazy : Bool) (a : Answer) (blind : Bool) (m : FileStore)
      → (a ≢ ok none) ⊎ (blind ≡ true)
      → Effect (delete k lazy) a blind m m
  got :
      (k : Key) (buf : List ℕ) (blind : Bool) (m : FileStore)
      → lookup k m.entries ≡ some buf
      → Effect (get k) (ok (some buf)) blind m m
  get_failed :
      (k : Key) (a : Answer) (blind : Bool) (m : FileStore)
      → ((b : Option (List ℕ)) → a ≢ ok b)
      → Effect (get k) a blind m m

-- A run of requests, with their answers.
pub data Replay : List Request → List (Answer × Bool) → FileStore → FileStore → Type 0 where
  finished : (m : FileStore) → Replay [] [] m m
  next :
      (r : Request) (a : Answer) (blind : Bool) (m n : FileStore) (rs : List Request)
      (answers : List (Answer × Bool)) (end : FileStore)
      → Effect r a blind m n
      → Replay rs answers n end
      → Replay (r ∷ rs) ((a, blind) ∷ answers) m end
