-- ===== src/FilesystemStore/Names.antt =====
-- The checks of namespaces and keys, and the paths of `FilesystemStore`.
use programming_lightning_bu.Base.{
  ℕ, Str, Bool, not, ◌&&◌, ◌||◌, Option, none, some, List, leb, length, is_empty, all, contains,
  nat_eq, Outcome, ok, err, panic, if◌then◌else◌, list_eq,
}
use programming_lightning_bu.Exec.{IoError, other}
use programming_lightning_bu.FilePath.{FilePath, push, strip_prefix, to_str}

-- What LDK and the build fix.
pub record Config : Type 0 where
  pub alphabet : List ℕ
  pub max_len : ℕ
  pub debug : Bool

module _ (c : Config) where
  -- `debug_assert!(false, ..)`, and the error behind it.
  abbrev pub refuse {ℓ} : {A : Type ℓ} → Outcome IoError A
  refuse = if c.debug then panic else err other

  unfoldable pub is_valid_kvstore_str : Str → Bool
  is_valid_kvstore_str key = leb (length key) c.max_len && all (λ b. contains c.alphabet b) key

  unfoldable pub check_namespace_key_validity : Str → Str → Option Str → Outcome IoError (Unit {0})
  check_namespace_key_validity primary secondary (some key) =
      if is_empty key
      then refuse
      else if is_empty primary && not (is_empty secondary)
      then refuse
      else if not (is_valid_kvstore_str primary)
          || not (is_valid_kvstore_str secondary)
          || not (is_valid_kvstore_str key)
      then refuse
      else ok tt
  check_namespace_key_validity primary secondary none =
      if is_empty primary && not (is_empty secondary)
      then refuse
      else if not (is_valid_kvstore_str primary) || not (is_valid_kvstore_str secondary)
      then refuse
      else ok tt

  -- A path that is not UTF-8 is refused like one with a character outside the alphabet.
  unfoldable pub get_key_from_dir_entry : FilePath → FilePath → Outcome IoError Str
  get_key_from_dir_entry p base = elim (strip_prefix base p) [
    | some stripped ↦
        if is_valid_kvstore_str (to_str stripped) then ok (to_str stripped) else refuse
    | none ↦ refuse
  ]

unfoldable pub get_dest_dir_path : FilePath → Str → Str → FilePath
get_dest_dir_path data_dir primary secondary =
    let p = push data_dir primary in if not (is_empty secondary) then push p secondary else p

-- The path of a key's file, as `read`, `write` and `remove` build it.
unfoldable pub dest_file_path : FilePath → Str → Str → Str → FilePath
unfolding get_dest_dir_path
dest_file_path data_dir primary secondary key =
    push (get_dest_dir_path data_dir primary secondary) key
