-- ===== src/FilesystemStore/Paths.antt =====
-- The paths of valid names: a key's file lies directly in its namespace's directory, its temporary
-- file beside it, and two keys never share a file.
use mathlib.Core.List.{append-nil}
use programming_lightning_bu.Base.{
  ℕ, ◌≡◌, ◌≢◌, refl, sym, ◌∙◌, Str, str, true, false, some, List, [], ◌∷◌, ◌++◌, arith, contains,
  nat_eq, list_eq, all, ok, filter, subst,
}
use programming_lightning_bu.Text.SplitLaws.{Lacks, split-eq_singleton, rsplit_once-eq-none}
use programming_lightning_bu.FilePath.{
  FilePath, push, parent, set_extension, file_stem, is_absolute, leading_dot, normals, is_named,
}
use programming_lightning_bu.FilesystemStore.Names.{
  Config, is_valid_kvstore_str, check_namespace_key_validity, get_dest_dir_path, dest_file_path,
}

-- LDK documents the alphabet as letters, digits, underscore and dash. What is used of it:
pub record IsPlain (c : Config) : Type 0 where
  pub no_dot : Lacks b'.' c.alphabet
  pub no_slash : Lacks b'/' c.alphabet

-- A text without dots and slashes.
pub record IsName (s : Str) : Type 0 where
  pub no_dot : Lacks b'.' s
  pub no_slash : Lacks b'/' s

Lacks-contains : (a : List ℕ) (x b : ℕ) → Lacks x a → contains a b ≡ true → b ≢ x
Lacks-contains [] x b h e = cc
Lacks-contains (y ∷ a) x b h e = ground (arith, Lacks-contains a x b h.1)

Lacks-all :
    (a : List ℕ) (x : ℕ) (s : Str) → Lacks x a → all (λ b. contains a b) s ≡ true → Lacks x s
Lacks-all a x [] h e = tt
Lacks-all a x (b ∷ s) h e =
    (Lacks-contains a x b h (ground arith), Lacks-all a x s h (ground arith))

pub is_valid_kvstore_str-IsName :
    (c : Config) (s : Str) → IsPlain c → is_valid_kvstore_str c s ≡ true → IsName s
unfolding is_valid_kvstore_str
is_valid_kvstore_str-IsName c s p e = record {
  no_dot = Lacks-all c.alphabet b'.' s p.no_dot (ground arith);
  no_slash = Lacks-all c.alphabet b'/' s p.no_slash (ground arith);
}

-- What a key that passes the check is.
pub record IsKey (primary secondary key : Str) : Type 0 where
  pub primary_name : IsName primary
  pub secondary_name : IsName secondary
  pub key_name : IsName key
  pub key_given : key ≢ []
  pub secondary_under : primary ≡ [] → secondary ≡ []

pub check-IsKey :
    (c : Config) (primary secondary key : Str)
    → IsPlain c
    → check_namespace_key_validity c primary secondary (some key) ≡ ok tt
    → IsKey primary secondary key
unfolding check_namespace_key_validity
check-IsKey c primary secondary key p e = record {
  primary_name = is_valid_kvstore_str-IsName c primary p (ground arith);
  secondary_name = is_valid_kvstore_str-IsName c secondary p (ground arith);
  key_name = is_valid_kvstore_str-IsName c key p (ground arith);
  key_given = ground arith;
  secondary_under = ground arith;
}

name-ne : (s : Str) → IsName s → (s ≢ str "/") × (s ≢ str ".") × (s ≢ str "..")
name-ne s n = (
  λ e. (subst (Lacks b'/') e n.no_slash).0 refl,
  λ e. (subst (Lacks b'.') e n.no_dot).0 refl,
  λ e. (subst (Lacks b'.') e n.no_dot).0 refl,
)

is_absolute-name : (s : Str) → IsName s → is_absolute s ≡ false
is_absolute-name [] n = refl
is_absolute-name (c ∷ s) n = ground (arith, n.no_slash.0)

leading_dot-name : (s : Str) → IsName s → leading_dot s ≡ false
unfolding leading_dot
leading_dot-name [] n = refl
leading_dot-name (c ∷ []) n = ground (arith, n.no_dot.0)
leading_dot-name (c ∷ d ∷ s) n = ground (arith, n.no_dot.0)

normals-name : (s : Str) → IsName s → s ≢ [] → normals s ≡ s ∷ []
unfolding normals
normals-name s n h = rw (split-eq_singleton b'/' s n.no_slash) (named s n h)
  where
    named : (s : Str) → IsName s → s ≢ [] → filter is_named (s ∷ []) ≡ s ∷ []
    named [] n h = absurd (h refl)
    named (c ∷ s) n h = ground (arith, (name-ne (c ∷ s) n).1)

pub push-name : (p : FilePath) (s : Str) → IsName s → s ≢ [] → push p s ≡ p ++ s ∷ []
unfolding push
push-name [] s n h = ground (arith, is_absolute-name s n, leading_dot-name s n, normals-name s n h)
push-name (c ∷ p) s n h = ground (arith, is_absolute-name s n, normals-name s n h)

pub push-nil : (p : FilePath) → push p [] ≡ p
unfolding push list_eq nat_eq
push-nil [] = refl
push-nil (c ∷ p) = append-nil (c ∷ p)

pub parent-append : (p : FilePath) (s : Str) → IsName s → parent (p ++ s ∷ []) ≡ some p
unfolding parent
parent-append [] s n = ground (arith, (name-ne s n).0)
parent-append (c ∷ []) s n = ground (arith, (name-ne s n).0)
parent-append (c ∷ d ∷ p) s n = ground (arith, parent-append (d ∷ p) s n)

file_stem-name : (s : Str) → IsName s → file_stem s ≡ s
unfolding file_stem
file_stem-name s n = ground (arith, rsplit_once-eq-none b'.' s n.no_dot)

pub set_extension-append :
    (p : FilePath) (s ext : Str)
    → IsName s
    → set_extension (p ++ s ∷ []) ext ≡ p ++ (s ++ b'.' ∷ ext) ∷ []
unfolding set_extension
set_extension-append [] s ext n =
    ground (arith, (name-ne s n).0, (name-ne s n).1, (name-ne s n).2, file_stem-name s n)
set_extension-append (c ∷ []) s ext n = rw (set_extension-append [] s ext n)
set_extension-append (c ∷ d ∷ p) s ext n = rw (set_extension-append (d ∷ p) s ext n)

-- The directory of a namespace: an empty namespace adds nothing.
abbrev pub segment : Str → FilePath
segment [] = []
segment (c ∷ s) = (c ∷ s) ∷ []

push-segment : (p : FilePath) (s : Str) → IsName s → push p s ≡ p ++ segment s
push-segment p [] n = push-nil p ∙ sym (append-nil p)
push-segment p (c ∷ s) n = push-name p (c ∷ s) n (ground arith)

unfoldable pub namespace_dir : FilePath → Str → Str → FilePath
namespace_dir data_dir primary secondary = (data_dir ++ segment primary) ++ segment secondary

pub get_dest_dir_path-eq :
    (data_dir : FilePath) (primary secondary : Str)
    → IsName primary
    → IsName secondary
    → get_dest_dir_path data_dir primary secondary ≡ namespace_dir data_dir primary secondary
unfolding get_dest_dir_path namespace_dir
get_dest_dir_path-eq data_dir primary [] n m = push-segment data_dir primary n ∙ sym (append-nil _)
get_dest_dir_path-eq data_dir primary (c ∷ s) n m =
    rw (push-segment data_dir primary n) (push-name _ (c ∷ s) m (ground arith))

pub dest_file_path-eq :
    (data_dir : FilePath) (primary secondary key : Str)
    → IsKey primary secondary key
    → dest_file_path data_dir primary secondary key
      ≡ namespace_dir data_dir primary secondary ++ key ∷ []
unfolding dest_file_path
dest_file_path-eq data_dir primary secondary key k =
    rw (get_dest_dir_path-eq data_dir primary secondary k.primary_name k.secondary_name)
      (push-name _ key k.key_name k.key_given)
