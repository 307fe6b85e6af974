-- ===== src/Fs/Laws.antt =====
-- What each call leaves alone: the contents of files.
use programming_lightning_bu.Base.{
  ◌⊎◌, ℕ, ◌≡◌, ◌≢◌, refl, Str, Option, none, some, List, [], ◌∷◌, ◌++◌, ok, arith, list_eq, nat_eq,
  ◌∙◌,
}
use programming_lightning_bu.Base.Dict.{lookup-insert, lookup-erase}
use programming_lightning_bu.Exec.{bind_rule}
use programming_lightning_bu.FilePath.{FilePath}
use programming_lightning_bu.Fs.{
  World, Node, file, dir, special, node, make_dir, make_dirs, create_dir_all, create, write_all,
  sync_all, open_read, rename, remove_file, is_file,
}

-- The bytes of the file at a path.
abbrev pub bytes_of : Option Node → Option (List ℕ)
bytes_of (some (file b)) = some b
bytes_of (some dir) = none
bytes_of (some special) = none
bytes_of none = none

abbrev pub content : FilePath → World → Option (List ℕ)
content q w = bytes_of (node q w)

module _ (q : FilePath) where
  content-make_dir : (p : FilePath) (w : World) → content q (make_dir p w).1 ≡ content q w
  unfolding make_dir
  content-make_dir p w = ground (arith, lookup-insert p q dir w.disk)

  content-make_dirs :
      (base : FilePath) (p : List Str) (w : World) → content q (make_dirs base p w).1 ≡ content q w
  unfolding make_dirs
  content-make_dirs base [] w = refl
  content-make_dirs base (c ∷ p) w =
      bind_rule (λ (_, t). content q t ≡ content q w) (make_dir (base ++ c ∷ []))
        (λ _. make_dirs (base ++ c ∷ []) p) w
        (λ _ _. content-make_dirs (base ++ c ∷ []) p _ ∙ content-make_dir _ w)
        (λ _ _. content-make_dir _ w) (λ _. content-make_dir _ w)

  pub content-is_file : (p : FilePath) (w : World) → content q (is_file p w).1 ≡ content q w
  unfolding is_file
  content-is_file p w = ground arith

  pub content-create_dir_all :
      (p : FilePath) (w : World) → content q (create_dir_all p w).1 ≡ content q w
  unfolding create_dir_all
  content-create_dir_all p w = content-make_dirs [] p w

  pub content-create :
      (under p : FilePath) (w : World) → q ≢ p → content q (create under p w).1 ≡ content q w
  unfolding create
  content-create under p w h = ground (arith, lookup-insert p q (file []) w.disk)

  pub content-write_all :
      (p : FilePath) (buf : List ℕ) (w : World)
      → q ≢ p
      → content q (write_all p buf w).1 ≡ content q w
  unfolding write_all
  content-write_all p buf w h = grind (arith, lookup-insert)

  pub content-sync_all : (p : FilePath) (w : World) → content q (sync_all p w).1 ≡ content q w
  unfolding sync_all
  content-sync_all p w = ground arith

  pub content-open_read : (p : FilePath) (w : World) → content q (open_read p w).1 ≡ content q w
  unfolding open_read
  content-open_read p w = ground arith

  pub content-rename :
      (a b : FilePath) (w : World) → q ≢ a → q ≢ b → content q (rename a b w).1 ≡ content q w
  unfolding rename
  content-rename a b w h k = grind (arith, lookup-insert, lookup-erase)

  pub content-remove_file :
      (p : FilePath) (w : World) → q ≢ p → content q (remove_file p w).1 ≡ content q w
  unfolding remove_file
  content-remove_file p w h = ground (arith, lookup-erase p q w.disk)

pub content-write_all_self :
    (p : FilePath) (buf : List ℕ) (w : World)
    → (write_all p buf w).0 ≡ ok tt
    → content p (write_all p buf w).1 ≡ some buf
unfolding write_all
content-write_all_self p buf w e = ground (arith, lookup-insert p p (file buf) w.disk)

-- A rename moves the file, or changes nothing.
pub content-rename_self :
    (a b : FilePath) (buf : List ℕ) (w : World)
    → a ≢ b
    → content a w ≡ some buf
    → ((rename a b w).0 ≡ ok tt) × (content b (rename a b w).1 ≡ some buf)
      ⊎ ((rename a b w).0 ≢ ok tt) × (content b (rename a b w).1 ≡ content b w)
unfolding rename
content-rename_self a b buf w h e = grind (arith, lookup-insert, lookup-erase)
