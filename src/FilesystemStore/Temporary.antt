-- ===== src/FilesystemStore/Temporary.antt =====
-- The temporary files of two writes are the same only for one key and one number.
use mathlib.Core.List.{append_cancel_right}
use programming_lightning_bu.Base.{ℕ, ◌≡◌, sym, ap, ◌∙◌, Str, [], ◌∷◌, ◌++◌, arith, str}
use programming_lightning_bu.Text.{show, split_once}
use programming_lightning_bu.Text.ShowLaws.{show-injective}
use programming_lightning_bu.Text.SplitLaws.{Lacks, split_once-append}
use programming_lightning_bu.FilePath.{FilePath, set_extension}
use programming_lightning_bu.FilesystemStore.Names.{Config, dest_file_path}
use programming_lightning_bu.FilesystemStore.Io.{tmp_path}
use programming_lightning_bu.FilesystemStore.Paths.{
  IsPlain, check-IsKey, namespace_dir, dest_file_path-eq, set_extension-append,
}
use programming_lightning_bu.FilesystemStore.Distinct.{
  Accepted, last, init, last-append, init-append,
}

-- The part before a first dot and the part behind it.
dotted_injective :
    (a b x y : Str)
    → Lacks b'.' a
    → Lacks b'.' b
    → a ++ b'.' ∷ x ≡ b ++ b'.' ∷ y
    → (a ≡ b) × (x ≡ y)
dotted_injective a b x y h k e =
    let both =
      sym (split_once-append b'.' a x h) ∙ ap (split_once b'.') e ∙ split_once-append b'.' b y k in
    ground (arith, both)

module _ (c : Config) (plain : IsPlain c) (d : FilePath) where
  tmp_path-eq :
      (p s k : Str) (n : ℕ)
      → Accepted c p s k
      → tmp_path (dest_file_path d p s k) n
        ≡ namespace_dir d p s ++ (k ++ b'.' ∷ (show n ++ str ".tmp")) ∷ []
  unfolding tmp_path
  tmp_path-eq p s k n a =
      let i = check-IsKey c p s k plain a in
      let ext = show n ++ str ".tmp" in
      ap (λ (q : FilePath). set_extension q ext) (dest_file_path-eq d p s k i)
      ∙ set_extension-append _ k ext i.key_name

  -- With an alphabet without dots and slashes, writes of valid keys have the same temporary file
  -- only if their files and their numbers are the same.
  pub tmp_path_injective :
      (p s k p' s' k' : Str) (n n' : ℕ)
      → Accepted c p s k
      → Accepted c p' s' k'
      → tmp_path (dest_file_path d p s k) n ≡ tmp_path (dest_file_path d p' s' k') n'
      → (dest_file_path d p s k ≡ dest_file_path d p' s' k') × (n ≡ n')
  tmp_path_injective p s k p' s' k' n n' a a' e =
      let i = check-IsKey c p s k plain a in
      let i' = check-IsKey c p' s' k' plain a' in
      let e' = sym (tmp_path-eq p s k n a) ∙ e ∙ tmp_path-eq p' s' k' n' a' in
      let dirs = sym (init-append _ _) ∙ ap init e' ∙ init-append _ _ in
      let names =
        sym (last-append (namespace_dir d p s) _)
        ∙ ap last e'
        ∙ last-append (namespace_dir d p' s') _ in
      let (keys, exts) = dotted_injective k k' _ _ i.key_name.no_dot i'.key_name.no_dot names in
      let numbers = append_cancel_right (show n) (show n') (str ".tmp") exts in
      (
        dest_file_path-eq d p s k i
            ∙ ap (λ (q : FilePath). q ++ k ∷ []) dirs
            ∙ ap (λ k. namespace_dir d p' s' ++ k ∷ []) keys
            ∙ sym (dest_file_path-eq d p' s' k' i'),
        show-injective n n' numbers,
      )
