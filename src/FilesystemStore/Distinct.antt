-- ===== src/FilesystemStore/Distinct.antt =====
-- Two different keys never share a file, and no key's file is a temporary file.
use mathlib.Core.List.{append_assoc, append_cancel_left}
use programming_lightning_bu.Base.{
  ℕ, ◌≡◌, ◌≢◌, refl, sym, ap, ◌∙◌, Str, [], ◌∷◌, ◌++◌, arith, str, some, ok, subst,
}
use programming_lightning_bu.Text.{show}
use programming_lightning_bu.Text.SplitLaws.{Lacks}
use programming_lightning_bu.FilePath.{FilePath, set_extension}
use programming_lightning_bu.FilesystemStore.Names.{
  Config, dest_file_path, check_namespace_key_validity,
}
use programming_lightning_bu.FilesystemStore.Io.{tmp_path}
use programming_lightning_bu.FilesystemStore.Paths.{
  IsPlain, check-IsKey, segment, namespace_dir, dest_file_path-eq, set_extension-append,
}

abbrev pub last : FilePath → Str
last [] = []
last (c ∷ []) = c
last (c ∷ d ∷ p) = last (d ∷ p)

abbrev pub init : FilePath → FilePath
init [] = []
init (c ∷ []) = []
init (c ∷ d ∷ p) = c ∷ init (d ∷ p)

pub last-append : (p : FilePath) (c : Str) → last (p ++ c ∷ []) ≡ c
last-append [] c = refl
last-append (d ∷ []) c = refl
last-append (d ∷ e ∷ p) c = last-append (e ∷ p) c

pub init-append : (p : FilePath) (c : Str) → init (p ++ c ∷ []) ≡ p
init-append [] c = refl
init-append (d ∷ []) c = refl
init-append (d ∷ e ∷ p) c = ap (λ (q : FilePath). d ∷ q) (init-append (e ∷ p) c)

not-Lacks : (x : ℕ) (a b : Str) → ¬ Lacks x (a ++ x ∷ b)
not-Lacks x [] b h = h.0 refl
not-Lacks x (y ∷ a) b h = not-Lacks x a b h.1

nil_segment :
    (p s s' : Str) (x : ℕ)
    → s ≡ []
    → segment [] ++ segment s ≡ segment (x ∷ p) ++ segment s'
    → ([] ≡ x ∷ p) × (s ≡ s')
nil_segment p [] s' x f e = absurd (cc)
nil_segment p (y ∷ s) s' x f e = absurd (cc)

segments_injective :
    (p s p' s' : Str)
    → (p ≡ [] → s ≡ [])
    → (p' ≡ [] → s' ≡ [])
    → segment p ++ segment s ≡ segment p' ++ segment s'
    → (p ≡ p') × (s ≡ s')
segments_injective [] s [] s' h h' e = ground (arith, h refl, h' refl)
segments_injective [] s (x ∷ p') s' h h' e = nil_segment p' s s' x (h refl) e
segments_injective (x ∷ p) s [] s' h h' e =
    let r = nil_segment p s' s x (h' refl) (sym e) in (sym r.0, sym r.1)
segments_injective (x ∷ p) [] (y ∷ p') [] h h' e = ground arith
segments_injective (x ∷ p) [] (y ∷ p') (z ∷ s') h h' e = ground arith
segments_injective (x ∷ p) (z ∷ s) (y ∷ p') [] h h' e = ground arith
segments_injective (x ∷ p) (z ∷ s) (y ∷ p') (u ∷ s') h h' e = ground arith

namespace_dir_injective :
    (d : FilePath) (p s p' s' : Str)
    → (p ≡ [] → s ≡ [])
    → (p' ≡ [] → s' ≡ [])
    → namespace_dir d p s ≡ namespace_dir d p' s'
    → (p ≡ p') × (s ≡ s')
unfolding namespace_dir
namespace_dir_injective d p s p' s' h h' e = segments_injective p s p' s' h h' (
    append_cancel_left d _ _
      (sym (append_assoc d (segment p) (segment s)) ∙ e ∙ append_assoc d (segment p') (segment s')))

-- The check of a key in its namespaces passes.
abbrev pub Accepted : Config → Str → Str → Str → Type 0
Accepted c primary secondary key =
    check_namespace_key_validity c primary secondary (some key) ≡ ok tt

module _ (c : Config) (plain : IsPlain c) (d : FilePath) where
  -- With an alphabet without dots and slashes, valid keys with the same file are the same key in the
  -- same namespaces.
  pub dest_file_path_injective :
      (p s k p' s' k' : Str)
      → Accepted c p s k
      → Accepted c p' s' k'
      → dest_file_path d p s k ≡ dest_file_path d p' s' k'
      → (p ≡ p') × (s ≡ s') × (k ≡ k')
  dest_file_path_injective p s k p' s' k' a a' e =
      let i = check-IsKey c p s k plain a in
      let i' = check-IsKey c p' s' k' plain a' in
      let e' = sym (dest_file_path-eq d p s k i) ∙ e ∙ dest_file_path-eq d p' s' k' i' in
      let dirs = sym (init-append _ k) ∙ ap init e' ∙ init-append _ k' in
      let keys =
        sym (last-append (namespace_dir d p s) k)
        ∙ ap last e'
        ∙ last-append (namespace_dir d p' s') k' in
      let both = namespace_dir_injective d p s p' s' i.secondary_under i'.secondary_under dirs in
      (both.0, both.1, keys)

  -- With such an alphabet, the temporary file of a write of a valid key is the file of no valid key.
  pub tmp_path-ne-dest_file_path :
      (p s k p' s' k' : Str) (n : ℕ)
      → Accepted c p s k
      → Accepted c p' s' k'
      → dest_file_path d p' s' k' ≢ tmp_path (dest_file_path d p s k) n
  unfolding tmp_path
  tmp_path-ne-dest_file_path p s k p' s' k' n a a' e =
      let i = check-IsKey c p s k plain a in
      let i' = check-IsKey c p' s' k' plain a' in
      let ext = show n ++ str ".tmp" in
      let e' =
        sym (dest_file_path-eq d p' s' k' i')
        ∙ e
        ∙ ap (λ (q : FilePath). set_extension q ext) (dest_file_path-eq d p s k i)
        ∙ set_extension-append _ k ext i.key_name in
      let keys =
        sym (last-append (namespace_dir d p' s') k')
        ∙ ap last e'
        ∙ last-append (namespace_dir d p s) _ in
      not-Lacks b'.' k ext (subst (Lacks b'.') keys i'.key_name.no_dot)
