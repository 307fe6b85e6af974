-- ===== src/Text/SplitLaws.antt =====
-- Splitting a text that was joined.
use programming_lightning_bu.Base.{
  all, not, true, ℕ, ◌≡◌, ◌≢◌, refl, ap, ◌∙◌, Str, [], ◌∷◌, ◌++◌, none, some, All, arith, List,
  Bool-cases, eqb, inl, inr,
}
use programming_lightning_bu.Text.Split.{cons_head, split, split_once, rsplit_once, cons_head}

-- The byte does not occur.
abbrev pub Lacks : ℕ → Str → Type 0
Lacks c = All (λ x. x ≢ c)

pub Lacks-all : (c : ℕ) (s : Str) → all (λ x. not (eqb x c)) s ≡ true → Lacks c s
Lacks-all c [] h = tt
Lacks-all c (x ∷ s) h = (ground arith, Lacks-all c s (ground arith))

pub Lacks-append : (c : ℕ) (a b : Str) → Lacks c a → Lacks c b → Lacks c (a ++ b)
Lacks-append c [] b h k = k
Lacks-append c (x ∷ a) b h k = (h.0, Lacks-append c a b h.1 k)

pub split-append : (c : ℕ) (a b : Str) → Lacks c a → split c (a ++ c ∷ b) ≡ a ∷ split c b
unfolding split
split-append c [] b h = ground arith
split-append c (x ∷ a) b h = ground (arith, split-append c a b h.1)

pub split-eq_singleton : (c : ℕ) (a : Str) → Lacks c a → split c a ≡ a ∷ []
unfolding split
split-eq_singleton c [] h = refl
split-eq_singleton c (x ∷ a) h = ground (arith, split-eq_singleton c a h.1)

pub split_once-append : (c : ℕ) (a b : Str) → Lacks c a → split_once c (a ++ c ∷ b) ≡ some (a, b)
unfolding split_once
split_once-append c [] b h = ground arith
split_once-append c (x ∷ a) b h = ground (arith, split_once-append c a b h.1)

pub rsplit_once-eq-none : (c : ℕ) (a : Str) → Lacks c a → rsplit_once c a ≡ none
unfolding rsplit_once
rsplit_once-eq-none c [] h = refl
rsplit_once-eq-none c (x ∷ a) h = ground (arith, rsplit_once-eq-none c a h.1)

pub rsplit_once-append : (c : ℕ) (a b : Str) → Lacks c b → rsplit_once c (a ++ c ∷ b) ≡ some (a, b)
unfolding rsplit_once
rsplit_once-append c [] b h = ground (arith, rsplit_once-eq-none c b h)
rsplit_once-append c (x ∷ a) b h = ground (arith, rsplit_once-append c a b h)

-- The parts with the separator between them.
unfoldable pub join : ℕ → List Str → Str
join c [] = []
join c (p ∷ []) = p
join c (p ∷ q ∷ ps) = p ++ c ∷ join c (q ∷ ps)

join-cons_head : (c x : ℕ) (p : Str) (ps : List Str) → join c ((x ∷ p) ∷ ps) ≡ x ∷ join c (p ∷ ps)
unfolding join
join-cons_head c x p [] = refl
join-cons_head c x p (q ∷ ps) = refl

-- Splitting loses nothing but the separators, and leaves none.
pub split-cases :
    (c : ℕ) (s : Str)
    → (p : Str) × (ps : List Str) × (split c s ≡ p ∷ ps)
      × (join c (p ∷ ps) ≡ s)
      × All (Lacks c) (p ∷ ps)
unfolding split cons_head join
split-cases c [] = ([], [], refl, refl, (tt, tt))
split-cases c (x ∷ s) =
    let (p, ps, e, j, h) = split-cases c s in
    elim (Bool-cases (eqb x c)) [
      | inl y ↦ ([], p ∷ ps, ground (arith, e), ground (arith, j), (tt, h))
      | inr n ↦ (
        x ∷ p,
        ps,
        ground (arith, e),
        join-cons_head c x p ps ∙ ap (λ t. x ∷ t) j,
        ((ground arith, h.0), h.1),
      )
    ]
