-- ===== src/FilesystemStore/Checks.antt =====
-- Which names are refused, and that a refusal comes before everything else.
use programming_lightning_bu.Base.{
  inl, inr, ◌⊎◌, Bool-cases, ◌==◌, nat_eq, all, contains, All, ◌≡◌, ◌≢◌, ◌↔◌, refl, Str, Bool, true,
  some, List, [], ◌∷◌, arith, ok, err, panic, if◌then◌else◌, ℕ, All, all, contains, length, ◌⊎◌,
  Bool-cases, inl, ◌≤◌, inr, ◌==◌,
}
use programming_lightning_bu.Exec.{other}
use programming_lightning_bu.FilesystemStore.Names.{
  Config, is_valid_kvstore_str, check_namespace_key_validity,
}
use programming_lightning_bu.FilesystemStore.Locks.{Process}
use programming_lightning_bu.FilesystemStore.Io.{read, write, remove}

abbrev pub IsIn : ℕ → List ℕ → Type 0
IsIn x [] = ⊥
IsIn x (y ∷ ys) = (y ≡ x) ⊎ IsIn x ys

-- A text that is short enough, of characters of the alphabet.
pub record IsAllowed (c : Config) (s : Str) : Type 0 where
  pub short : length s ≤ c.max_len
  pub of_alphabet : All (λ x. IsIn x c.alphabet) s

-- What a key and its namespaces must be.
pub record Wellformed (c : Config) (primary secondary key : Str) : Type 0 where
  pub key_given : key ≢ []
  pub secondary_under : primary ≡ [] → secondary ≡ []
  pub primary_allowed : IsAllowed c primary
  pub secondary_allowed : IsAllowed c secondary
  pub key_allowed : IsAllowed c key

contains-IsIn : (a : List ℕ) (x : ℕ) → contains a x ≡ true → IsIn x a
contains-IsIn [] x e = cc
contains-IsIn (y ∷ a) x e = elim (Bool-cases (y == x)) [
  | inl same ↦ inl (ground arith)
  | inr differs ↦ inr (contains-IsIn a x (ground arith))
]

IsIn-contains : (a : List ℕ) (x : ℕ) → IsIn x a → contains a x ≡ true
IsIn-contains [] x h = elim h [ ]
IsIn-contains (y ∷ a) x (inl p) = ground (arith, p)
IsIn-contains (y ∷ a) x (inr h) = ground (arith, IsIn-contains a x h)

all-IsIn : (a : List ℕ) (s : Str) → all (λ b. contains a b) s ≡ true → All (λ x. IsIn x a) s
all-IsIn a [] e = tt
all-IsIn a (x ∷ s) e = (contains-IsIn a x (ground arith), all-IsIn a s (ground arith))

IsIn-all : (a : List ℕ) (s : Str) → All (λ x. IsIn x a) s → all (λ b. contains a b) s ≡ true
IsIn-all a [] h = refl
IsIn-all a (x ∷ s) h = ground (arith, IsIn-contains a x h.0, IsIn-all a s h.1)

valid-IsAllowed : (c : Config) (s : Str) → is_valid_kvstore_str c s ≡ true → IsAllowed c s
unfolding is_valid_kvstore_str
valid-IsAllowed c s e = record {
  short = ground arith;
  of_alphabet = all-IsIn c.alphabet s (ground arith);
}

IsAllowed-valid : (c : Config) (s : Str) → IsAllowed c s → is_valid_kvstore_str c s ≡ true
unfolding is_valid_kvstore_str
IsAllowed-valid c s h = ground (arith, h.short, IsIn-all c.alphabet s h.of_alphabet)

check-Wellformed :
    (c : Config) (primary secondary key : Str)
    → check_namespace_key_validity c primary secondary (some key) ≡ ok tt
    → Wellformed c primary secondary key
unfolding check_namespace_key_validity
check-Wellformed c primary secondary key e = record {
  key_given = ground arith;
  secondary_under = ground arith;
  primary_allowed = valid-IsAllowed c primary (ground arith);
  secondary_allowed = valid-IsAllowed c secondary (ground arith);
  key_allowed = valid-IsAllowed c key (ground arith);
}

Wellformed-check :
    (c : Config) (primary secondary key : Str)
    → Wellformed c primary secondary key
    → check_namespace_key_validity c primary secondary (some key) ≡ ok tt
unfolding check_namespace_key_validity
Wellformed-check c [] secondary key w =
    let p = IsAllowed-valid c [] w.primary_allowed in
    let s = IsAllowed-valid c secondary w.secondary_allowed in
    let k = IsAllowed-valid c key w.key_allowed in
    ground (arith, w.secondary_under refl, w.key_given, p, s, k)
Wellformed-check c (x ∷ primary) secondary key w =
    let p = IsAllowed-valid c (x ∷ primary) w.primary_allowed in
    let s = IsAllowed-valid c secondary w.secondary_allowed in
    let k = IsAllowed-valid c key w.key_allowed in ground (arith, w.key_given, p, s, k)

-- The check passes exactly for wellformed names: the key is not empty, the secondary namespace is
-- empty if the primary one is, and all three are at most as long as LDK allows, with only characters
-- of its alphabet. Otherwise it panics with debug assertions and is
-- an error of the kind `Other` without.
pub check_exact :
    (c : Config) (primary secondary key : Str)
    → ((check_namespace_key_validity c primary secondary (some key) ≡ ok tt)
        ↔ Wellformed c primary secondary key)
      × (check_namespace_key_validity c primary secondary (some key) ≢ ok tt
          → check_namespace_key_validity c primary secondary (some key)
            ≡ (if c.debug then panic else err other))
unfolding check_namespace_key_validity
check_exact c primary secondary key = (
  (check-Wellformed c primary secondary key, Wellformed-check c primary secondary key),
  λ h. ground arith,
)

-- With a key that fails the check, `write` and `remove` do not return `Ok`, and `read`, `write` and
-- `remove` leave the files, the failures to come, the locks and the counters as they were.
pub refused_changes_nothing :
    (c : Config) (primary secondary key : Str) (buf : List ℕ) (lazy : Bool) (t : Process)
    → check_namespace_key_validity c primary secondary (some key) ≢ ok tt
    → ((write c primary secondary key buf t).1 ≡ t)
      × ((write c primary secondary key buf t).0 ≢ ok tt)
      × ((read c primary secondary key t).1 ≡ t)
      × ((remove c primary secondary key lazy t).1 ≡ t)
      × ((remove c primary secondary key lazy t).0 ≢ ok tt)
unfolding write read remove
refused_changes_nothing c primary secondary key buf lazy t h =
    (ground arith, ground arith, ground arith, ground arith, ground arith)
