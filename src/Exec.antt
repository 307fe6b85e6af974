-- ===== src/Exec.antt =====
-- Code that changes a state and may return an `std::io::Error` or panic. What was changed before a
-- failure stays changed.
use programming_lightning_bu.Base.{◌≡◌, refl, ap, Outcome, ok, err, panic}

-- `std::io::ErrorKind`; `device` is any failure of the operating system.
pub data IoError : Type 0 where
  other invalid_input invalid_data not_found is_a_directory not_a_directory device : IoError

abbrev pub Exec : Type 0 → Type 0 → Type 0
Exec S A = S → Outcome IoError A × S

module _ {S A : Type 0} where
  abbrev pub pure : A → Exec S A
  pure a s = (ok a, s)

  abbrev pub lift : Outcome IoError A → Exec S A
  lift r s = (r, s)

module _ {S A B : Type 0} where
  abbrev pub continue : Outcome IoError A → (A → Exec S B) → Exec S B
  continue (ok a) f s = f a s
  continue (err e) f s = (err e, s)
  continue panic f s = (panic, s)

  infixl 5 ◌>>=◌ ◌>>◌
  unfoldable pub ◌>>=◌ : Exec S A → (A → Exec S B) → Exec S B
  ◌>>=◌ m f s = let (r, s') = m s in continue r f s'

  abbrev pub ◌>>◌ : Exec S A → Exec S B → Exec S B
  m >> k = m >>= λ _. k

-- A postcondition of a chain: of the rest if the first part returns, and of the failure if not.
pub bind_rule {ℓ} :
    {S A B : Type 0} (Q : Outcome IoError B × S → Type ℓ) (m : Exec S A) (f : A → Exec S B) (s : S)
    → ((a : A) → (m s).0 ≡ ok a → Q (f a (m s).1))
    → ((e : IoError) → (m s).0 ≡ err e → Q (err e, (m s).1))
    → ((m s).0 ≡ panic → Q (panic, (m s).1))
    → Q ((m >>= f) s)
unfolding ◌>>=◌
bind_rule {A} {B} Q m f s returns fails panics = go (m s).0 refl
  where
    go : (r : Outcome IoError A) → (m s).0 ≡ r → Q (continue r f (m s).1)
    go (ok a) e = returns a e
    go (err x) e = fails x e
    go panic e = panics e

-- A chain that returned: its first part returned, and the rest went on from there.
pub >>=-eq-ok :
    {S A B : Type 0} (m : Exec S A) (f : A → Exec S B) (s : S) {b : B}
    → ((m >>= f) s).0 ≡ ok b
    → (a : A) × ((m s).0 ≡ ok a) × ((m >>= f) s ≡ f a (m s).1)
unfolding ◌>>=◌
>>=-eq-ok {A} m f s {b} done = go (m s).0 refl done
  where
    go :
        (r : Outcome IoError A)
        → (m s).0 ≡ r
        → (continue r f (m s).1).0 ≡ ok b
        → (a : A) × ((m s).0 ≡ ok a) × (continue (m s).0 f (m s).1 ≡ f a (m s).1)
    go (ok a) e h = (a, e, ap (λ x. continue x f (m s).1) e)
    go (err x) e h = absurd (cc)
    go panic e h = absurd (cc)
