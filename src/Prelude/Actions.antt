-- ===== src/Prelude/Actions.antt =====
-- Actions on a state that return a value or an error, with the state afterwards in both cases.
use plexplore.Prelude.Fallible.{Outcome, ok, err}

abbrev pub Action {ℓ} : Type 0 → Type 0 → Type ℓ → Type ℓ
Action S E A = S → Outcome E A × S

module _ {ℓ} {S E : Type 0} {A : Type ℓ} where
  abbrev pub pure : A → Action S E A
  pure a s = (ok a, s)

  abbrev pub raise : E → Action S E A
  raise e s = (err e, s)

  abbrev pub gets : (S → A) → Action S E A
  gets f s = (ok (f s), s)

abbrev pub modify : {S E : Type 0} → (S → S) → Action S E (Unit {0})
modify f s = (ok tt, f s)

abbrev pub continue {ℓ κ} :
    {S E : Type 0} {A : Type ℓ} {B : Type κ} → Outcome E A → (A → Action S E B) → Action S E B
continue (ok a) f s = f a s
continue (err e) f s = (err e, s)

infixl 5 ◌>>=◌ ◌>>◌
abbrev pub ◌>>=◌ {ℓ κ} :
    {S E : Type 0} {A : Type ℓ} {B : Type κ} → Action S E A → (A → Action S E B) → Action S E B
◌>>=◌ m f s = let (r, s') = m s in continue r f s'

abbrev pub ◌>>◌ {ℓ κ} :
    {S E : Type 0} {A : Type ℓ} {B : Type κ} → Action S E A → Action S E B → Action S E B
m >> k = m >>= λ _. k
