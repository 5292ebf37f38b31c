-- ===== src/Common/Exec.antt =====
-- Computations on a state that may raise. An exception keeps the state that was reached.
use mathlib.Core.Logic.{◌⊎◌, inl, inr}
use mathlib.Core.Path.{◌≡◌, refl}

pub data Result {ℓ κ} (E : Type κ) (A : Type ℓ) : Type (ℓ ⊔ κ) where
  ok : A → Result E A
  raise : E → Result E A

pub Result-cases {ℓ κ} :
    {E : Type κ} {A : Type ℓ} (r : Result E A) → ((a : A) × (r ≡ ok a)) ⊎ ((e : E) × (r ≡ raise e))
Result-cases (ok a) = inl (a, refl)
Result-cases (raise e) = inr (e, refl)

abbrev pub Exec : Type 0 → Type 0 → Type 0 → Type 0
Exec S E A = S → Result E A × S

module _ {S E : Type 0} where
  abbrev pub pure : {A : Type 0} → A → Exec S E A
  pure a s = (ok a, s)

  abbrev pub throw : {A : Type 0} → E → Exec S E A
  throw e s = (raise e, s)

  abbrev pub bind_result : {A B : Type 0} → (A → Exec S E B) → Result E A → Exec S E B
  bind_result f (ok a) s = f a s
  bind_result f (raise e) s = (raise e, s)

  infixl 5 ◌>>=◌ ◌>>◌
  abbrev pub ◌>>=◌ : {A B : Type 0} → Exec S E A → (A → Exec S E B) → Exec S E B
  ◌>>=◌ m f s = bind_result f (m s).0 (m s).1

  abbrev pub ◌>>◌ : {B : Type 0} → Exec S E (Unit {0}) → Exec S E B → Exec S E B
  m >> k = m >>= λ _. k

  abbrev pub gets : {A : Type 0} → (S → A) → Exec S E A
  gets f s = (ok (f s), s)

  abbrev pub puts : (S → S) → Exec S E (Unit {0})
  puts f s = (ok tt, f s)

-- A relation between the states before and after holds of a sequence if it holds of its parts.
module _ {S E A B : Type 0} (R : S → S → Type 0) (trans : (s t u : S) → R s t → R t u → R s u)
    (f : A → Exec S E B) where
  bind_result-rel :
      (r : Result E A) (s t : S)
      → R s t
      → ((a : A) (u : S) → R u (f a u).1)
      → R s (bind_result f r t).1
  bind_result-rel (ok a) s t h k = trans s t _ h (k a t)
  bind_result-rel (raise e) s t h k = h

  pub bind-rel :
      (m : Exec S E A) (s : S)
      → R s (m s).1
      → ((a : A) (u : S) → R u (f a u).1)
      → R s (◌>>=◌ m f s).1
  bind-rel m s h k = bind_result-rel (m s).0 s (m s).1 h k

-- A sequence that answers has parts that answer.
module _ {S E A B : Type 0} (f : A → Exec S E B) where
  bind_result-ok :
      (r : Result E A) (s : S) {b : B}
      → (bind_result f r s).0 ≡ ok b
      → (a : A) × (r ≡ ok a) × (bind_result f r s ≡ f a s)
  bind_result-ok (ok a) s h = (a, refl, refl)
  bind_result-ok (raise e) s h = cc

  pub bind-ok :
      (m : Exec S E A) (s : S) {b : B}
      → (◌>>=◌ m f s).0 ≡ ok b
      → (a : A) × ((m s).0 ≡ ok a) × (◌>>=◌ m f s ≡ f a (m s).1)
  bind-ok m s h = bind_result-ok (m s).0 (m s).1 h
