-- ===== src/Effect.antt =====
-- Calls of the services: a state that is passed on, and a value or a thrown error. What was
-- written before a throw stays written. `await` is sequencing; each call of this development runs
-- without another request in between.
use qa_api.Common.{Bool, true, false, Option, none, some, ◌≡◌, refl, ◌⊎◌, inl, inr}
use qa_api.Error.Handler.{Thrown, application}
use qa_api.Error.Application.{ApplicationError}

pub data Outcome (A : Type 0) : Type 0 where
  ok : A → Outcome A
  err : Thrown → Outcome A

pub Outcome-cases :
    {A : Type 0} (o : Outcome A) → ((a : A) × (o ≡ ok a)) ⊎ ((e : Thrown) × (o ≡ err e))
Outcome-cases (ok a) = inl (a, refl)
Outcome-cases (err e) = inr (e, refl)

abbrev pub Action : Type 0 → Type 0 → Type 0
Action S A = S → Outcome A × S

-- An object as a condition: what a search returns is no `null`.
abbrev pub is_object {ℓ} : {A : Type ℓ} → A → Bool
is_object a = true

module _ {S : Type 0} where
  abbrev pub pure : {A : Type 0} → A → Action S A
  pure a s = (ok a, s)

  abbrev pub throw : {A : Type 0} → ApplicationError → Action S A
  throw e s = (err (application e), s)

  infixl 5 ◌>>=◌ ◌>>◌
  abbrev pub ◌>>=◌ : {A B : Type 0} → Action S A → (A → Action S B) → Action S B
  ◌>>=◌ m f s = let (r, s') = m s in elim r [ ok a ↦ f a s' | err e ↦ (err e, s') ]

  abbrev pub ◌>>◌ : {A B : Type 0} → Action S A → Action S B → Action S B
  ◌>>◌ m k s = let (r, s') = m s in elim r [ ok a ↦ k s' | err e ↦ (err e, s') ]

  abbrev pub throw_if : Bool → ApplicationError → Action S (Unit {0})
  throw_if c e s = elim c [ true ↦ (err (application e), s) | false ↦ (ok tt, s) ]

  abbrev pub or_throw : {A : Type 0} → Option A → ApplicationError → Action S A
  or_throw none e s = (err (application e), s)
  or_throw (some a) e s = (ok a, s)

  -- A read that cannot fail.
  abbrev pub gets : {A : Type 0} → (S → A) → Action S A
  gets f s = (ok (f s), s)

  -- A write that cannot fail.
  abbrev pub modify : (S → S) → Action S (Unit {0})
  modify f s = (ok tt, f s)
