-- ===== src/Runtime/Returns.antt =====
-- What holds of the value that a run returns, if it returns.
use netconf_operator.Base.{Bool, true, false, if◌then◌else◌, ◌≡◌, refl}
use netconf_operator.Runtime.Monad.{Outcome, ok, panic, exit, State, M, continue, ◌>>=◌}

abbrev pub Returns : {W A : Type 0} → (A → Type 0) → Outcome A × State W → Type 0
Returns C (ok a, s) = C a
Returns C (panic, s) = Unit
Returns C (exit, s) = Unit

module _ {W B : Type 0} (C : B → Type 0) where
  pub continue-Returns :
      {A : Type 0} (r : Outcome A) (f : A → M W B) (s : State W)
      → ((a : A) → r ≡ ok a → Returns C (f a s))
      → Returns C (continue r f s)
  continue-Returns (ok a) f s h = h a refl
  continue-Returns panic f s h = tt
  continue-Returns exit f s h = tt

  pub >>=-Returns :
      {A : Type 0} (m : M W A) (f : A → M W B) (s : State W)
      → ((a : A) → (m s).0 ≡ ok a → Returns C (f a (m s).1))
      → Returns C ((m >>= f) s)
  >>=-Returns m f s h = continue-Returns (m s).0 f (m s).1 h

  pub if-Returns :
      (b : Bool) (x y : M W B) (s : State W)
      → (b ≡ true → Returns C (x s))
      → (b ≡ false → Returns C (y s))
      → Returns C ((if b then x else y) s)
  if-Returns true x y s h k = h refl
  if-Returns false x y s h k = k refl
