-- ===== src/Runtime/Keeps.antt =====
-- Rules to show that an action keeps a property of the state, along the shape of its code. The
-- property speaks of the state at the end, however the action ends.
use netconf_operator.Base.{◌≡◌, refl, Bool, true, false, Option, none, some, if◌then◌else◌}
use netconf_operator.Runtime.Monad.{Outcome, ok, panic, exit, State, M, continue, ◌>>=◌}

-- The two branches of `if err != nil`, where the first reads the error.
abbrev pub on_error : {W A E : Type 0} → Option E → (E → M W A) → M W A → M W A
on_error o f g = elim o [ some e ↦ f e | none ↦ g ]

module _ {W : Type 0} (I : State W → Type 0) where
  pub continue-keeps :
      {A B : Type 0} (r : Outcome A) (f : A → M W B) (s : State W)
      → I s
      → ((a : A) → r ≡ ok a → I (f a s).1)
      → I (continue r f s).1
  continue-keeps (ok a) f s i h = h a refl
  continue-keeps panic f s i h = i
  continue-keeps exit f s i h = i

  -- A step that keeps the property, and a rest that keeps it for each value of the step.
  pub >>=-keeps :
      {A B : Type 0} (m : M W A) (f : A → M W B) (s : State W)
      → I (m s).1
      → ((a : A) → (m s).0 ≡ ok a → I (f a (m s).1).1)
      → I ((m >>= f) s).1
  >>=-keeps m f s i h = continue-keeps (m s).0 f (m s).1 i h

  pub if-keeps :
      {A : Type 0} (b : Bool) (x y : M W A) (s : State W)
      → (b ≡ true → I (x s).1)
      → (b ≡ false → I (y s).1)
      → I ((if b then x else y) s).1
  if-keeps true x y s h k = h refl
  if-keeps false x y s h k = k refl

  pub on_error-keeps :
      {A E : Type 0} (o : Option E) (f : E → M W A) (g : M W A) (s : State W)
      → ((e : E) → o ≡ some e → I (f e s).1)
      → (o ≡ none → I (g s).1)
      → I (on_error o f g s).1
  on_error-keeps (some e) f g s h k = h e refl
  on_error-keeps none f g s h k = k refl
