-- ===== src/Runtime/Finishes.antt =====
-- How a run ends: with a value and a state of which `C` holds, or with a panic in a state of which
-- `X` holds, and never with the end of the process. The rules follow the shape of the code.
use netconf_operator.Base.{
  Bool, true, false, if◌then◌else◌, ◌≡◌, refl, sym, subst, Option, none, some,
}
use netconf_operator.Runtime.Monad.{Outcome, ok, panic, exit, State, M, continue, ◌>>=◌}
use netconf_operator.Runtime.Keeps.{on_error}

module _ {W : Type 0} (X : State W → Type 0) where
  abbrev pub Finishes : {A : Type 0} → (A → State W → Type 0) → Outcome A × State W → Type 0
  Finishes C (ok a, s) = C a s
  Finishes C (panic, s) = X s
  Finishes C (exit, s) = ⊥

  -- It finishes in some way.
  abbrev pub Stops : {A : Type 0} → Outcome A × State W → Type 0
  Stops = Finishes (λ _ _. Unit)

  pub continue-Finishes :
      {A B : Type 0} (C : A → State W → Type 0) (D : B → State W → Type 0) (f : A → M W B)
      (r : Outcome A) (s : State W)
      → Finishes C (r, s)
      → ((a : A) (s : State W) → C a s → Finishes D (f a s))
      → Finishes D (continue r f s)
  continue-Finishes C D f (ok a) s c h = h a s c
  continue-Finishes C D f panic s c h = c
  continue-Finishes C D f exit s c h = absurd c

  pub >>=-Finishes :
      {A B : Type 0} (C : A → State W → Type 0) (D : B → State W → Type 0) (m : M W A)
      (f : A → M W B) (s : State W)
      → Finishes C (m s)
      → ((a : A) (s : State W) → C a s → Finishes D (f a s))
      → Finishes D ((m >>= f) s)
  >>=-Finishes C D m f s c h = continue-Finishes C D f (m s).0 (m s).1 c h

  pub if-Finishes :
      {A : Type 0} (C : A → State W → Type 0) (b : Bool) (x y : M W A) (s : State W)
      → (b ≡ true → Finishes C (x s))
      → (b ≡ false → Finishes C (y s))
      → Finishes C ((if b then x else y) s)
  if-Finishes C true x y s h k = h refl
  if-Finishes C false x y s h k = k refl

  pub on_error-Finishes :
      {A E : Type 0} (C : A → State W → Type 0) (o : Option E) (f : E → M W A) (g : M W A)
      (s : State W)
      → ((e : E) → o ≡ some e → Finishes C (f e s))
      → (o ≡ none → Finishes C (g s))
      → Finishes C (on_error o f g s)
  on_error-Finishes C (some e) f g s h k = h e refl
  on_error-Finishes C none f g s h k = k refl

  -- A run whose outcome is known.
  pub ok-Finishes :
      {A : Type 0} (C : A → State W → Type 0) (r : Outcome A) (s : State W) (a : A)
      → r ≡ ok a
      → C a s
      → Finishes C (r, s)
  ok-Finishes C r s a h c = subst (λ r. Finishes C (r, s)) (sym h) c

  pub Finishes-Stops :
      {A : Type 0} (C : A → State W → Type 0) (x : Outcome A × State W) → Finishes C x → Stops x
  Finishes-Stops C (ok a, s) h = tt
  Finishes-Stops C (panic, s) h = h
  Finishes-Stops C (exit, s) h = absurd h

  -- What holds of the values that a run may return.
  pub Stops-Finishes :
      {A : Type 0} (C : A → State W → Type 0) (r : Outcome A) (s : State W)
      → Stops (r, s)
      → ((a : A) → r ≡ ok a → C a s)
      → Finishes C (r, s)
  Stops-Finishes C (ok a) s h c = c a refl
  Stops-Finishes C panic s h c = h
  Stops-Finishes C exit s h c = absurd h

  -- A run that stops, but not by a panic, returns.
  pub Stops-ok :
      {A : Type 0} (x : Outcome A × State W)
      → Stops x
      → ((s : State W) → X s → ⊥)
      → (a : A) × (x.0 ≡ ok a)
  Stops-ok (ok a, s) h safe = (a, refl)
  Stops-ok (panic, s) h safe = absurd (safe s h)
  Stops-ok (exit, s) h safe = absurd h
