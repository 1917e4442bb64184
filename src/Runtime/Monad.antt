-- ===== src/Runtime/Monad.antt =====
-- A Go function of the operator: it reads and writes the global `Sessions`, calls other code, and
-- returns, panics or ends the process.
use netconf_operator.Base.{Option, none, some, List, ◌∷◌}
use netconf_operator.Base.GoMap.{GoMap}
use netconf_operator.Runtime.Calls.{Call, SessionPtr}

pub data Outcome (A : Type 0) : Type 0 where
  ok : A → Outcome A
  panic : Outcome A
  -- `log.Fatal`
  exit : Outcome A

-- `W` holds what the operator does not: the cluster, the devices and the brokers. `calls` lists
-- the calls made so far, the latest first; no code reads it.
pub record State (W : Type 0) : Type 0 where
  pub sessions : GoMap SessionPtr
  pub calls : List Call
  pub world : W

abbrev pub M : Type 0 → Type 0 → Type 0
M W A = State W → Outcome A × State W

abbrev pub pure : {W A : Type 0} → A → M W A
pure a s = (ok a, s)

-- A nil pointer dereference.
abbrev pub panics : {W A : Type 0} → M W A
panics s = (panic, s)

abbrev pub fatal : {W A : Type 0} → M W A
fatal s = (exit, s)

abbrev pub continue : {W A B : Type 0} → Outcome A → (A → M W B) → M W B
continue (ok a) f s = f a s
continue panic f s = (panic, s)
continue exit f s = (exit, s)

infixl 5 ◌>>=◌ ◌>>◌
abbrev pub ◌>>=◌ : {W A B : Type 0} → M W A → (A → M W B) → M W B
◌>>=◌ m f s = let (r, s') = m s in continue r f s'

abbrev pub ◌>>◌ : {W A B : Type 0} → M W A → M W B → M W B
m >> k = m >>= λ _. k

-- A call that returns.
abbrev pub external : {W A : Type 0} → Call → (W → A × W) → M W A
external c f s = let (a, w) = f s.world in (ok a, record s { calls = c ∷ s.calls; world = w })

-- A call that returns or panics.
abbrev pub external_or_panic : {W A : Type 0} → Call → (W → Outcome A × W) → M W A
external_or_panic c f s = let (r, w) = f s.world in (r, record s { calls = c ∷ s.calls; world = w })

-- A call that returns nothing.
abbrev pub external_ : {W : Type 0} → Call → (W → W) → M W (Unit {0})
external_ c f s = (ok tt, record s { calls = c ∷ s.calls; world = f s.world })

-- A read of a field behind a pointer that the platform holds.
abbrev pub read : {W A : Type 0} → (W → A) → M W A
read f s = (ok (f s.world), s)

abbrev pub get_sessions : {W : Type 0} → M W (GoMap SessionPtr)
get_sessions s = (ok s.sessions, s)

abbrev pub put_sessions : {W : Type 0} → GoMap SessionPtr → M W (Unit {0})
put_sessions m s = (ok tt, record s { sessions = m })

-- `*p`, or a field of it: a panic if `p` is nil.
abbrev pub deref : {W A : Type 0} → Option A → M W A
deref none = panics
deref (some a) = pure a
