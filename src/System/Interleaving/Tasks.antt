-- ===== src/System/Interleaving/Tasks.antt =====
-- The reconciles under way that have passed the validation, and the sessions that they count on.
use netconf_operator.Base.{
  ◌≡◌, ◌≢◌, refl, String, List, [], ◌∷◌, Bool, true, Option, is_some, arith,
}
use netconf_operator.Base.GoMap.{GoMap, lookup, insert, lookup-insert}
use netconf_operator.Api.Objects.{Kind, Object, device_name}
use netconf_operator.Runtime.{Platform, Error, SessionPtr}
use netconf_operator.System.Interleaving.{Task, Picks}

module _ {W : Type 0} (P : Platform W) where
  -- A task whose validation has passed finds its session.
  abbrev pub Finds : GoMap SessionPtr → Task → Type 0
  Finds m (Task.read k x) = Unit
  Finds m (Task.judged Kind.mount_point o x) = Unit
  Finds m (Task.judged Kind.lock o x) =
      x.0 ≡ true → is_some (lookup (P.text (device_name Kind.lock o)) m) ≡ true
  Finds m (Task.judged Kind.unlock o x) =
      x.0 ≡ true → is_some (lookup (P.text (device_name Kind.unlock o)) m) ≡ true
  Finds m (Task.judged Kind.edit_config o x) =
      x.0 ≡ true → is_some (lookup (P.text (device_name Kind.edit_config o)) m) ≡ true
  Finds m (Task.judged Kind.commit o x) =
      x.0 ≡ true → is_some (lookup (P.text (device_name Kind.commit o)) m) ≡ true
  Finds m (Task.judged Kind.get o x) =
      x.0 ≡ true → is_some (lookup (P.text (device_name Kind.get o)) m) ≡ true
  Finds m (Task.judged Kind.get_config o x) =
      x.0 ≡ true → is_some (lookup (P.text (device_name Kind.get_config o)) m) ≡ true
  Finds m (Task.judged Kind.rpc o x) =
      x.0 ≡ true → is_some (lookup (P.text (device_name Kind.rpc o)) m) ≡ true
  Finds m (Task.judged Kind.create_subscription o x) =
      x.0 ≡ true → is_some (lookup (P.text (device_name Kind.create_subscription o)) m) ≡ true
  Finds m (Task.judged Kind.establish_subscription o x) =
      x.0 ≡ true → is_some (lookup (P.text (device_name Kind.establish_subscription o)) m) ≡ true

  abbrev pub AllFind : GoMap SessionPtr → List Task → Type 0
  AllFind m [] = Unit
  AllFind m (t ∷ ts) = Finds m t × AllFind m ts

  still :
      (key j : String) (q : SessionPtr) (m : GoMap SessionPtr)
      → is_some (lookup j m) ≡ true
      → is_some (lookup j (insert key q m)) ≡ true
  still key j q m h = ground (arith, lookup-insert j key q m)

  Finds-insert :
      (key : String) (q : SessionPtr) (m : GoMap SessionPtr) (t : Task)
      → Finds m t
      → Finds (insert key q m) t
  Finds-insert key q m (Task.read k x) f = tt
  Finds-insert key q m (Task.judged Kind.mount_point o x) f = tt
  Finds-insert key q m (Task.judged Kind.lock o x) f = λ passed. still key _ q m (f passed)
  Finds-insert key q m (Task.judged Kind.unlock o x) f = λ passed. still key _ q m (f passed)
  Finds-insert key q m (Task.judged Kind.edit_config o x) f = λ passed. still key _ q m (f passed)
  Finds-insert key q m (Task.judged Kind.commit o x) f = λ passed. still key _ q m (f passed)
  Finds-insert key q m (Task.judged Kind.get o x) f = λ passed. still key _ q m (f passed)
  Finds-insert key q m (Task.judged Kind.get_config o x) f = λ passed. still key _ q m (f passed)
  Finds-insert key q m (Task.judged Kind.rpc o x) f = λ passed. still key _ q m (f passed)
  Finds-insert key q m (Task.judged Kind.create_subscription o x) f =
      λ passed. still key _ q m (f passed)
  Finds-insert key q m (Task.judged Kind.establish_subscription o x) f =
      λ passed. still key _ q m (f passed)

  pub AllFind-insert :
      (key : String) (q : SessionPtr) (m : GoMap SessionPtr) (ts : List Task)
      → AllFind m ts
      → AllFind (insert key q m) ts
  AllFind-insert key q m [] f = tt
  AllFind-insert key q m (t ∷ ts) (f, fs) = (Finds-insert key q m t f, AllFind-insert key q m ts fs)

  pub picked-Finds :
      (m : GoMap SessionPtr) (t : Task) (ts us : List Task)
      → Picks t ts us
      → AllFind m ts
      → Finds m t × AllFind m us
  picked-Finds m t _ _ (Picks.here ts) (f, fs) = (f, fs)
  picked-Finds m t _ _ (Picks.there u {ts = ts} {us = us} picks) (f, fs) =
      let (g, gs) = picked-Finds m t ts us picks fs in (g, (f, gs))

  pub judged-Finds :
      (k : Kind) (o : Object k) (x : Bool × Option Error) (m : GoMap SessionPtr)
      → k ≢ Kind.mount_point
      → Finds m (Task.judged k o x)
      → x.0 ≡ true
      → is_some (lookup (P.text (device_name k o)) m) ≡ true
  judged-Finds Kind.mount_point o x m ne f h = absurd (ne refl)
  judged-Finds Kind.lock o x m ne f h = f h
  judged-Finds Kind.unlock o x m ne f h = f h
  judged-Finds Kind.edit_config o x m ne f h = f h
  judged-Finds Kind.commit o x m ne f h = f h
  judged-Finds Kind.get o x m ne f h = f h
  judged-Finds Kind.get_config o x m ne f h = f h
  judged-Finds Kind.rpc o x m ne f h = f h
  judged-Finds Kind.create_subscription o x m ne f h = f h
  judged-Finds Kind.establish_subscription o x m ne f h = f h

  pub Finds-judged :
      (k : Kind) (o : Object k) (x : Bool × Option Error) (m : GoMap SessionPtr)
      → (k ≢ Kind.mount_point → x.0 ≡ true → is_some (lookup (P.text (device_name k o)) m) ≡ true)
      → Finds m (Task.judged k o x)
  Finds-judged Kind.mount_point o x m f = tt
  Finds-judged Kind.lock o x m f = f (λ e. cc)
  Finds-judged Kind.unlock o x m f = f (λ e. cc)
  Finds-judged Kind.edit_config o x m f = f (λ e. cc)
  Finds-judged Kind.commit o x m f = f (λ e. cc)
  Finds-judged Kind.get o x m f = f (λ e. cc)
  Finds-judged Kind.get_config o x m f = f (λ e. cc)
  Finds-judged Kind.rpc o x m f = f (λ e. cc)
  Finds-judged Kind.create_subscription o x m f = f (λ e. cc)
  Finds-judged Kind.establish_subscription o x m f = f (λ e. cc)
