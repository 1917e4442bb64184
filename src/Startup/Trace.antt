-- ===== src/Startup/Trace.antt =====
-- The calls of a start as a specification: what each registration asks of the manager, and what
-- `main` does in all (main.go, controllers/*_controller.go).
use netconf_operator.Base.{
  ◌≡◌, String, List, [], ◌∷◌, Option, some, none, is_some, true, false, if◌then◌else◌, ◌⊎◌,
}
use netconf_operator.Api.Objects.{Kind}
use netconf_operator.Runtime.{Outcome, ok, exit, Error, IsEither}
use netconf_operator.Startup.Host.{Host, Manager, Controller, Flags, Reconciler, SetupCall}
use netconf_operator.Startup.Registration
use netconf_operator.Startup.Main.{options_of}

-- The name under which the controller of a kind runs.
abbrev pub controller_name : Kind → String
controller_name Kind.mount_point = Registration.mount_point_controller_name
controller_name Kind.lock = Registration.lock_controller_name
controller_name Kind.unlock = Registration.unlock_controller_name
controller_name Kind.edit_config = Registration.edit_config_controller_name
controller_name Kind.commit = Registration.commit_controller_name
controller_name Kind.get = Registration.get_controller_name
controller_name Kind.get_config = Registration.get_config_controller_name
controller_name Kind.rpc = Registration.rpc_controller_name
controller_name Kind.create_subscription = Registration.create_subscription_controller_name
controller_name Kind.establish_subscription = Registration.establish_subscription_controller_name

-- The order of the registrations.
abbrev pub order : List Kind
order =
    Kind.mount_point ∷ Kind.lock ∷ Kind.unlock ∷ Kind.edit_config ∷ Kind.get ∷ Kind.get_config
    ∷ Kind.commit ∷ Kind.rpc ∷ Kind.establish_subscription ∷ Kind.create_subscription ∷ []

-- What is relied on: a call that returns a pointer and an error returns one of them, and
-- `ctrl.GetConfigOrDie` returns or ends the process.
pub record IsSound {W : Type 0} (H : Host W) : Type 0 where
  pub config : (w : W) → ((H.get_config_or_die w).0 ≡ ok tt) ⊎ ((H.get_config_or_die w).0 ≡ exit)
  pub managers : (o : _) (w : W) → IsEither (H.new_manager o w).0
  pub controllers :
      (name : String) (m : Manager) (r : Reconciler) (w : W)
      → IsEither (H.new_controller name m r w).0

-- A registration for a kind, from a world and on the calls before it: a controller of the kind's name
-- that reconciles the kind is asked for, and its error is returned; or a controller is returned, and
-- the result of a watch of the kind with it.
pub data Added {W : Type 0} (H : Host W) (m : Manager) (k : Kind) (w : W) (before : List SetupCall)
    : Option Error → List SetupCall → Type 0 where
  refused :
      (r : Reconciler) (e : Error)
      → r.kind ≡ k
      → (H.new_controller (controller_name k) m r w).0 ≡ (none, some e)
      → Added H m k w before (some e) (SetupCall.new_controller (controller_name k) m r ∷ before)
  watched :
      (r : Reconciler) (c : Controller) (e : Option Error)
      → r.kind ≡ k
      → (H.new_controller (controller_name k) m r w).0 ≡ (some c, none)
      → (H.watch c k (H.new_controller (controller_name k) m r w).1).0 ≡ e
      → Added H m k w before e
          (SetupCall.watch c k ∷ SetupCall.new_controller (controller_name k) m r ∷ before)

-- Registrations in order, whatever their errors.
pub data AllAdded {W : Type 0} (H : Host W) (m : Manager)
    : List Kind → List SetupCall → List SetupCall → Type 0 where
  nothing : (before : List SetupCall) → AllAdded H m [] before before
  next :
      {k : Kind} {ks : List Kind} {before calls after : List SetupCall} (w : W) (e : Option Error)
      → Added H m k w before e calls
      → AllAdded H m ks calls after
      → AllAdded H m (k ∷ ks) before after

-- The two checks and the start from a world on, each after the one before has returned nil. The
-- process ends if one of the three returns an error.
pub data Served {W : Type 0} (H : Host W) (w : W) (before : List SetupCall)
    : Outcome (Unit {0}) → List SetupCall → Type 0 where
  not_healthy :
      is_some (H.add_healthz_check "healthz" w).0 ≡ true
      → Served H w before exit (SetupCall.add_healthz_check "healthz" ∷ before)
  not_ready :
      is_some (H.add_healthz_check "healthz" w).0 ≡ false
      → is_some (H.add_readyz_check "readyz" (H.add_healthz_check "healthz" w).1).0 ≡ true
      → Served H w before exit
          (SetupCall.add_readyz_check "readyz" ∷ SetupCall.add_healthz_check "healthz" ∷ before)
  ran :
      (r : Outcome (Unit {0}))
      → is_some (H.add_healthz_check "healthz" w).0 ≡ false
      → is_some (H.add_readyz_check "readyz" (H.add_healthz_check "healthz" w).1).0 ≡ false
      → r ≡ (
          if is_some (H.start (H.add_readyz_check "readyz" (H.add_healthz_check "healthz" w).1).1).0
          then exit
          else ok tt)
      → Served H w before r (
          SetupCall.start
          ∷ SetupCall.add_readyz_check "readyz"
          ∷ SetupCall.add_healthz_check "healthz"
          ∷ before)

-- A whole start, from the world after the flags.
pub data Started {W : Type 0} (H : Host W) (f : Flags) (w : W) (before : List SetupCall)
    : Outcome (Unit {0}) → List SetupCall → Type 0 where
  no_config :
      (H.get_config_or_die w).0 ≡ exit
      → Started H f w before exit (SetupCall.get_config_or_die ∷ before)
  no_manager :
      (H.get_config_or_die w).0 ≡ ok tt
      → is_some (H.new_manager (options_of f) (H.get_config_or_die w).1).0.1 ≡ true
      → Started H f w before exit
          (SetupCall.new_manager (options_of f) ∷ SetupCall.get_config_or_die ∷ before)
  served :
      (m : Manager) (w' : W) {calls after : List SetupCall} {r : Outcome (Unit {0})}
      → (H.get_config_or_die w).0 ≡ ok tt
      → (H.new_manager (options_of f) (H.get_config_or_die w).1).0 ≡ (some m, none)
      → AllAdded H m order
          (SetupCall.new_manager (options_of f) ∷ SetupCall.get_config_or_die ∷ before)
          calls
      → Served H w' calls r after
      → Started H f w before r after
