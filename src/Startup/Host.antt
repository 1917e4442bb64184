-- ===== src/Startup/Host.antt =====
-- What `main` and the registration call: controller-runtime's manager as a parameter, its calls as
-- actions, and the state of a start.
use netconf_operator.Base.{String, List, ◌∷◌, Option, none, some, Bool, ℕ}
use netconf_operator.Api.Objects.{Kind}
use netconf_operator.Runtime.{Outcome, ok, panic, exit, Error}

-- Pointers and interface values that are not nil.
abbrev pub Manager : Type 0
Manager = ℕ

abbrev pub Controller : Type 0
Controller = ℕ

abbrev pub Handle : Type 0
Handle = ℕ

-- The variables of the command line.
pub record Flags : Type 0 where
  pub metrics_addr : String
  pub probe_addr : String
  pub enable_leader_election : Bool

-- `ctrl.Options`, with the scheme that `init` has filled.
pub record Options : Type 0 where
  pub metrics_bind_address : String
  pub port : ℕ
  pub health_probe_bind_address : String
  pub leader_election : Bool
  pub leader_election_id : String
  pub leader_election_resource_lock : String

-- `util.ReconcilerBase`
pub record ReconcilerBase : Type 0 where
  pub client : Handle
  pub scheme : Handle
  pub config : Handle
  pub recorder : Handle
  pub api_reader : Handle

-- A reconciler of one of the ten types. Those of the subscriptions have a recorder of their own.
pub record Reconciler : Type 0 where
  pub kind : Kind
  pub base : ReconcilerBase
  pub recorder : Option Handle

pub data SetupCall : Type 0 where
  add_client_go_to_scheme add_netconf_to_scheme get_config_or_die : SetupCall
  new_manager : Options → SetupCall
  new_controller : String → Manager → Reconciler → SetupCall
  -- `c.Watch` of a kind, with `EnqueueRequestForObject` and the predicate on generations and finalizers.
  watch : Controller → Kind → SetupCall
  add_healthz_check add_readyz_check : String → SetupCall
  start : SetupCall

pub record Host (W : Type 0) : Type 0 where
  pub add_client_go_to_scheme : W → Option Error × W
  pub add_netconf_to_scheme : W → Option Error × W
  -- The flags after the parse, from their defaults.
  pub parse : Flags → W → Flags × W
  -- It ends the process if there is no configuration.
  pub get_config_or_die : W → Outcome (Unit {0}) × W
  pub new_manager : Options → W → (Option Manager × Option Error) × W
  pub get_client : Manager → Handle
  pub get_scheme : Manager → Handle
  pub get_config : Manager → Handle
  pub get_event_recorder_for : Manager → String → Handle
  pub get_api_reader : Manager → Handle
  pub new_controller : String → Manager → Reconciler → W → (Option Controller × Option Error) × W
  pub watch : Controller → Kind → W → Option Error × W
  pub add_healthz_check : String → W → Option Error × W
  pub add_readyz_check : String → W → Option Error × W
  pub start : W → Option Error × W

-- The calls of a start, the latest first.
pub record Setup (W : Type 0) : Type 0 where
  pub calls : List SetupCall
  pub world : W

abbrev pub B : Type 0 → Type 0 → Type 0
B W A = Setup W → Outcome A × Setup W

abbrev pub pure : {W A : Type 0} → A → B W A
pure a s = (ok a, s)

abbrev pub continue : {W A C : Type 0} → Outcome A → (A → B W C) → B W C
continue (ok a) f s = f a s
continue panic f s = (panic, s)
continue exit f s = (exit, s)

infixl 5 ◌>>=◌ ◌>>◌
abbrev pub ◌>>=◌ : {W A C : Type 0} → B W A → (A → B W C) → B W C
◌>>=◌ m f s = let (r, s') = m s in continue r f s'

abbrev pub ◌>>◌ : {W A C : Type 0} → B W A → B W C → B W C
m >> k = m >>= λ _. k

-- `os.Exit(1)`
abbrev pub exits : {W A : Type 0} → B W A
exits s = (exit, s)

abbrev pub deref : {W A : Type 0} → Option A → B W A
deref none s = (panic, s)
deref (some a) s = (ok a, s)

-- `utilruntime.Must(err)`
abbrev pub must : {W : Type 0} → Option Error → B W (Unit {0})
must none s = (ok tt, s)
must (some e) s = (panic, s)

abbrev pub called : {W A : Type 0} → SetupCall → (W → A × W) → B W A
called c f s = let (a, w) = f s.world in (ok a, record { calls = c ∷ s.calls; world = w })

abbrev pub called_or_exit : {W A : Type 0} → SetupCall → (W → Outcome A × W) → B W A
called_or_exit c f s = let (r, w) = f s.world in (r, record { calls = c ∷ s.calls; world = w })

-- A call that only the process itself sees.
abbrev pub local : {W A : Type 0} → (W → A × W) → B W A
local f s = let (a, w) = f s.world in (ok a, record { calls = s.calls; world = w })
