-- ===== src/Tests/Races.antt =====
-- Reconciles that come between one another, and the race of an operation with a deletion.
use mathlib.Core.Bool.{false≢true}
use netconf_operator.Base.{◌≡◌, refl, [], ◌∷◌, none, true, pos}
use netconf_operator.Base.GoMap.{lookup}
use netconf_operator.Api.Objects.{Kind, Object, Lock, MountPoint}
use netconf_operator.Runtime.{Platform, State, Call, All, ok}
use netconf_operator.Runtime.Io
use netconf_operator.Controllers.OneRpc.{OneRpc, send, message_of}
use netconf_operator.Controllers.OneRpc.Unguarded.{send-calls_nil}
use netconf_operator.Controllers.Lock
use netconf_operator.Controllers.MountPoint
use netconf_operator.Controllers.All
use netconf_operator.Controllers.Template
use netconf_operator.System.Safety.{IsSafe}
use netconf_operator.System.Interleaving.{Picks, Step, Steps}
use netconf_operator.System.Interleaving.Calm.{IsCalm, Steps-IsSafe}
use netconf_operator.Tests.Fixture.{Lab, lab, lab-FetchesByName, named, empty_in, object}

send-calls_nil_example :
    (send lab OneRpc.get (object Kind.get (named "g") Lab.agrees) (empty_in Lab.agrees)).1.calls
    ≡ Call.sync_rpc none (message_of OneRpc.get (object Kind.get (named "g") Lab.agrees)) (pos 1)
      ∷ Call.new_message (message_of OneRpc.get (object Kind.get (named "g") Lab.agrees))
      ∷ []
unfolding lookup
send-calls_nil_example =
    send-calls_nil lab OneRpc.get (object Kind.get (named "g") Lab.agrees) (empty_in Lab.agrees)
      refl refl

-- The lock of a mount point that is being deleted.
abbrev gone : MountPoint
gone = object Kind.mount_point (named "gone") Lab.agrees

abbrev lock_of_gone : Lock
lock_of_gone =
    let o = object Kind.lock (named "lock1") Lab.agrees in
    record o { spec = record { mount_point = "gone"; timeout = pos 1; target = "running" } }

abbrev got : (k : Kind) → Object k
got Kind.mount_point = gone
got Kind.lock = lock_of_gone
got k = object k (named "x") Lab.agrees

abbrev leaving : Platform Lab
leaving = record lab { client_get = λ k n w. ((none, got k), w) }

abbrev Anything : (k : Kind) → Object k → Type 0
Anything k o = Unit

-- The mount point is connected.
abbrev s₀ : State Lab
s₀ = record { sessions = ("lab/gone", 5) ∷ []; calls = []; world = Lab.agrees }

-- Both objects have been read.
abbrev s₁ : State Lab
s₁ =
    (Io.client_get leaving Kind.mount_point (named "gone")
      (Io.client_get leaving Kind.lock (named "lock1") s₀).1).1

-- The lock has been validated, and then the mount point.
abbrev s₂ : State Lab
s₂ = ((All.hooks leaving Kind.lock).is_valid lock_of_gone s₁).1

-- The mount point has been taken down, and then the lock is worked on.
abbrev s₃ : State Lab
s₃ =
    (Template.judged leaving Kind.mount_point (All.hooks leaving Kind.mount_point) gone (true, none)
      s₂).1

abbrev s₄ : State Lab
s₄ =
    (Template.judged leaving Kind.lock (All.hooks leaving Kind.lock) lock_of_gone (true, none) s₃).1

valid : ((All.hooks leaving Kind.lock).is_valid lock_of_gone s₁).0 ≡ ok (true, none)
unfolding All.hooks Lock.is_valid lookup
valid = refl

race : Steps leaving Anything (s₀, []) (s₄, [])
unfolding All.hooks MountPoint.is_valid
race = Steps.more (Step.begun Kind.lock (named "lock1") s₀ []) (
    Steps.more (Step.begun Kind.mount_point (named "gone") _ _) (
      Steps.more
        (Step.validated Kind.lock lock_of_gone (true, none) s₁ (Picks.there _ (Picks.here []))
          valid)
        (Steps.more
          (Step.validated Kind.mount_point gone (true, none) s₂ (Picks.there _ (Picks.here []))
            refl)
          (Steps.more (Step.finished Kind.mount_point gone (true, none) s₂ tt (Picks.here _)) (
            Steps.more (Step.finished Kind.lock lock_of_gone (true, none) s₃ tt (Picks.here []))
              (Steps.done _))))))

-- The RPC of the lock is called on a nil session.
called_on_nil : All (IsSafe leaving) s₄.calls → ⊥
unfolding All.hooks MountPoint.finalize Lock.manage_operator_logic Template.judged
    Lock.is_initialized MountPoint.is_initialized Lock.is_valid
called_on_nil h = false≢true h.1.0

-- A mount point that connects while a lock of it has been read already.
abbrev router : MountPoint
router = object Kind.mount_point (named "router") Lab.agrees

abbrev router_lock : Lock
router_lock = object Kind.lock (named "lock1") Lab.agrees

abbrev t₁ : State Lab
t₁ =
    (Io.client_get lab Kind.mount_point (named "router")
      (Io.client_get lab Kind.lock (named "lock1") (empty_in Lab.agrees)).1).1

abbrev t₂ : State Lab
t₂ =
    (Template.judged lab Kind.mount_point (All.hooks lab Kind.mount_point) router (true, none) t₁).1

abbrev t₃ : State Lab
t₃ = ((All.hooks lab Kind.lock).is_valid router_lock t₂).1

abbrev t₄ : State Lab
t₄ = (Template.judged lab Kind.lock (All.hooks lab Kind.lock) router_lock (true, none) t₃).1

lock_valid : ((All.hooks lab Kind.lock).is_valid router_lock t₂).0 ≡ ok (true, none)
unfolding All.hooks Lock.is_valid lookup MountPoint.manage_operator_logic Template.judged
    MountPoint.is_initialized
lock_valid = refl

connecting_run : Steps lab (IsCalm lab) (empty_in Lab.agrees, []) (t₄, [])
unfolding All.hooks MountPoint.is_valid
connecting_run = Steps.more (Step.begun Kind.lock (named "lock1") (empty_in Lab.agrees) []) (
    Steps.more (Step.begun Kind.mount_point (named "router") _ _) (
      Steps.more (Step.validated Kind.mount_point router (true, none) t₁ (Picks.here _) refl) (
        Steps.more (Step.finished Kind.mount_point router (true, none) t₁ refl (Picks.here _)) (
          Steps.more
            (Step.validated Kind.lock router_lock (true, none) t₂ (Picks.here []) lock_valid)
            (Steps.more (Step.finished Kind.lock router_lock (true, none) t₃ tt (Picks.here []))
              (Steps.done _))))))

Steps-IsSafe_example : All (IsSafe lab) t₄.calls
Steps-IsSafe_example = Steps-IsSafe lab lab-FetchesByName Lab.agrees t₄ [] connecting_run
