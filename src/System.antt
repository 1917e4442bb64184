-- ===== src/System.antt =====
-- The operator as a system: the runs of its controllers and callbacks one after the other, in any
-- order and for any requests, while the world outside changes as it likes (main.go).
pub mod Safety
pub mod Provenance
pub mod Interleaving
use netconf_operator.Base.{String, []}
use netconf_operator.Api.Meta.{NamespacedName}
use netconf_operator.Api.Objects.{Kind}
use netconf_operator.Runtime.{Platform, State, Callback}
use netconf_operator.Controllers.All
use netconf_operator.Controllers.Notify

module _ {W : Type 0} (P : Platform W) where
  pub data Step : State W → State W → Type 0 where
    -- A reconcile of an object, however it ends.
    reconciled :
        (k : Kind) (req : NamespacedName) (s : State W) → Step s (All.reconcile P k req s).1
    -- The client library runs a callback.
    notified : (c : Callback) (text : String) (s : State W) → Step s (Notify.notify P c text s).1
    -- Something outside the operator happens.
    changed : (w : W) (s : State W) → Step s (record s { world = w })
    -- The process ends, and another one starts.
    restarted : (s : State W) → Step s (record s { sessions = [] })

  pub data IsReachable : State W → Type 0 where
    started : (w : W) → IsReachable (record { sessions = []; calls = []; world = w })
    stepped : {s s' : State W} → IsReachable s → Step s s' → IsReachable s'
