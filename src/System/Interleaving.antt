-- ===== src/System/Interleaving.antt =====
-- The controllers at the same time: each reconcile is cut into the read of its object, the validation
-- and the rest, and those of different reconciles, and the callbacks, come in any order (main.go,
-- controllers/*_controller.go). `Sessions` is shared without a lock.
pub mod Tasks
pub mod Calm
use netconf_operator.Base.{◌≡◌, String, List, [], ◌∷◌, Bool, Option, none, some}
use netconf_operator.Api.Meta.{NamespacedName}
use netconf_operator.Api.Objects.{Kind, Object}
use netconf_operator.Runtime.{Platform, State, Callback, Error, ok}
use netconf_operator.Runtime.Io
use netconf_operator.Controllers.Template
use netconf_operator.Controllers.All
use netconf_operator.Controllers.Notify

-- A reconcile under way: what its read has returned, or its object and what the validation said.
pub data Task : Type 0 where
  read : (k : Kind) → Option Error × Object k → Task
  judged : (k : Kind) → Object k → Bool × Option Error → Task

-- A task out of the list, and the others.
pub data Picks (t : Task) : List Task → List Task → Type 0 where
  here : (ts : List Task) → Picks t (t ∷ ts) ts
  there : (u : Task) {ts us : List Task} → Picks t ts us → Picks t (u ∷ ts) (u ∷ us)

-- The operator, and the reconciles under way.
abbrev pub Config : Type 0 → Type 0
Config W = State W × List Task

-- The rest of a reconcile is taken of the objects of which `A` holds.
module _ {W : Type 0} (P : Platform W) (A : (k : Kind) → Object k → Type 0) where
  pub data Step : Config W → Config W → Type 0 where
    begun :
        (k : Kind) (req : NamespacedName) (s : State W) (ts : List Task)
        → Step
            (s, ts)
            ((Io.client_get P k req s).1, Task.read k (P.client_get k req s.world).0 ∷ ts)
    unread :
        (k : Kind) (e : Error) (o : Object k) (s : State W) {ts us : List Task}
        → Picks (Task.read k (some e, o)) ts us
        → Step (s, ts) ((Template.fetched P k (All.hooks P k) (some e, o) s).1, us)
    validated :
        (k : Kind) (o : Object k) (x : Bool × Option Error) (s : State W) {ts us : List Task}
        → Picks (Task.read k (none, o)) ts us
        → ((All.hooks P k).is_valid o s).0 ≡ ok x
        → Step (s, ts) (((All.hooks P k).is_valid o s).1, Task.judged k o x ∷ us)
    finished :
        (k : Kind) (o : Object k) (x : Bool × Option Error) (s : State W) {ts us : List Task}
        → A k o
        → Picks (Task.judged k o x) ts us
        → Step (s, ts) ((Template.judged P k (All.hooks P k) o x s).1, us)
    notified :
        (c : Callback) (text : String) (s : State W) (ts : List Task)
        → Step (s, ts) ((Notify.notify P c text s).1, ts)
    changed : (w : W) (s : State W) (ts : List Task) → Step (s, ts) (record s { world = w }, ts)
    restarted : (s : State W) (ts : List Task) → Step (s, ts) (record s { sessions = [] }, [])

  pub data Steps : Config W → Config W → Type 0 where
    done : (c : Config W) → Steps c c
    more : {c d e : Config W} → Step c d → Steps d e → Steps c e
