-- ===== src/Controllers/Sequence/Order.antt =====
-- The order in which `EditConfig` sends its RPCs (controllers/editconfig_controller.go).
use netconf_operator.Base.{
  ◌≡◌, refl, ap, Bool, true, false, Option, none, some, List, [], ◌∷◌, ◌++◌, if◌then◌else◌,
}
use netconf_operator.Base.GoMap.{lookup}
use netconf_operator.Api.Objects.{Kind, EditConfig, device_name}
use netconf_operator.Runtime.{
  Platform, State, M, Outcome, ok, panic, exit, Error, Message, Reply, SessionPtr, Call, ◌>>=◌,
  continue,
}
use netconf_operator.Controllers.EditConfig

-- The messages that `SyncRPC` was called with, the latest first.
abbrev pub sent : List Call → List Message
sent [] = []
sent (Call.sync_rpc p m t ∷ cs) = m ∷ sent cs
sent (c ∷ cs) = sent cs

-- The messages of a list one after the other, on top of what was sent before.
abbrev pub log : List Message → List Message → List Message
log [] before = before
log (m ∷ ms) before = log ms (m ∷ before)

abbrev optional : Bool → Message → List Message → List Message
optional b m ms = if b then m ∷ ms else ms

-- What the object asks for, in the order in which it has to happen.
abbrev pub plan : EditConfig → List Message
plan o = optional o.spec.lock (Message.new_lock o.spec.target) (
    Message.new_edit_config o.spec.target o.spec.operation o.spec.xml
    ∷ optional o.spec.commit Message.new_commit
        (optional o.spec.unlock (Message.new_unlock o.spec.target) []))

-- What is left to send: nothing, if the run has returned no error.
abbrev pub IsLeft : List Message → Outcome (Option Error × EditConfig) → Type 0
IsLeft rest (ok (none, o)) = rest ≡ []
IsLeft rest (ok (some e, o)) = Unit
IsLeft rest panic = Unit
IsLeft rest exit = Unit

-- A run that began at `s` has sent the first messages of a plan, and if it has returned no error,
-- all of them.
abbrev pub Follows :
    {W : Type 0} → List Message → State W → Outcome (Option Error × EditConfig) × State W → Type 0
Follows ms s (r, s') =
    (done : List Message) × (rest : List Message) × (ms ≡ done ++ rest)
    × (sent s'.calls ≡ log done (sent s.calls))
    × IsLeft rest r

module _ {W : Type 0} (P : Platform W) (o : EditConfig) (q : Option SessionPtr) where
  finish-Follows :
      (reply : Option Reply) (s : State W) → Follows [] s (EditConfig.finish P o reply s)
  unfolding EditConfig.finish
  finish-Follows none s = ([], [], refl, refl, tt)
  finish-Follows (some r) s = ([], [], refl, refl, refl)

  replied-Follows :
      (m : Message) (ms : List Message) (rest : Option Reply → M W (Option Error × EditConfig))
      (x : Option Reply × Option Error) (s s' : State W)
      → sent s'.calls ≡ m ∷ sent s.calls
      → ((reply : Option Reply) (s : State W) → Follows ms s (rest reply s))
      → Follows (m ∷ ms) s (EditConfig.replied P o rest x s')
  unfolding EditConfig.replied
  replied-Follows m ms rest (none, e) s s' same h = (m ∷ [], ms, refl, same, tt)
  replied-Follows m ms rest (some r, e) s s' same h =
      let (done, left, split, more, all) = h (some r) s' in
      (m ∷ done, left, ap (λ l. m ∷ l) split, rw (← same) more, all)

  exchange-Follows :
      (m : Message) (ms : List Message) (rest : Option Reply → M W (Option Error × EditConfig))
      (s : State W)
      → ((reply : Option Reply) (s : State W) → Follows ms s (rest reply s))
      → Follows (m ∷ ms) s (EditConfig.exchange P o q m rest s)
  unfolding EditConfig.exchange
  exchange-Follows m ms rest s h = go (P.new_message m s.world)
    where
      after : Outcome (Unit {0}) × W → State W
      after x = record s { calls = Call.new_message m ∷ s.calls; world = x.1 }

      last :
          (y : Outcome (Option Reply × Option Error) × W)
          → Follows (m ∷ ms) s (
              continue y.0 (EditConfig.replied P o rest) (record s {
                calls = Call.sync_rpc q m o.spec.timeout ∷ Call.new_message m ∷ s.calls;
                world = y.1;
              }))
      last (ok x, w) = replied-Follows m ms rest x s _ refl h
      last (panic, w) = (m ∷ [], ms, refl, refl, tt)
      last (exit, w) = (m ∷ [], ms, refl, refl, tt)

      go :
          (x : Outcome (Unit {0}) × W)
          → Follows (m ∷ ms) s (
              (continue x.0 (λ _ s'. (
                (P.sync_rpc q m o.spec.timeout s'.world).0,
                record s' {
                  calls = Call.sync_rpc q m o.spec.timeout ∷ s'.calls;
                  world = (P.sync_rpc q m o.spec.timeout s'.world).1;
                },
              ))
                  >>= EditConfig.replied P o rest)
                (after x))
      go (ok x, w) = last (P.sync_rpc q m o.spec.timeout w)
      go (panic, w) = ([], m ∷ ms, refl, refl, tt)
      go (exit, w) = ([], m ∷ ms, refl, refl, tt)

  optional-Follows :
      (b : Bool) (m : Message) (ms : List Message) (x y : M W (Option Error × EditConfig))
      (s : State W)
      → Follows (m ∷ ms) s (x s)
      → Follows ms s (y s)
      → Follows (optional b m ms) s ((if b then x else y) s)
  optional-Follows true m ms x y s h k = h
  optional-Follows false m ms x y s h k = k

  abbrev after_commit : List Message
  after_commit = optional o.spec.unlock (Message.new_unlock o.spec.target) []

  abbrev after_edit : List Message
  after_edit = optional o.spec.commit Message.new_commit after_commit

  abbrev after_lock : List Message
  after_lock = Message.new_edit_config o.spec.target o.spec.operation o.spec.xml ∷ after_edit

  from_unlock-Follows :
      (reply : Option Reply) (s : State W)
      → Follows after_commit s (EditConfig.from_unlock P o q reply s)
  unfolding EditConfig.from_unlock
  from_unlock-Follows reply s =
      let finish = EditConfig.finish P o reply in
      let m = Message.new_unlock o.spec.target in
      optional-Follows o.spec.unlock m [] (EditConfig.exchange P o q m (λ _. finish)) finish s
        (exchange-Follows m [] (λ _. finish) s (λ _. finish-Follows reply)) (finish-Follows reply s)

  from_commit-Follows :
      (reply : Option Reply) (s : State W)
      → Follows after_edit s (EditConfig.from_commit P o q reply s)
  unfolding EditConfig.from_commit
  from_commit-Follows reply s =
      let next = EditConfig.from_unlock P o q reply in
      let m = Message.new_commit in
      optional-Follows o.spec.commit m after_commit (EditConfig.exchange P o q m (λ _. next)) next s
        (exchange-Follows m after_commit (λ _. next) s (λ _. from_unlock-Follows reply))
        (from_unlock-Follows reply s)

  from_edit-Follows : (s : State W) → Follows after_lock s (EditConfig.from_edit P o q s)
  unfolding EditConfig.from_edit
  from_edit-Follows s =
      exchange-Follows (Message.new_edit_config o.spec.target o.spec.operation o.spec.xml)
        after_edit (EditConfig.from_commit P o q) s from_commit-Follows

  from_session-Follows :
      (s : State W)
      → Follows (plan o) s (
          (if o.spec.lock
              then EditConfig.exchange P o q
                  (Message.new_lock o.spec.target)
                  (λ _. EditConfig.from_edit P o q)
              else EditConfig.from_edit P o q)
            s)
  from_session-Follows s =
      let next = EditConfig.from_edit P o q in
      let m = Message.new_lock o.spec.target in
      optional-Follows o.spec.lock m after_lock (EditConfig.exchange P o q m (λ _. next)) next s
        (exchange-Follows m after_lock (λ _. next) s (λ _. from_edit-Follows)) (from_edit-Follows s)

-- From the check of the dependency on, `EditConfig` calls `SyncRPC` with the messages of its plan,
-- which are lock, edit-config, commit and unlock, the three others than edit-config only if the
-- spec asks for them, in this order; it may stop after any of them, but if it returns no error it
-- has sent all.
pub from_lock-Follows-plan :
    {W : Type 0} (P : Platform W) (o : EditConfig) (s : State W)
    → Follows (plan o) s (EditConfig.from_lock P o s)
unfolding EditConfig.from_lock
from_lock-Follows-plan P o s =
    from_session-Follows P o (lookup (P.text (device_name Kind.edit_config o)) s.sessions) s
