-- ===== src/System/Interleaving/Calm.antt =====
-- The interleaved system while no mount point is being taken down.
use netconf_operator.Base.{◌≡◌, sym, subst, ap, ◌∙◌, List, [], ◌∷◌, Bool, false, Option, none, some}
use netconf_operator.Base.GoMap.{lookup}
use netconf_operator.Api.Objects.{Kind, Object, MountPoint, device_name}
use netconf_operator.Runtime.{
  Platform, State, Error, ok, FetchesByName, All, Within-refl, Within-sessions, Within-All,
}
use netconf_operator.Runtime.{pure}
use netconf_operator.Runtime.Io
use netconf_operator.Runtime.Keeps.{if-keeps}
use netconf_operator.Controllers.Assign.{settled}
use netconf_operator.Controllers.Template
use netconf_operator.Controllers.All
use netconf_operator.Controllers.Confinement.Device.{Touches}
use netconf_operator.Controllers.Confinement.Validation.{valid-Within, passed}
use netconf_operator.Controllers.Confinement.OneSession.{judged-stays_on_session}
use netconf_operator.Controllers.MountPoint.Keeps.Finish.{living-keeps}
use netconf_operator.Controllers.Notify.Delivery.{HandsOn, notify-HandsOn}
use netconf_operator.System.Safety.{
  IsSafe, Touches-IsSafe, HandsOn-IsSafe, IsOnLive-IsSafe, dialed-IsSafe,
}
use netconf_operator.System.Interleaving.{Task, Step, Steps}
use netconf_operator.System.Interleaving.Tasks.{
  Finds, AllFind, AllFind-insert, picked-Finds, Finds-judged,
}

module _ {W : Type 0} (P : Platform W) where
  -- Not a mount point that is being deleted.
  abbrev pub IsCalm : (k : Kind) → Object k → Type 0
  IsCalm Kind.mount_point o = P.is_being_deleted o.meta ≡ false
  IsCalm k o = Unit

  -- The calls so far are safe, and the tasks find their sessions.
  abbrev Holds : List Task → State W → Type 0
  Holds ts s = All (IsSafe P) s.calls × AllFind P s.sessions ts

  unread-Holds :
      (k : Kind) (e : Error) (o : Object k) (s : State W) (us : List Task)
      → Holds us s
      → Holds us (Template.fetched P k (All.hooks P k) (some e, o) s).1
  unfolding Template.fetched
  unread-Holds k e o s us h =
      if-keeps (Holds us) (P.is_not_found e) (pure settled) (Io.manage_error P k o (some e)) s
        (λ _. h) (λ _. ((tt, h.0), h.1))

  validated-Holds :
      FetchesByName P
      → (k : Kind) (o : Object k) (x : Bool × Option Error) (s : State W) (us : List Task)
      → ((All.hooks P k).is_valid o s).0 ≡ ok x
      → Holds us s
      → Holds (Task.judged k o x ∷ us) ((All.hooks P k).is_valid o s).1
  validated-Holds named k o x s us same (safe, found) =
      let within = valid-Within P none s k o s (Within-refl (Touches none) s) in
      let table = Within-sessions (Touches none) s _ within in
      (
        Within-All (Touches none) (IsSafe P) (Touches-IsSafe P none) s _ within safe,
        subst (λ m. AllFind P m (Task.judged k o x ∷ us)) (sym table)
            (
              Finds-judged P k o x s.sessions
                  (λ ne valid. passed P named k o s x.1 ne (same ∙ ap (λ v. ok (v, x.1)) valid)),
              found,
            ),
      )

  mount_point-Holds :
      (o : MountPoint) (x : Bool × Option Error) (s : State W) (us : List Task)
      → P.is_being_deleted o.meta ≡ false
      → Holds us s
      → Holds us (Template.judged P Kind.mount_point (All.hooks P Kind.mount_point) o x s).1
  mount_point-Holds o x s us living h =
      living-keeps P (IsSafe P) (Holds us) o
        (record {
          live = IsOnLive-IsSafe P;
          hello = dialed-IsSafe P o;
          called = λ c w s d (safe, found). ((d, safe), found);
          inserted = λ q s _ (safe, found). (safe, AllFind-insert P _ q s.sessions us found);
        })
        x s living h

  finished-Holds :
      FetchesByName P
      → (k : Kind) (o : Object k) (x : Bool × Option Error) (s : State W) (us : List Task)
      → IsCalm k o
      → Finds P s.sessions (Task.judged k o x)
      → Holds us s
      → Holds us (Template.judged P k (All.hooks P k) o x s).1
  finished-Holds named Kind.mount_point o x s us calm finds h = mount_point-Holds o x s us calm h
  finished-Holds named k o x s us calm finds (safe, found) =
      let l = lookup (P.text (device_name k o)) s.sessions in
      let within = judged-stays_on_session P named k o x s (λ e. cc) finds in
      (
        Within-All (Touches l) (IsSafe P) (Touches-IsSafe P l) s _ within safe,
        subst (λ m. AllFind P m us) (sym (Within-sessions (Touches l) s _ within)) found,
      )

  Step-Holds :
      FetchesByName P
      → (s s' : State W) (ts ts' : List Task) → Step P IsCalm (s, ts) (s', ts')
      → Holds ts s
      → Holds ts' s'
  Step-Holds named s _ ts _ (Step.begun k req _ _) (safe, found) = ((tt, safe), (tt, found))
  Step-Holds named s _ ts us (Step.unread k e o _ picks) (safe, found) =
      unread-Holds k e o s us (safe, (picked-Finds P s.sessions _ ts us picks found).1)
  Step-Holds named s _ ts _ (Step.validated k o x _ {us = us} picks same) (safe, found) =
      validated-Holds named k o x s us same
        (safe, (picked-Finds P s.sessions _ ts us picks found).1)
  Step-Holds named s _ ts us (Step.finished k o x _ calm picks) (safe, found) =
      let (finds, others) = picked-Finds P s.sessions _ ts us picks found in
      finished-Holds named k o x s us calm finds (safe, others)
  Step-Holds named s _ ts _ (Step.notified c text _ _) (safe, found) =
      let within = notify-HandsOn P c text s in
      (
        Within-All (HandsOn c text) (IsSafe P) (HandsOn-IsSafe P c text) s _ within safe,
        subst (λ m. AllFind P m ts) (sym (Within-sessions (HandsOn c text) s _ within)) found,
      )
  Step-Holds named s _ ts _ (Step.changed w _ _) h = h
  Step-Holds named s _ ts _ (Step.restarted _ _) (safe, found) = (safe, tt)

  Steps-Holds :
      FetchesByName P
      → (s s' : State W) (ts ts' : List Task) → Steps P IsCalm (s, ts) (s', ts')
      → Holds ts s
      → Holds ts' s'
  Steps-Holds named s _ ts _ (Steps.done _) h = h
  Steps-Holds named s s' ts ts' (Steps.more {d = d} step steps) h =
      Steps-Holds named d.0 s' d.1 ts' steps (Step-Holds named s d.0 ts d.1 step h)

  -- From a start without sessions, reconciles of any controllers that come between one another's
  -- reads, validations and work send no RPC and ask for no stream on a nil session, as long as no
  -- mount point that is being deleted is worked on: an operation that has passed its validation
  -- still finds its session then. A greeting goes to a nil session only if the client library has a
  -- dial that returns neither a session nor an error. It is given that the client returns the object
  -- it was asked for.
  pub Steps-IsSafe :
      FetchesByName P
      → (w : W) (s : State W) (ts : List Task)
      → Steps P IsCalm (record { sessions = []; calls = []; world = w }, []) (s, ts)
      → All (IsSafe P) s.calls
  Steps-IsSafe named w s ts steps =
      (Steps-Holds named (record { sessions = []; calls = []; world = w }) s [] ts steps (tt, tt)).0
