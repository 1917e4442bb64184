-- ===== src/System/Safety.antt =====
-- No call on a nil session, in the system whose runs come one after the other.
use netconf_operator.Base.{
  ◌≡◌, ◌≢◌, refl, String, List, Option, none, some, is_some, true, ap, sym, subst, ◌⊎◌, inl, inr,
}
use netconf_operator.Base.GoMap.{lookup}
use netconf_operator.Api.Meta.{NamespacedName}
use netconf_operator.Api.Objects.{Kind, MountPoint, device_name}
use netconf_operator.Runtime.{
  Platform, State, ok, Call, Callback, SessionPtr, FetchesByName, All, Within-All,
}
use netconf_operator.Controllers.Confinement.Device.{Touches}
use netconf_operator.Controllers.Confinement.OneSession.{reconcile-stays_on_session}
use netconf_operator.Controllers.MountPoint.Keeps.{IsOnLive}
use netconf_operator.Controllers.MountPoint.Keeps.Finish.{mount_point-keeps}
use netconf_operator.Controllers.MountPoint
use netconf_operator.Controllers.Notify.Delivery.{HandsOn, notify-HandsOn}
use netconf_operator.Controllers.All
use netconf_operator.System.{Step, IsReachable}

-- A dial of some mount point that returns neither a session nor an error.
abbrev pub DialsNothing : {W : Type 0} → Platform W → Type 0
DialsNothing {W} P =
    (o : MountPoint) × (s : State W) × ((MountPoint.dial P o s).0 ≡ ok (none, none))

-- The call is not made on a nil session, unless it greets what a dial returned without an error.
abbrev pub IsSafe : {W : Type 0} → Platform W → Call → Type 0
IsSafe P (Call.sync_rpc p m t) = is_some p ≡ true
IsSafe P (Call.send_hello p capabilities) = (is_some p ≡ true) ⊎ DialsNothing P
IsSafe P (Call.create_notification_stream p t stop start stream f) = is_some p ≡ true
IsSafe P c = Unit

is_some-of_eq : {A : Type 0} (p : Option A) (a : A) → p ≡ some a → is_some p ≡ true
is_some-of_eq p a h = ap is_some h

pub Touches-IsSafe :
    {W : Type 0} (P : Platform W) (l : Option SessionPtr) (c : Call) → Touches l c → IsSafe P c
Touches-IsSafe P l (Call.sync_rpc p m t) (q, _, h) = is_some-of_eq p q h
Touches-IsSafe P l (Call.create_notification_stream p t stop start stream f) (q, _, h) =
    is_some-of_eq p q h
Touches-IsSafe P l (Call.send_hello p capabilities) h = absurd h
Touches-IsSafe P l c h = tt

pub HandsOn-IsSafe :
    {W : Type 0} (P : Platform W) (f : Callback) (text : String) (c : Call)
    → HandsOn f text c
    → IsSafe P c
HandsOn-IsSafe P f text (Call.sync_rpc p m t) h = absurd h
HandsOn-IsSafe P f text (Call.create_notification_stream p t stop start stream g) h = absurd h
HandsOn-IsSafe P f text (Call.send_hello p capabilities) h = absurd h
HandsOn-IsSafe P f text c h = tt

pub IsOnLive-IsSafe : {W : Type 0} (P : Platform W) (c : Call) → IsOnLive c → IsSafe P c
IsOnLive-IsSafe P (Call.sync_rpc p m t) h = h
IsOnLive-IsSafe P (Call.create_notification_stream p t stop start stream g) h = absurd h
IsOnLive-IsSafe P (Call.send_hello p capabilities) h = absurd h
IsOnLive-IsSafe P c h = tt

pub is_mount_point : (k : Kind) → (k ≡ Kind.mount_point) ⊎ (k ≢ Kind.mount_point)
is_mount_point Kind.mount_point = inl refl
is_mount_point Kind.lock = inr (λ e. cc)
is_mount_point Kind.unlock = inr (λ e. cc)
is_mount_point Kind.edit_config = inr (λ e. cc)
is_mount_point Kind.commit = inr (λ e. cc)
is_mount_point Kind.get = inr (λ e. cc)
is_mount_point Kind.get_config = inr (λ e. cc)
is_mount_point Kind.rpc = inr (λ e. cc)
is_mount_point Kind.create_subscription = inr (λ e. cc)
is_mount_point Kind.establish_subscription = inr (λ e. cc)

module _ {W : Type 0} (P : Platform W) where
  pub dialed-IsSafe :
      (o : MountPoint) (s : State W) (p : Option SessionPtr) (capabilities : List String)
      → (MountPoint.dial P o s).0 ≡ ok (p, none)
      → IsSafe P (Call.send_hello p capabilities)
  dialed-IsSafe o s none capabilities h = inr (o, s, h)
  dialed-IsSafe o s (some q) capabilities h = inl refl

  mount_point-IsSafe :
      (req : NamespacedName) (s : State W)
      → All (IsSafe P) s.calls
      → All (IsSafe P) (All.reconcile P Kind.mount_point req s).1.calls
  mount_point-IsSafe req s h =
      mount_point-keeps P (IsSafe P) (λ s. All (IsSafe P) s.calls) req s
        (record {
          opener = record {
            live = IsOnLive-IsSafe P;
            hello = dialed-IsSafe (P.client_get Kind.mount_point req s.world).0.1;
            called = λ c w s d i. (d, i);
            inserted = λ q s _ i. i;
          };
          erased = λ s i. i;
        })
        h

  reconcile-IsSafe :
      FetchesByName P
      → (k : Kind) (req : NamespacedName) (s : State W) → All (IsSafe P) s.calls
      → All (IsSafe P) (All.reconcile P k req s).1.calls
  reconcile-IsSafe named k req s h = elim (is_mount_point k) [
    | inl same ↦
        subst (λ k. All (IsSafe P) (All.reconcile P k req s).1.calls) (sym same)
          (mount_point-IsSafe req s h)
    | inr other ↦
        let l = lookup (P.text (device_name k (P.client_get k req s.world).0.1)) s.sessions in
        Within-All (Touches l) (IsSafe P) (Touches-IsSafe P l) s _
          (reconcile-stays_on_session P named k req s other) h
  ]

  Step-IsSafe :
      FetchesByName P
      → (s s' : State W) → Step P s s'
      → All (IsSafe P) s.calls
      → All (IsSafe P) s'.calls
  Step-IsSafe named s _ (Step.reconciled k req _) h = reconcile-IsSafe named k req s h
  Step-IsSafe named s _ (Step.notified c text _) h =
      Within-All (HandsOn c text) (IsSafe P) (HandsOn-IsSafe P c text) s _
        (notify-HandsOn P c text s) h
  Step-IsSafe named s _ (Step.changed w _) h = h
  Step-IsSafe named s _ (Step.restarted _) h = h

  -- In every state that the operator reaches by its reconciles and callbacks one after the other, no
  -- RPC has been sent and no notification stream asked for on a nil session, and a greeting has been
  -- sent on a nil session only if the client library has a dial that returns neither a session nor
  -- an error. It is given that the client returns the object it was asked for.
  pub IsReachable-IsSafe :
      FetchesByName P → (s : State W) → IsReachable P s → All (IsSafe P) s.calls
  IsReachable-IsSafe named _ (IsReachable.started w) = tt
  IsReachable-IsSafe named s (IsReachable.stepped {s = s₀} reached step) =
      Step-IsSafe named s₀ s step (IsReachable-IsSafe named s₀ reached)
