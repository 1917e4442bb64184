-- ===== src/Controllers/Completion/Whole.antt =====
-- How the reconciles of the ten controllers end.
use netconf_operator.Base.{◌≡◌, ◌⊎◌, inl, inr, true, false, not, Option, some_of_is_some, arith}
use netconf_operator.Base.GoMap.{lookup}
use netconf_operator.Api.Meta.{NamespacedName}
use netconf_operator.Api.Objects.{Kind, Object, EstablishSubscription, MountPoint, device_name}
use netconf_operator.Runtime.{Platform, State, Error}
use netconf_operator.Runtime.Finishes.{Finishes, Stops}
use netconf_operator.Controllers.OneRpc.{OneRpc, send}
use netconf_operator.Controllers.All
use netconf_operator.Controllers.MountPoint
use netconf_operator.Controllers.EstablishSubscription
use netconf_operator.Controllers.Completion.Answers.{
  Returning, HasRefused, HasFailedSend, HasFailedGreeting, HasBrokenStream,
}
use netconf_operator.Controllers.Completion.Body.{reconcile-Stops}
use netconf_operator.Controllers.Completion.Valid.{HasSession, valid-Finishes}
use netconf_operator.Controllers.Completion.Rpcs.{send-Stops, unlock-Stops}
use netconf_operator.Controllers.Completion.Edit.{edit_config-Stops}
use netconf_operator.Controllers.Completion.Subscriptions.{
  create_subscription-Stops, establish_subscription-Stops,
}
use netconf_operator.Controllers.Completion.Subscriptions
use netconf_operator.Controllers.Completion.Mount

module _ {W : Type 0} (P : Platform W) where
  -- The states in which the reconcile of a kind may panic.
  abbrev pub Crashes : Kind → State W → Type 0
  Crashes Kind.mount_point s = HasRefused P s ⊎ HasFailedGreeting P s
  Crashes Kind.create_subscription s = HasBrokenStream P s
  Crashes Kind.establish_subscription s = HasRefused P s
  Crashes Kind.lock s = HasFailedSend P s
  Crashes Kind.unlock s = HasFailedSend P s
  Crashes Kind.edit_config s = HasFailedSend P s
  Crashes Kind.commit s = HasFailedSend P s
  Crashes Kind.get s = HasFailedSend P s
  Crashes Kind.get_config s = HasFailedSend P s
  Crashes Kind.rpc s = HasFailedSend P s

  -- What a passed validation adds.
  abbrev Ready : (k : Kind) → Object k → State W → Type 0
  Ready Kind.mount_point o s = Unit
  Ready Kind.lock o s = HasSession P (Crashes Kind.lock) Kind.lock o s
  Ready Kind.unlock o s = HasSession P (Crashes Kind.unlock) Kind.unlock o s
  Ready Kind.edit_config o s = HasSession P (Crashes Kind.edit_config) Kind.edit_config o s
  Ready Kind.commit o s = HasSession P (Crashes Kind.commit) Kind.commit o s
  Ready Kind.get o s = HasSession P (Crashes Kind.get) Kind.get o s
  Ready Kind.get_config o s = HasSession P (Crashes Kind.get_config) Kind.get_config o s
  Ready Kind.rpc o s = HasSession P (Crashes Kind.rpc) Kind.rpc o s
  Ready Kind.create_subscription o s =
      HasSession P (Crashes Kind.create_subscription) Kind.create_subscription o s
  Ready Kind.establish_subscription o s =
      HasSession P (Crashes Kind.establish_subscription) Kind.establish_subscription o s

  subscription_same :
      (o : EstablishSubscription)
      → not (EstablishSubscription.is_initialized P Kind.establish_subscription o).0 ≡ false
      → (EstablishSubscription.is_initialized P Kind.establish_subscription o).1 ≡ o
  unfolding EstablishSubscription.is_initialized
  subscription_same o n = ground arith

  mount_point_same :
      (o : MountPoint)
      → not (MountPoint.is_initialized P Kind.mount_point o).0 ≡ false
      → (MountPoint.is_initialized P Kind.mount_point o).1 ≡ o
  unfolding MountPoint.is_initialized
  mount_point_same o n = ground arith

  logic-Stops :
      Returning P
      → (k : Kind) (o : Object k) (s : State W) → Ready k o s
      → not ((All.hooks P k).is_initialized o).0 ≡ false
      → Stops
          (Crashes k)
          ((All.hooks P k).manage_operator_logic ((All.hooks P k).is_initialized o).1 s)
  unfolding All.hooks send
  logic-Stops r Kind.mount_point o s f n =
      rw (mount_point_same o n)
        (Mount.logic-Stops P (Crashes Kind.mount_point) r (λ _ h. inl h) (λ _ h. inr h) o s)
  logic-Stops r Kind.lock o s f n =
      let (q, l) = some_of_is_some (lookup (P.text (device_name Kind.lock o)) s.sessions) f in
      send-Stops P r OneRpc.lock o q s l
  logic-Stops r Kind.unlock o s f n =
      let (q, l) = some_of_is_some (lookup (P.text (device_name Kind.unlock o)) s.sessions) f in
      unlock-Stops P r o q s l
  logic-Stops r Kind.edit_config o s f n =
      let (q, l) =
        some_of_is_some (lookup (P.text (device_name Kind.edit_config o)) s.sessions) f in
      edit_config-Stops P r q o s l
  logic-Stops r Kind.commit o s f n =
      let (q, l) = some_of_is_some (lookup (P.text (device_name Kind.commit o)) s.sessions) f in
      send-Stops P r OneRpc.commit o q s l
  logic-Stops r Kind.get o s f n =
      let (q, l) = some_of_is_some (lookup (P.text (device_name Kind.get o)) s.sessions) f in
      send-Stops P r OneRpc.get o q s l
  logic-Stops r Kind.get_config o s f n =
      let (q, l) = some_of_is_some (lookup (P.text (device_name Kind.get_config o)) s.sessions) f in
      send-Stops P r OneRpc.get_config o q s l
  logic-Stops r Kind.rpc o s f n =
      let (q, l) = some_of_is_some (lookup (P.text (device_name Kind.rpc o)) s.sessions) f in
      send-Stops P r OneRpc.rpc o q s l
  logic-Stops r Kind.create_subscription o s f n =
      let (q, l) =
        some_of_is_some (lookup (P.text (device_name Kind.create_subscription o)) s.sessions) f in
      create_subscription-Stops P r o q s l
  logic-Stops r Kind.establish_subscription o s f n =
      let (q, l) =
        some_of_is_some (lookup (P.text (device_name Kind.establish_subscription o)) s.sessions)
          f in
      rw (subscription_same o n)
        (establish_subscription-Stops P (HasRefused P) r (λ _ h. h) q o s l)

  finalize-Stops :
      Returning P
      → (k : Kind) (o : Object k) (s : State W) → Ready k o s
      → not ((All.hooks P k).is_initialized o).0 ≡ false
      → Stops (Crashes k) ((All.hooks P k).finalize ((All.hooks P k).is_initialized o).1 s)
  unfolding All.hooks
  finalize-Stops r Kind.mount_point o s f n =
      rw (mount_point_same o n)
        (Mount.finalize-Stops P (Crashes Kind.mount_point) r (λ _ h. inl h) (λ _ h. inr h) o s)
  finalize-Stops r Kind.lock o s f n = tt
  finalize-Stops r Kind.unlock o s f n = tt
  finalize-Stops r Kind.edit_config o s f n = tt
  finalize-Stops r Kind.commit o s f n = tt
  finalize-Stops r Kind.get o s f n = tt
  finalize-Stops r Kind.get_config o s f n = tt
  finalize-Stops r Kind.rpc o s f n = tt
  finalize-Stops r Kind.create_subscription o s f n = tt
  finalize-Stops r Kind.establish_subscription o s f n =
      let (q, l) =
        some_of_is_some (lookup (P.text (device_name Kind.establish_subscription o)) s.sessions)
          f in
      rw (subscription_same o n)
        (Subscriptions.finalize-Stops P (HasRefused P) r (λ _ h. h) q o s l)

  valid-Ready :
      Returning P
      → (k : Kind) (o : Object k) (s : State W)
      → Finishes (Crashes k) (λ x s'. x.0 ≡ true → Ready k o s') ((All.hooks P k).is_valid o s)
  unfolding All.hooks MountPoint.is_valid
  valid-Ready r Kind.mount_point o s = λ _. tt
  valid-Ready r Kind.lock o s = valid-Finishes P (Crashes Kind.lock) r.named Kind.lock o s (λ e. cc)
  valid-Ready r Kind.unlock o s =
      valid-Finishes P (Crashes Kind.unlock) r.named Kind.unlock o s (λ e. cc)
  valid-Ready r Kind.edit_config o s =
      valid-Finishes P (Crashes Kind.edit_config) r.named Kind.edit_config o s (λ e. cc)
  valid-Ready r Kind.commit o s =
      valid-Finishes P (Crashes Kind.commit) r.named Kind.commit o s (λ e. cc)
  valid-Ready r Kind.get o s = valid-Finishes P (Crashes Kind.get) r.named Kind.get o s (λ e. cc)
  valid-Ready r Kind.get_config o s =
      valid-Finishes P (Crashes Kind.get_config) r.named Kind.get_config o s (λ e. cc)
  valid-Ready r Kind.rpc o s = valid-Finishes P (Crashes Kind.rpc) r.named Kind.rpc o s (λ e. cc)
  valid-Ready r Kind.create_subscription o s =
      valid-Finishes P (Crashes Kind.create_subscription) r.named Kind.create_subscription o s
        (λ e. cc)
  valid-Ready r Kind.establish_subscription o s =
      valid-Finishes P (Crashes Kind.establish_subscription) r.named Kind.establish_subscription o s
        (λ e. cc)

  reject-Stops :
      (k : Kind) (o : Object k) (e : Option Error) (s : State W)
      → Stops (Crashes k) ((All.hooks P k).reject o e s)
  unfolding All.hooks
  reject-Stops Kind.mount_point o e s = tt
  reject-Stops Kind.lock o e s = tt
  reject-Stops Kind.unlock o e s = tt
  reject-Stops Kind.edit_config o e s = tt
  reject-Stops Kind.commit o e s = tt
  reject-Stops Kind.get o e s = tt
  reject-Stops Kind.get_config o e s = tt
  reject-Stops Kind.rpc o e s = tt
  reject-Stops Kind.create_subscription o e s = tt
  reject-Stops Kind.establish_subscription o e s = tt

  -- A reconcile of any controller, from every state, returns a result or panics, and never ends the
  -- process. It panics only right after one of these calls: for every kind but `CreateSubscription`,
  -- a message constructor that panicked; for the six kinds of one RPC and `EditConfig`, also a
  -- `SyncRPC` that returned an error and no reply; for `MountPoint`, also a greeting on a nil session
  -- or one that panicked; for `CreateSubscription`, only a call for its stream that panicked. It is
  -- given that the client returns the object it was asked for, that `SyncRPC` on a live session
  -- returns a reply or an error, and that the client library's other calls do not end the process.
  pub reconcile-Stops_or_Crashes :
      Returning P
      → (k : Kind) (req : NamespacedName) (s : State W)
      → Stops (Crashes k) (All.reconcile P k req s)
  reconcile-Stops_or_Crashes r k req s = rw (All.reconcile-eq-template P k req) (
      reconcile-Stops P k (All.hooks P k) (Crashes k) (Ready k) req s (record {
        valid = valid-Ready r k _ _;
        reject = reject-Stops k _;
        finalize = finalize-Stops r k _;
        logic = logic-Stops r k _;
      }))
