-- ===== src/Controllers/Confinement/OneSession.antt =====
-- The sessions that a whole reconcile of the nine operations reaches.
use netconf_operator.Base.{
  ◌≡◌, ◌≢◌, refl, ap, Bool, sym, subst, true, false, not, Option, some, is_some, some_of_is_some,
  arith,
}
use netconf_operator.Base.GoMap.{lookup}
use netconf_operator.Api.Meta.{NamespacedName}
use netconf_operator.Api.Objects.{Kind, Object, EstablishSubscription, device_name}
use netconf_operator.Runtime.{
  Platform, State, Error, SessionPtr, Within, Within-refl, Within-sessions, FetchesByName,
  KeptByCluster, Within-KeptByCluster,
}
use netconf_operator.Controllers.Template.{judged}
use netconf_operator.Controllers.Template.Keeps.{Keeping, reconcile-keeps, judged-keeps}
use netconf_operator.Controllers.Confinement.Device.{Touches, cluster-Touches}
use netconf_operator.Controllers.Confinement.Validation.{valid-Within, reject-Within, passed}
use netconf_operator.Controllers.Confinement.Work.{send-Within, unlock-Within}
use netconf_operator.Controllers.Confinement.Edit.{edit_config-Within}
use netconf_operator.Controllers.Confinement.Subscriptions.{
  create_subscription-Within, establish_subscription-Within, finalize-Within,
}
use netconf_operator.Controllers.OneRpc.{OneRpc, send}
use netconf_operator.Controllers.All
use netconf_operator.Controllers.EstablishSubscription

module _ {W : Type 0} (P : Platform W) (s₀ : State W) where
  -- The session of an object, if there is one.
  abbrev session_of : (k : Kind) → Object k → Option SessionPtr
  session_of k o = lookup (P.text (device_name k o)) s₀.sessions

  abbrev I : Option SessionPtr → State W → Type 0
  I l = Within (Touches l) s₀

  abbrev Q : (k : Kind) → Object k → State W → Type 0
  Q k o s = is_some (session_of k o) ≡ true

  initialized_same :
      (o : EstablishSubscription)
      → not (EstablishSubscription.is_initialized P Kind.establish_subscription o).0 ≡ false
      → (EstablishSubscription.is_initialized P Kind.establish_subscription o).1 ≡ o
  unfolding EstablishSubscription.is_initialized
  initialized_same o n = ground arith

  -- The two parts that may reach the device, on a session that was found.
  logic_on :
      (k : Kind) (o : Object k) (q : SessionPtr) (s : State W)
      → k ≢ Kind.mount_point
      → not ((All.hooks P k).is_initialized o).0 ≡ false
      → session_of k o ≡ some q
      → I (some q) s
      → I (some q) ((All.hooks P k).manage_operator_logic ((All.hooks P k).is_initialized o).1 s).1
  unfolding All.hooks send
  logic_on Kind.mount_point o q s ne n f i = absurd (ne refl)
  logic_on Kind.lock o q s ne n f i = send-Within P q s₀ OneRpc.lock o s f i
  logic_on Kind.unlock o q s ne n f i = unlock-Within P q s₀ o s f i
  logic_on Kind.edit_config o q s ne n f i = edit_config-Within P q s₀ o s f i
  logic_on Kind.commit o q s ne n f i = send-Within P q s₀ OneRpc.commit o s f i
  logic_on Kind.get o q s ne n f i = send-Within P q s₀ OneRpc.get o s f i
  logic_on Kind.get_config o q s ne n f i = send-Within P q s₀ OneRpc.get_config o s f i
  logic_on Kind.rpc o q s ne n f i = send-Within P q s₀ OneRpc.rpc o s f i
  logic_on Kind.create_subscription o q s ne n f i = create_subscription-Within P q s₀ o s f i
  logic_on Kind.establish_subscription o q s ne n f i =
      rw (initialized_same o n) (establish_subscription-Within P q s₀ o s f i)

  finalize_on :
      (k : Kind) (o : Object k) (q : SessionPtr) (s : State W)
      → k ≢ Kind.mount_point
      → not ((All.hooks P k).is_initialized o).0 ≡ false
      → session_of k o ≡ some q
      → I (some q) s
      → I (some q) ((All.hooks P k).finalize ((All.hooks P k).is_initialized o).1 s).1
  unfolding All.hooks
  finalize_on Kind.mount_point o q s ne n f i = absurd (ne refl)
  finalize_on Kind.lock o q s ne n f i = i
  finalize_on Kind.unlock o q s ne n f i = i
  finalize_on Kind.edit_config o q s ne n f i = i
  finalize_on Kind.commit o q s ne n f i = i
  finalize_on Kind.get o q s ne n f i = i
  finalize_on Kind.get_config o q s ne n f i = i
  finalize_on Kind.rpc o q s ne n f i = i
  finalize_on Kind.create_subscription o q s ne n f i = i
  finalize_on Kind.establish_subscription o q s ne n f i =
      rw (initialized_same o n) (finalize-Within P q s₀ o s f i)

module _ {W : Type 0} (P : Platform W) (named : FetchesByName P) (s₀ : State W) where
  abbrev cluster : (k : Kind) (o : Object k) → KeptByCluster (I P s₀ (session_of P s₀ k o))
  cluster k o = Within-KeptByCluster (Touches l) s₀ (cluster-Touches l)
    where
      l : Option SessionPtr
      l = session_of P s₀ k o

  -- A part that works on the session that was found.
  on_found :
      (k : Kind) (o : Object k) (s s' : State W)
      → is_some (session_of P s₀ k o) ≡ true
      → ((q : SessionPtr) → session_of P s₀ k o ≡ some q → I P s₀ (some q) s → I P s₀ (some q) s')
      → I P s₀ (session_of P s₀ k o) s
      → I P s₀ (session_of P s₀ k o) s'
  on_found k o s s' there step i =
      let (q, f) = some_of_is_some (session_of P s₀ k o) there in
      subst (λ l. I P s₀ l s') (sym f) (step q f (subst (λ l. I P s₀ l s) f i))

  keeping :
      (k : Kind) (o : Object k) (s : State W)
      → k ≢ Kind.mount_point
      → Keeping P k (All.hooks P k) (I P s₀ (session_of P s₀ k o)) (Q P s₀ k) (cluster k o) o s
  keeping k o s ne = record {
    valid = λ i. valid-Within P (session_of P s₀ k o) s₀ k o s i;
    passed = λ e i h.
        rw (← Within-sessions (Touches (session_of P s₀ k o)) s₀ s i) (passed P named k o s e ne h);
    reject = λ e s i. reject-Within P (session_of P s₀ k o) s₀ k o e s i;
    finalize = λ s i there n d. on_found k o s _ there (λ q f. finalize_on P s₀ k o q s ne n f) i;
    logic = λ s i there n d. on_found k o s _ there (λ q f. logic_on P s₀ k o q s ne n f) i;
  }

-- A reconcile of any controller but `MountPoint`'s leaves `Sessions` alone, and all the calls it
-- makes that reach a device go to the one session that `Sessions` holds for the mount point that
-- the fetched object names, in the object's namespace: none goes to another device, none is made on
-- a nil session, and without such a session none is made at all.
pub reconcile-stays_on_session :
    {W : Type 0} (P : Platform W)
    → FetchesByName P
    → (k : Kind) (req : NamespacedName) (s : State W) → k ≢ Kind.mount_point
    → let o = (P.client_get k req s.world).0.1 in
      Within (Touches (lookup (P.text (device_name k o)) s.sessions)) s (All.reconcile P k req s).1
reconcile-stays_on_session P named k req s ne =
    let o = (P.client_get k req s.world).0.1 in
    rw (All.reconcile-eq-template P k req) (
      reconcile-keeps P k (All.hooks P k) (I P s (session_of P s k o)) (Q P s k)
        (cluster P named s k o) req s (keeping P named s k o _ ne)
        (Within-refl (Touches (session_of P s k o)) s))

-- The same of what follows the validation, from any state in which the session is still there.
pub judged-stays_on_session :
    {W : Type 0} (P : Platform W)
    → FetchesByName P
    → (k : Kind) (o : Object k) (x : Bool × Option Error) (s : State W) → k ≢ Kind.mount_point
    → (x.0 ≡ true → is_some (lookup (P.text (device_name k o)) s.sessions) ≡ true)
    → Within
        (Touches (lookup (P.text (device_name k o)) s.sessions))
        s
        (judged P k (All.hooks P k) o x s).1
judged-stays_on_session P named k o x s ne there =
    judged-keeps P k (All.hooks P k) (I P s (session_of P s k o)) (Q P s k) (cluster P named s k o)
      o s (keeping P named s k o s ne) x s (Within-refl (Touches (session_of P s k o)) s)
      (λ e same. there (ap (λ x. x.0) same))
