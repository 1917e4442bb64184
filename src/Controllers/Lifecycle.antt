-- ===== src/Controllers/Lifecycle.antt =====
-- The life of an object with a finalizer, a `MountPoint` or an `EstablishSubscription`: before the
-- finalizer is stored, and when it is removed.
use netconf_operator.Base.{◌≡◌, String, false, not, none, some, Option, arith, List, ◌∷◌, ◌⊎◌}
use netconf_operator.Api.Meta.{NamespacedName}
use netconf_operator.Api.Objects.{Kind, Object, any}
use netconf_operator.Runtime.{
  Platform, State, M, Outcome, ok, panic, exit, pure, Error, Call, Within, Within-refl,
  Within-KeptByCluster,
}
use netconf_operator.Controllers.Common.{mountpoint_finalizer, establish_subscription_finalizer}
use netconf_operator.Controllers.Assign.{set_meta}
use netconf_operator.Controllers.Template.Keeps.{Keeping, reconcile-keeps}
use netconf_operator.Controllers.Confinement.Device.{Touches, cluster-Touches}
use netconf_operator.Controllers.Confinement.Validation.{valid-Within, reject-Within}
use netconf_operator.Controllers.Confinement.Deleted.{HasFinalizer}
use netconf_operator.Controllers.MountPoint
use netconf_operator.Controllers.EstablishSubscription
use netconf_operator.Controllers.All

abbrev pub finalizer_of : Kind → String
finalizer_of Kind.mount_point = mountpoint_finalizer
finalizer_of Kind.establish_subscription = establish_subscription_finalizer
finalizer_of k = ""

module _ {W : Type 0} (P : Platform W) where
  abbrev pub clean_up : (k : Kind) → Object k → M W (Option Error)
  clean_up Kind.mount_point = MountPoint.manage_clean_up_logic P
  clean_up Kind.establish_subscription = EstablishSubscription.manage_clean_up_logic P
  clean_up k = λ _. pure none

  not_initialized :
      (k : Kind) (o : Object k)
      → HasFinalizer k
      → P.has_finalizer o.meta (finalizer_of k) ≡ false
      → not ((All.hooks P k).is_initialized o).0 ≡ false
      → ⊥
  unfolding All.hooks MountPoint.is_initialized EstablishSubscription.is_initialized
  not_initialized Kind.mount_point o f h n = ground arith
  not_initialized Kind.establish_subscription o f h n = ground arith
  not_initialized k o f h n = absurd f

  module _ (s₀ : State W) where
    abbrev I : State W → Type 0
    I = Within (Touches none) s₀

    keeping :
        (k : Kind) (o : Object k) (s : State W)
        → HasFinalizer k
        → P.has_finalizer o.meta (finalizer_of k) ≡ false
        → Keeping P k
            (All.hooks P k)
            I
            (λ _ _. Unit)
            (Within-KeptByCluster (Touches none) s₀ (cluster-Touches none))
            o
            s
    keeping k o s f h = record {
      valid = λ i. valid-Within P none s₀ k o s i;
      passed = λ e i h. tt;
      reject = λ e s i. reject-Within P none s₀ k o e s i;
      finalize = λ s i there n d. absurd (not_initialized k o f h n);
      logic = λ s i there n d. absurd (not_initialized k o f h n);
    }

  -- The reconcile of a `MountPoint` or an `EstablishSubscription` that does not carry its
  -- controller's finalizer reaches no device and leaves `Sessions` alone: nothing is opened before
  -- its end is provided for.
  pub reconcile-enrols_first :
      (k : Kind) (req : NamespacedName) (s : State W)
      → HasFinalizer k
      → P.has_finalizer (P.client_get k req s.world).0.1.meta (finalizer_of k) ≡ false
      → Within (Touches none) s (All.reconcile P k req s).1
  reconcile-enrols_first k req s f h = rw (All.reconcile-eq-template P k req) (
      reconcile-keeps P k (All.hooks P k) (I s) (λ _ _. Unit)
        (Within-KeptByCluster (Touches none) s (cluster-Touches none)) req s
        (keeping s k (P.client_get k req s.world).0.1 _ f h) (Within-refl (Touches none) s))

  -- What the finalization adds to the calls of a clean-up that ended in `r`.
  abbrev pub Releases :
      (k : Kind) → Object k → Outcome (Option Error) → List Call → List Call → Type 0
  Releases k o (ok (some e)) cleaned calls = calls ≡ Call.manage_error (any k o) (some e) ∷ cleaned
  Releases k o (ok none) cleaned calls =
      let o' = set_meta o (P.remove_finalizer o.meta (finalizer_of k)) in
      let released = Call.client_update (any k o') ∷ cleaned in
      (calls ≡ released)
      ⊎ ((e : Error) × (calls ≡ Call.manage_error (any k o') (some e) ∷ released))
  Releases k o panic cleaned calls = calls ≡ cleaned
  Releases k o exit cleaned calls = calls ≡ cleaned
