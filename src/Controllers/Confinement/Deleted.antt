-- ===== src/Controllers/Confinement/Deleted.antt =====
-- An object that is being deleted, of a kind without a finalizer.
use mathlib.Core.Bool.{false≢true}
use netconf_operator.Base.{subst, ◌≡◌, refl, sym, true, false, none, ◌∙◌}
use netconf_operator.Api.Meta.{NamespacedName}
use netconf_operator.Api.Objects.{Kind, Object}
use netconf_operator.Runtime.{
  Platform, State, Within, Within-refl, KeptByCluster, Within-KeptByCluster,
}
use netconf_operator.Controllers.Template.Keeps.{Keeping, reconcile-keeps}
use netconf_operator.Controllers.Confinement.Device.{Touches, cluster-Touches}
use netconf_operator.Controllers.Confinement.Validation.{valid-Within, reject-Within}
use netconf_operator.Controllers.All

-- The kinds whose controllers set a finalizer.
abbrev pub HasFinalizer : Kind → Type 0
HasFinalizer Kind.mount_point = Unit
HasFinalizer Kind.establish_subscription = Unit
HasFinalizer k = ⊥

module _ {W : Type 0} (P : Platform W) (s₀ : State W) where
  abbrev I : State W → Type 0
  I = Within (Touches none) s₀

  abbrev cluster : KeptByCluster I
  cluster = Within-KeptByCluster (Touches none) s₀ (cluster-Touches none)

  -- Without a finalizer the controller neither changes the object nor cleans anything up.
  initialized_same :
      (k : Kind) (o : Object k) → ¬ HasFinalizer k → ((All.hooks P k).is_initialized o).1 ≡ o
  unfolding All.hooks
  initialized_same Kind.mount_point o n = absurd (n tt)
  initialized_same Kind.establish_subscription o n = absurd (n tt)
  initialized_same Kind.lock o n = refl
  initialized_same Kind.unlock o n = refl
  initialized_same Kind.edit_config o n = refl
  initialized_same Kind.commit o n = refl
  initialized_same Kind.get o n = refl
  initialized_same Kind.get_config o n = refl
  initialized_same Kind.rpc o n = refl
  initialized_same Kind.create_subscription o n = refl

  pub finalize-Within :
      (k : Kind) (o : Object k) (s : State W)
      → ¬ HasFinalizer k
      → I s
      → I ((All.hooks P k).finalize o s).1
  unfolding All.hooks
  finalize-Within Kind.mount_point o s n i = absurd (n tt)
  finalize-Within Kind.establish_subscription o s n i = absurd (n tt)
  finalize-Within Kind.lock o s n i = i
  finalize-Within Kind.unlock o s n i = i
  finalize-Within Kind.edit_config o s n i = i
  finalize-Within Kind.commit o s n i = i
  finalize-Within Kind.get o s n i = i
  finalize-Within Kind.get_config o s n i = i
  finalize-Within Kind.rpc o s n i = i
  finalize-Within Kind.create_subscription o s n i = i

  keeping :
      (k : Kind) (o : Object k) (s : State W)
      → ¬ HasFinalizer k
      → P.is_being_deleted o.meta ≡ true
      → Keeping P k (All.hooks P k) I (λ _ _. Unit) cluster o s
  keeping k o s n deleted = record {
    valid = λ i. valid-Within P none s₀ k o s i;
    passed = λ e i h. tt;
    reject = λ e s i. reject-Within P none s₀ k o e s i;
    finalize = λ s i there m d. finalize-Within k _ s n i;
    logic = λ s i there m d. absurd (
        false≢true (
          sym (subst (λ x. P.is_being_deleted x.meta ≡ false) (initialized_same k o n) d)
          ∙ deleted));
  }

-- The reconcile of an object that is being deleted, of any kind but `MountPoint` and
-- `EstablishSubscription`, reaches no device and leaves `Sessions` alone.
pub reconcile-ignores_deleted :
    {W : Type 0} (P : Platform W) (k : Kind) (req : NamespacedName) (s : State W)
    → ¬ HasFinalizer k
    → P.is_being_deleted (P.client_get k req s.world).0.1.meta ≡ true
    → Within (Touches none) s (All.reconcile P k req s).1
reconcile-ignores_deleted P k req s n deleted = rw (All.reconcile-eq-template P k req) (
    reconcile-keeps P k (All.hooks P k) (I P s) (λ _ _. Unit) (cluster P s) req s
      (keeping P s k (P.client_get k req s.world).0.1 _ n deleted) (Within-refl (Touches none) s))
