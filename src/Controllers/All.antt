-- ===== src/Controllers/All.antt =====
-- The ten controllers side by side, as `main` registers them.
use netconf_operator.Base.{◌≡◌, refl, ◌*◌}
use netconf_operator.Base.Duration.{second}
use netconf_operator.Api.Meta.{NamespacedName}
use netconf_operator.Api.Objects.{Kind}
use netconf_operator.Runtime.{Platform, M, pure, Reconciled}
use netconf_operator.Runtime.Io
use netconf_operator.Controllers.Assign.{settled}
use netconf_operator.Controllers.Template.{Hooks}
use netconf_operator.Controllers.Template
use netconf_operator.Controllers.MountPoint
use netconf_operator.Controllers.Lock
use netconf_operator.Controllers.Unlock
use netconf_operator.Controllers.EditConfig
use netconf_operator.Controllers.Commit
use netconf_operator.Controllers.Get
use netconf_operator.Controllers.GetConfig
use netconf_operator.Controllers.Rpc
use netconf_operator.Controllers.CreateSubscription
use netconf_operator.Controllers.EstablishSubscription

module _ {W : Type 0} (P : Platform W) where
  -- The `Reconcile` of the controller that watches a kind.
  unfoldable pub reconcile : Kind → NamespacedName → M W Reconciled
  reconcile Kind.mount_point = MountPoint.reconcile P
  reconcile Kind.lock = Lock.reconcile P
  reconcile Kind.unlock = Unlock.reconcile P
  reconcile Kind.edit_config = EditConfig.reconcile P
  reconcile Kind.commit = Commit.reconcile P
  reconcile Kind.get = Get.reconcile P
  reconcile Kind.get_config = GetConfig.reconcile P
  reconcile Kind.rpc = Rpc.reconcile P
  reconcile Kind.create_subscription = CreateSubscription.reconcile P
  reconcile Kind.establish_subscription = EstablishSubscription.reconcile P

  unfoldable pub hooks : (k : Kind) → Hooks W k
  hooks Kind.mount_point = record {
    is_valid = MountPoint.is_valid P Kind.mount_point;
    reject = Io.manage_error P Kind.mount_point;
    is_initialized = MountPoint.is_initialized P Kind.mount_point;
    finalize = MountPoint.finalize P;
    manage_operator_logic = MountPoint.manage_operator_logic P;
  }
  hooks Kind.establish_subscription = record {
    is_valid = EstablishSubscription.is_valid P Kind.establish_subscription;
    reject = λ o e. Io.manage_error_with_requeue P Kind.establish_subscription o e (2 * second);
    is_initialized = EstablishSubscription.is_initialized P Kind.establish_subscription;
    finalize = EstablishSubscription.finalize P;
    manage_operator_logic = EstablishSubscription.manage_operator_logic P;
  }
  hooks Kind.lock = record {
    is_valid = Lock.is_valid P Kind.lock;
    reject = λ o e. Io.manage_error_with_requeue P Kind.lock o e (2 * second);
    is_initialized = λ o. (Lock.is_initialized P Kind.lock o, o);
    finalize = λ _. pure settled;
    manage_operator_logic = Lock.manage_operator_logic P;
  }
  hooks Kind.unlock = record {
    is_valid = Unlock.is_valid P Kind.unlock;
    reject = λ o e. Io.manage_error_with_requeue P Kind.unlock o e (2 * second);
    is_initialized = λ o. (Unlock.is_initialized P Kind.unlock o, o);
    finalize = λ _. pure settled;
    manage_operator_logic = Unlock.manage_operator_logic P;
  }
  hooks Kind.edit_config = record {
    is_valid = EditConfig.is_valid P Kind.edit_config;
    reject = λ o e. Io.manage_error_with_requeue P Kind.edit_config o e (2 * second);
    is_initialized = λ o. (EditConfig.is_initialized P Kind.edit_config o, o);
    finalize = λ _. pure settled;
    manage_operator_logic = EditConfig.manage_operator_logic P;
  }
  hooks Kind.commit = record {
    is_valid = Commit.is_valid P Kind.commit;
    reject = λ o e. Io.manage_error_with_requeue P Kind.commit o e (2 * second);
    is_initialized = λ o. (Commit.is_initialized P Kind.commit o, o);
    finalize = λ _. pure settled;
    manage_operator_logic = Commit.manage_operator_logic P;
  }
  hooks Kind.get = record {
    is_valid = Get.is_valid P Kind.get;
    reject = λ o e. Io.manage_error_with_requeue P Kind.get o e (2 * second);
    is_initialized = λ o. (Get.is_initialized P Kind.get o, o);
    finalize = λ _. pure settled;
    manage_operator_logic = Get.manage_operator_logic P;
  }
  hooks Kind.get_config = record {
    is_valid = GetConfig.is_valid P Kind.get_config;
    reject = λ o e. Io.manage_error_with_requeue P Kind.get_config o e (2 * second);
    is_initialized = λ o. (GetConfig.is_initialized P Kind.get_config o, o);
    finalize = λ _. pure settled;
    manage_operator_logic = GetConfig.manage_operator_logic P;
  }
  hooks Kind.rpc = record {
    is_valid = Rpc.is_valid P Kind.rpc;
    reject = λ o e. Io.manage_error_with_requeue P Kind.rpc o e (2 * second);
    is_initialized = λ o. (Rpc.is_initialized P Kind.rpc o, o);
    finalize = λ _. pure settled;
    manage_operator_logic = Rpc.manage_operator_logic P;
  }
  hooks Kind.create_subscription = record {
    is_valid = CreateSubscription.is_valid P Kind.create_subscription;
    reject = λ o e. Io.manage_error_with_requeue P Kind.create_subscription o e (2 * second);
    is_initialized = λ o. (CreateSubscription.is_initialized P Kind.create_subscription o, o);
    finalize = λ _. pure settled;
    manage_operator_logic = CreateSubscription.manage_operator_logic P;
  }

  -- Each of the ten methods is the shared body over the controller's own parts.
  pub reconcile-eq-template :
      (k : Kind) (req : NamespacedName) → reconcile k req ≡ Template.reconcile P k (hooks k) req
  unfolding reconcile hooks Template.reconcile Lock.reconcile Unlock.reconcile EditConfig.reconcile
      Commit.reconcile Get.reconcile GetConfig.reconcile Rpc.reconcile CreateSubscription.reconcile
      MountPoint.reconcile EstablishSubscription.reconcile
  reconcile-eq-template Kind.mount_point req = refl
  reconcile-eq-template Kind.lock req = refl
  reconcile-eq-template Kind.unlock req = refl
  reconcile-eq-template Kind.edit_config req = refl
  reconcile-eq-template Kind.commit req = refl
  reconcile-eq-template Kind.get req = refl
  reconcile-eq-template Kind.get_config req = refl
  reconcile-eq-template Kind.rpc req = refl
  reconcile-eq-template Kind.create_subscription req = refl
  reconcile-eq-template Kind.establish_subscription req = refl
