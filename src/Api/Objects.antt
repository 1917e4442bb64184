-- ===== src/Api/Objects.antt =====
-- The resources as objects (api/v1/*_types.go): metadata, a spec of the kind, and the status. A
-- value of Go's interface `metav1.Object` or `client.Object` is an object with its kind.
use netconf_operator.Base.{String}
use netconf_operator.Api.Meta.{NamespacedName, ObjectMeta}
use netconf_operator.Api.Common.{RpcStatus}
use netconf_operator.Api.Specs.{
  MountPointSpec, LockSpec, UnlockSpec, CommitSpec, EditConfigSpec, GetSpec, GetConfigSpec, RpcSpec,
  CreateSubscriptionSpec, EstablishSubscriptionSpec,
}

pub data Kind : Type 0 where
  mount_point lock unlock edit_config commit get get_config rpc : Kind
  create_subscription establish_subscription : Kind

abbrev pub Spec : Kind → Type 0
Spec mount_point = MountPointSpec
Spec lock = LockSpec
Spec unlock = UnlockSpec
Spec edit_config = EditConfigSpec
Spec commit = CommitSpec
Spec get = GetSpec
Spec get_config = GetConfigSpec
Spec rpc = RpcSpec
Spec create_subscription = CreateSubscriptionSpec
Spec establish_subscription = EstablishSubscriptionSpec

-- Every resource is a struct of these three parts.
pub record Resource (S : Type 0) : Type 0 where
  pub meta : ObjectMeta
  pub spec : S
  pub status : RpcStatus

abbrev pub Object : Kind → Type 0
Object k = Resource (Spec k)

abbrev pub MountPoint : Type 0
MountPoint = Object mount_point

abbrev pub Lock : Type 0
Lock = Object lock

abbrev pub Unlock : Type 0
Unlock = Object unlock

abbrev pub EditConfig : Type 0
EditConfig = Object edit_config

abbrev pub Commit : Type 0
Commit = Object commit

abbrev pub Get : Type 0
Get = Object get

abbrev pub GetConfig : Type 0
GetConfig = Object get_config

abbrev pub Rpc : Type 0
Rpc = Object rpc

abbrev pub CreateSubscription : Type 0
CreateSubscription = Object create_subscription

abbrev pub EstablishSubscription : Type 0
EstablishSubscription = Object establish_subscription

-- The mount point that an object names; a `MountPoint` is its own.
abbrev pub device_of : (k : Kind) → Object k → String
device_of Kind.mount_point o = o.meta.name
device_of Kind.lock o = o.spec.mount_point
device_of Kind.unlock o = o.spec.mount_point
device_of Kind.edit_config o = o.spec.mount_point
device_of Kind.commit o = o.spec.mount_point
device_of Kind.get o = o.spec.mount_point
device_of Kind.get_config o = o.spec.mount_point
device_of Kind.rpc o = o.spec.mount_point
device_of Kind.create_subscription o = o.spec.mount_point
device_of Kind.establish_subscription o = o.spec.mount_point

-- Its name in the object's namespace.
abbrev pub device_name : (k : Kind) → Object k → NamespacedName
device_name k o = record { namespace = o.meta.namespace; name = device_of k o }

-- An object behind an interface, with its dynamic type.
pub data AnyObject : Type 0 where
  any : (k : Kind) → Object k → AnyObject

-- `types.NamespacedName{…}.String()` is the platform's `text`.
module _ (text : NamespacedName → String) {S : Type 0} where
  unfoldable pub get_mount_point_namespaced_name : Resource S → String → String
  get_mount_point_namespaced_name obj mountpoint =
      text (record { namespace = obj.meta.namespace; name = mountpoint })

  unfoldable pub get_namespaced_name : Resource S → String
  get_namespaced_name obj = text (record { namespace = obj.meta.namespace; name = obj.meta.name })
