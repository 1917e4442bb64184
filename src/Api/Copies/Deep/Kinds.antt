-- ===== src/Api/Copies/Deep/Kinds.antt =====
-- The resources, the lists and their deep copies, by kind.
use netconf_operator.Base.{Option}
use netconf_operator.Api.Objects.{Kind}
use netconf_operator.Api.Copies.Memory.{Address, Raw, RawList, RawSpec, Heap, Mem}
use netconf_operator.Api.Copies.Shared.{Copies, Pointing}
use netconf_operator.Api.Copies.Deep.{Shape}
use netconf_operator.Api.Copies.Deep.Shapes.{plain}
use netconf_operator.Api.Copies.Deep.Objects.{mount_point_spec_shape, object_shape}
use netconf_operator.Api.Copies.Deep.Lists.{list_shape}
use netconf_operator.Api.Copies.MountPoint
use netconf_operator.Api.Copies.Lock
use netconf_operator.Api.Copies.Unlock
use netconf_operator.Api.Copies.EditConfig
use netconf_operator.Api.Copies.Commit
use netconf_operator.Api.Copies.Get
use netconf_operator.Api.Copies.GetConfig
use netconf_operator.Api.Copies.Rpc
use netconf_operator.Api.Copies.CreateSubscription
use netconf_operator.Api.Copies.EstablishSubscription

-- What is copied: a resource, or a list of resources of a kind.
pub data Copied : Type 0 where
  object list : Kind → Copied

abbrev pub kind_of : Copied → Kind
kind_of (Copied.object k) = k
kind_of (Copied.list k) = k

abbrev pub spec_shape : (k : Kind) → Shape (RawSpec k) (RawSpec k)
spec_shape Kind.mount_point = mount_point_spec_shape
spec_shape Kind.lock = plain (RawSpec Kind.lock)
spec_shape Kind.unlock = plain (RawSpec Kind.unlock)
spec_shape Kind.edit_config = plain (RawSpec Kind.edit_config)
spec_shape Kind.commit = plain (RawSpec Kind.commit)
spec_shape Kind.get = plain (RawSpec Kind.get)
spec_shape Kind.get_config = plain (RawSpec Kind.get_config)
spec_shape Kind.rpc = plain (RawSpec Kind.rpc)
spec_shape Kind.create_subscription = plain (RawSpec Kind.create_subscription)
spec_shape Kind.establish_subscription = plain (RawSpec Kind.establish_subscription)

abbrev pub RawOf : Copied → Type 0
RawOf (Copied.object k) = Raw (RawSpec k)
RawOf (Copied.list k) = RawList

abbrev pub shape_of : (c : Copied) → Shape (RawSpec (kind_of c)) (RawOf c)
shape_of (Copied.object k) = object_shape (spec_shape k)
shape_of (Copied.list k) = list_shape (object_shape (spec_shape k))

module _ (C : Copies) where
  abbrev pub deep_copy_into :
      (k : Kind) → Raw (RawSpec k) → Mem (Heap (RawSpec k)) (Raw (RawSpec k))
  deep_copy_into Kind.mount_point = MountPoint.deep_copy_into C
  deep_copy_into Kind.lock = Lock.deep_copy_into C
  deep_copy_into Kind.unlock = Unlock.deep_copy_into C
  deep_copy_into Kind.edit_config = EditConfig.deep_copy_into C
  deep_copy_into Kind.commit = Commit.deep_copy_into C
  deep_copy_into Kind.get = Get.deep_copy_into C
  deep_copy_into Kind.get_config = GetConfig.deep_copy_into C
  deep_copy_into Kind.rpc = Rpc.deep_copy_into C
  deep_copy_into Kind.create_subscription = CreateSubscription.deep_copy_into C
  deep_copy_into Kind.establish_subscription = EstablishSubscription.deep_copy_into C

  abbrev pub deep_copy :
      (c : Copied)
      → Option Address
      → Mem (Pointing (RawSpec (kind_of c)) (RawOf c)) (Option Address)
  deep_copy (Copied.object Kind.mount_point) = MountPoint.deep_copy C
  deep_copy (Copied.object Kind.lock) = Lock.deep_copy C
  deep_copy (Copied.object Kind.unlock) = Unlock.deep_copy C
  deep_copy (Copied.object Kind.edit_config) = EditConfig.deep_copy C
  deep_copy (Copied.object Kind.commit) = Commit.deep_copy C
  deep_copy (Copied.object Kind.get) = Get.deep_copy C
  deep_copy (Copied.object Kind.get_config) = GetConfig.deep_copy C
  deep_copy (Copied.object Kind.rpc) = Rpc.deep_copy C
  deep_copy (Copied.object Kind.create_subscription) = CreateSubscription.deep_copy C
  deep_copy (Copied.object Kind.establish_subscription) = EstablishSubscription.deep_copy C
  deep_copy (Copied.list Kind.mount_point) = MountPoint.list_deep_copy C
  deep_copy (Copied.list Kind.lock) = Lock.list_deep_copy C
  deep_copy (Copied.list Kind.unlock) = Unlock.list_deep_copy C
  deep_copy (Copied.list Kind.edit_config) = EditConfig.list_deep_copy C
  deep_copy (Copied.list Kind.commit) = Commit.list_deep_copy C
  deep_copy (Copied.list Kind.get) = Get.list_deep_copy C
  deep_copy (Copied.list Kind.get_config) = GetConfig.list_deep_copy C
  deep_copy (Copied.list Kind.rpc) = Rpc.list_deep_copy C
  deep_copy (Copied.list Kind.create_subscription) = CreateSubscription.list_deep_copy C
  deep_copy (Copied.list Kind.establish_subscription) = EstablishSubscription.list_deep_copy C

  abbrev pub deep_copy_object :
      (c : Copied)
      → Option Address
      → Mem (Pointing (RawSpec (kind_of c)) (RawOf c)) (Option Address)
  deep_copy_object (Copied.object Kind.mount_point) = MountPoint.deep_copy_object C
  deep_copy_object (Copied.object Kind.lock) = Lock.deep_copy_object C
  deep_copy_object (Copied.object Kind.unlock) = Unlock.deep_copy_object C
  deep_copy_object (Copied.object Kind.edit_config) = EditConfig.deep_copy_object C
  deep_copy_object (Copied.object Kind.commit) = Commit.deep_copy_object C
  deep_copy_object (Copied.object Kind.get) = Get.deep_copy_object C
  deep_copy_object (Copied.object Kind.get_config) = GetConfig.deep_copy_object C
  deep_copy_object (Copied.object Kind.rpc) = Rpc.deep_copy_object C
  deep_copy_object (Copied.object Kind.create_subscription) = CreateSubscription.deep_copy_object C
  deep_copy_object (Copied.object Kind.establish_subscription) =
      EstablishSubscription.deep_copy_object C
  deep_copy_object (Copied.list Kind.mount_point) = MountPoint.list_deep_copy_object C
  deep_copy_object (Copied.list Kind.lock) = Lock.list_deep_copy_object C
  deep_copy_object (Copied.list Kind.unlock) = Unlock.list_deep_copy_object C
  deep_copy_object (Copied.list Kind.edit_config) = EditConfig.list_deep_copy_object C
  deep_copy_object (Copied.list Kind.commit) = Commit.list_deep_copy_object C
  deep_copy_object (Copied.list Kind.get) = Get.list_deep_copy_object C
  deep_copy_object (Copied.list Kind.get_config) = GetConfig.list_deep_copy_object C
  deep_copy_object (Copied.list Kind.rpc) = Rpc.list_deep_copy_object C
  deep_copy_object (Copied.list Kind.create_subscription) =
      CreateSubscription.list_deep_copy_object C
  deep_copy_object (Copied.list Kind.establish_subscription) =
      EstablishSubscription.list_deep_copy_object C
