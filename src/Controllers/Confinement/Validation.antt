-- ===== src/Controllers/Confinement/Validation.antt =====
-- Validation (`isValid`): the calls that it makes, and what holds once it has passed.
use netconf_operator.Base.{◌≡◌, ◌≢◌, refl, true, Option, is_some, arith}
use netconf_operator.Base.GoMap.{lookup}
use netconf_operator.Api.Objects.{Kind, Object, device_name}
use netconf_operator.Runtime.{
  Platform, State, ok, Error, SessionPtr, Within, FetchesByName, KeptByCluster,
  Within-KeptByCluster,
}
use netconf_operator.Controllers.Common.{check_mount_point_exists}
use netconf_operator.Controllers.Common.Frame.{
  check_mount_point_exists-Within, validate_dependency-Within, validate_xml-Within,
}
use netconf_operator.Controllers.Common.Lookup.{check_mount_point_exists-finds}
use netconf_operator.Controllers.Confinement.Device.{Touches, cluster-Touches}
use netconf_operator.Controllers.All
use netconf_operator.Controllers.MountPoint
use netconf_operator.Controllers.Lock
use netconf_operator.Controllers.Unlock
use netconf_operator.Controllers.EditConfig
use netconf_operator.Controllers.Commit
use netconf_operator.Controllers.Get
use netconf_operator.Controllers.GetConfig
use netconf_operator.Controllers.Rpc
use netconf_operator.Controllers.CreateSubscription
use netconf_operator.Controllers.EstablishSubscription

module _ {W : Type 0} (P : Platform W) (l : Option SessionPtr) (s₀ : State W) where
  checked :
      (k : Kind) (o : Object k) (s : State W)
      → Within (Touches l) s₀ s
      → Within (Touches l) s₀ (check_mount_point_exists P (device_name k o) s).1
  checked k o =
      check_mount_point_exists-Within P (Touches l) s₀ (cluster-Touches l) (device_name k o)

  pub valid-Within :
      (k : Kind) (o : Object k) (s : State W)
      → Within (Touches l) s₀ s
      → Within (Touches l) s₀ ((All.hooks P k).is_valid o s).1
  unfolding All.hooks MountPoint.is_valid Lock.is_valid Unlock.is_valid EditConfig.is_valid
      Commit.is_valid Get.is_valid GetConfig.is_valid Rpc.is_valid CreateSubscription.is_valid
      EstablishSubscription.is_valid
  valid-Within Kind.mount_point o s i = i
  valid-Within Kind.lock o s i = ground (arith, checked Kind.lock o s i)
  valid-Within Kind.unlock o s i = ground (arith, checked Kind.unlock o s i)
  valid-Within Kind.edit_config o s i = ground (arith, checked Kind.edit_config o s i)
  valid-Within Kind.commit o s i = ground (
    arith,
    checked Kind.commit o s i,
    validate_dependency-Within P (Touches l) s₀ (cluster-Touches l) o.meta.namespace
        o.spec.depends_on (check_mount_point_exists P (device_name Kind.commit o) s).1,
  )
  valid-Within Kind.get o s i = ground (arith, checked Kind.get o s i)
  valid-Within Kind.get_config o s i = ground (arith, checked Kind.get_config o s i)
  valid-Within Kind.rpc o s i = ground (arith, checked Kind.rpc o s i)
  valid-Within Kind.create_subscription o s i =
      ground (arith, checked Kind.create_subscription o s i)
  valid-Within Kind.establish_subscription o s i = ground (
    arith,
    checked Kind.establish_subscription o s i,
    validate_xml-Within P (Touches l) s₀ (cluster-Touches l) o.spec.xml
        (check_mount_point_exists P (device_name Kind.establish_subscription o) s).1 tt,
  )

  rejected : KeptByCluster (Within (Touches l) s₀)
  rejected = Within-KeptByCluster (Touches l) s₀ (cluster-Touches l)

  pub reject-Within :
      (k : Kind) (o : Object k) (e : Option Error) (s : State W)
      → Within (Touches l) s₀ s
      → Within (Touches l) s₀ ((All.hooks P k).reject o e s).1
  unfolding All.hooks
  reject-Within Kind.mount_point o e s i = rejected _ _ s tt i
  reject-Within Kind.lock o e s i = rejected _ _ s tt i
  reject-Within Kind.unlock o e s i = rejected _ _ s tt i
  reject-Within Kind.edit_config o e s i = rejected _ _ s tt i
  reject-Within Kind.commit o e s i = rejected _ _ s tt i
  reject-Within Kind.get o e s i = rejected _ _ s tt i
  reject-Within Kind.get_config o e s i = rejected _ _ s tt i
  reject-Within Kind.rpc o e s i = rejected _ _ s tt i
  reject-Within Kind.create_subscription o e s i = rejected _ _ s tt i
  reject-Within Kind.establish_subscription o e s i = rejected _ _ s tt i

module _ {W : Type 0} (P : Platform W) (named : FetchesByName P) where
  pub passed :
      (k : Kind) (o : Object k) (s : State W) (e : Option Error)
      → k ≢ Kind.mount_point
      → ((All.hooks P k).is_valid o s).0 ≡ ok (true, e)
      → is_some (lookup (P.text (device_name k o)) s.sessions) ≡ true
  unfolding All.hooks Lock.is_valid Unlock.is_valid EditConfig.is_valid Commit.is_valid Get.is_valid
      GetConfig.is_valid Rpc.is_valid CreateSubscription.is_valid EstablishSubscription.is_valid
  passed Kind.mount_point o s e ne h = absurd (ne refl)
  passed Kind.lock o s e ne h =
      ground (arith, check_mount_point_exists-finds P named (device_name Kind.lock o) s)
  passed Kind.unlock o s e ne h =
      ground (arith, check_mount_point_exists-finds P named (device_name Kind.unlock o) s)
  passed Kind.edit_config o s e ne h =
      ground (arith, check_mount_point_exists-finds P named (device_name Kind.edit_config o) s)
  passed Kind.commit o s e ne h =
      ground (arith, check_mount_point_exists-finds P named (device_name Kind.commit o) s)
  passed Kind.get o s e ne h =
      ground (arith, check_mount_point_exists-finds P named (device_name Kind.get o) s)
  passed Kind.get_config o s e ne h =
      ground (arith, check_mount_point_exists-finds P named (device_name Kind.get_config o) s)
  passed Kind.rpc o s e ne h =
      ground (arith, check_mount_point_exists-finds P named (device_name Kind.rpc o) s)
  passed Kind.create_subscription o s e ne h =
      ground
        (arith, check_mount_point_exists-finds P named (device_name Kind.create_subscription o) s)
  passed Kind.establish_subscription o s e ne h =
      ground (
        arith,
        check_mount_point_exists-finds P named (device_name Kind.establish_subscription o) s,
      )
