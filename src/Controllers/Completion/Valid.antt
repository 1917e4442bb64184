-- ===== src/Controllers/Completion/Valid.antt =====
-- Validation always returns, and once it has passed the session of the object is there.
use netconf_operator.Base.{◌≡◌, ◌≢◌, true, is_some, arith, String, none, ◌∙◌, ap}
use netconf_operator.Base.GoMap.{lookup}
use netconf_operator.Api.Common.{DependsOn}
use netconf_operator.Api.Objects.{Kind, Object, device_name}
use netconf_operator.Runtime.{Platform, State, ok, FetchesByName, Within-refl, Within-sessions}
use netconf_operator.Runtime.Finishes.{Finishes, Stops, Stops-Finishes}
use netconf_operator.Controllers.Confinement.Device.{Touches}
use netconf_operator.Controllers.Confinement.Validation.{passed, valid-Within}
use netconf_operator.Controllers.Common.{
  check_mount_point_exists, validate_instance, validate_dependency, validate_xml,
}
use netconf_operator.Controllers.All
use netconf_operator.Controllers.MountPoint
use netconf_operator.Controllers.Lock
use netconf_operator.Controllers.Unlock
use netconf_operator.Controllers.EditConfig
use netconf_operator.Controllers.Commit
use netconf_operator.Controllers.Get
use netconf_operator.Controllers.GetConfig
use netconf_operator.Controllers.Rpc
use netconf_operator.Controllers.CreateSubscription
use netconf_operator.Controllers.EstablishSubscription

module _ {W : Type 0} (P : Platform W) (X : State W → Type 0) where
  checked-Stops :
      (k : Kind) (o : Object k) (s : State W)
      → Stops X (check_mount_point_exists P (device_name k o) s)
  unfolding check_mount_point_exists
  checked-Stops k o s = ground arith

  instance-Stops :
      (k : Kind) (namespace : String) (d : DependsOn) (s : State W)
      → Stops X (validate_instance P k namespace d s)
  unfolding validate_instance
  instance-Stops k namespace d s = ground arith

  pub dependency-Stops :
      (namespace : String) (d : DependsOn) (s : State W)
      → Stops X (validate_dependency P namespace d s)
  unfolding validate_dependency
  dependency-Stops namespace d s = ground (
    arith,
    instance-Stops Kind.commit namespace d s,
    instance-Stops Kind.edit_config namespace d s,
    instance-Stops Kind.lock namespace d s,
  )

  xml-Stops : (text : String) (s : State W) → Stops X (validate_xml P text s)
  unfolding validate_xml
  xml-Stops text s = ground arith

  pub valid-Stops : (k : Kind) (o : Object k) (s : State W) → Stops X ((All.hooks P k).is_valid o s)
  unfolding All.hooks MountPoint.is_valid Lock.is_valid Unlock.is_valid EditConfig.is_valid
      Commit.is_valid Get.is_valid GetConfig.is_valid Rpc.is_valid CreateSubscription.is_valid
      EstablishSubscription.is_valid check_mount_point_exists
  valid-Stops Kind.mount_point o s = tt
  valid-Stops Kind.lock o s = ground arith
  valid-Stops Kind.unlock o s = ground arith
  valid-Stops Kind.edit_config o s = ground arith
  valid-Stops Kind.commit o s = ground (
    arith,
    dependency-Stops o.meta.namespace o.spec.depends_on
        (check_mount_point_exists P (device_name Kind.commit o) s).1,
  )
  valid-Stops Kind.get o s = ground arith
  valid-Stops Kind.get_config o s = ground arith
  valid-Stops Kind.rpc o s = ground arith
  valid-Stops Kind.create_subscription o s = ground arith
  valid-Stops Kind.establish_subscription o s = ground (
    arith,
    xml-Stops o.spec.xml
        (check_mount_point_exists P (device_name Kind.establish_subscription o) s).1,
  )

  -- The session of an object is there.
  abbrev pub HasSession : (k : Kind) → Object k → State W → Type 0
  HasSession k o s = is_some (lookup (P.text (device_name k o)) s.sessions) ≡ true

  pub valid-Finishes :
      FetchesByName P
      → (k : Kind) (o : Object k) (s : State W) → k ≢ Kind.mount_point
      → Finishes X (λ x s'. x.0 ≡ true → HasSession k o s') ((All.hooks P k).is_valid o s)
  valid-Finishes named k o s ne =
      Stops-Finishes X (λ x s'. x.0 ≡ true → HasSession k o s') ((All.hooks P k).is_valid o s).0
        ((All.hooks P k).is_valid o s).1 (valid-Stops k o s)
        (λ x same valid.
          rw
            (Within-sessions (Touches none) s _
              (valid-Within P none s k o s (Within-refl (Touches none) s)))
            (passed P named k o s x.1 ne (same ∙ ap ok (ap (λ v. (v, x.1)) valid))))
