-- ===== src/Controllers/Common/Frame.antt =====
-- The calls of the checks that the controllers share.
use netconf_operator.Base.{String, arith}
use netconf_operator.Api.Meta.{NamespacedName}
use netconf_operator.Api.Common.{DependsOn}
use netconf_operator.Api.Objects.{Kind}
use netconf_operator.Runtime.{Platform, State, Call, IsClusterCall, Within, Within-call}
use netconf_operator.Controllers.Common.{
  check_mount_point_exists, validate_xml, validate_instance, validate_dependency,
}

module _ {W : Type 0} (P : Platform W) (C : Call → Type 0) (s₀ : State W)
    (cluster : (c : Call) → IsClusterCall c → C c) where
  pub check_mount_point_exists-Within :
      (n : NamespacedName) (s : State W)
      → Within C s₀ s
      → Within C s₀ (check_mount_point_exists P n s).1
  unfolding check_mount_point_exists
  check_mount_point_exists-Within n s i =
      let call = Call.client_get Kind.mount_point n in
      ground (
        arith,
        Within-call C s₀ call (P.client_get Kind.mount_point n s.world).1 s (cluster call tt) i,
      )

  pub validate_instance-Within :
      (k : Kind) (namespace : String) (d : DependsOn) (s : State W)
      → Within C s₀ s
      → Within C s₀ (validate_instance P k namespace d s).1
  unfolding validate_instance
  validate_instance-Within k namespace d s i =
      let n : NamespacedName = record { namespace = namespace; name = d.name } in
      let call = Call.client_get k n in
      ground (arith, Within-call C s₀ call (P.client_get k n s.world).1 s (cluster call tt) i)

  pub validate_dependency-Within :
      (namespace : String) (d : DependsOn) (s : State W)
      → Within C s₀ s
      → Within C s₀ (validate_dependency P namespace d s).1
  unfolding validate_dependency
  validate_dependency-Within namespace d s i = ground (
    arith,
    validate_instance-Within Kind.commit namespace d s i,
    validate_instance-Within Kind.edit_config namespace d s i,
    validate_instance-Within Kind.lock namespace d s i,
  )

  pub validate_xml-Within :
      (text : String) (s : State W)
      → C (Call.unmarshal text)
      → Within C s₀ s
      → Within C s₀ (validate_xml P text s).1
  unfolding validate_xml
  validate_xml-Within text s c i =
      ground (arith, Within-call C s₀ (Call.unmarshal text) (P.unmarshal text s.world).1 s c i)
