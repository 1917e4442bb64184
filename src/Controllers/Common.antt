-- ===== src/Controllers/Common.antt =====
-- controllers/common.go: the checks and helpers that the controllers share. The global `Sessions`
-- is the field `sessions` of the state.
pub mod Frame
pub mod Lookup
pub mod Dependency
use netconf_operator.Base.{
  String, ◌<>◌, ◌==◌, Bool, false, Option, none, some, is_some, ◌*◌, if◌then◌else◌,
}
use netconf_operator.Base.Duration.{second}
use netconf_operator.Base.GoMap.{lookup}
use netconf_operator.Api.Meta.{NamespacedName}
use netconf_operator.Api.Common.{DependsOn, KafkaSink}
use netconf_operator.Api.Objects.{Kind, Object, get_namespaced_name}
use netconf_operator.Runtime.{
  ◌>>=◌, Platform, M, pure, fatal, deref, get_sessions, Error, errorf, wrap,
}
use netconf_operator.Runtime.Io

abbrev pub mountpoint_finalizer : String
mountpoint_finalizer = "io.openshift-telco.netconf.mountpoint.finalizer"

abbrev pub establish_subscription_finalizer : String
establish_subscription_finalizer = "io.openshift-telco.netconf.establishsubscription.finalizer"

module _ {W : Type 0} (P : Platform W) where
  unfoldable pub check_mount_point_exists : NamespacedName → M W Bool
  unfolding lookup get_namespaced_name
  check_mount_point_exists n = do
    (err, instance') ← Io.client_get P Kind.mount_point n
    if is_some err then pure false else do
      sessions ← get_sessions
      pure (is_some (lookup (get_namespaced_name P.text instance') sessions))

  unfoldable pub validate_xml : String → M W (Option Error)
  validate_xml text = do
    err ← Io.unmarshal P text
    elim err [
      | some e ↦ pure (some (wrap ("provided XML is not valid: " <> text <> ". \n") e))
      | none ↦ pure none
    ]

  -- `conn` is nil if the dial failed, and then the process has ended.
  unfoldable pub send_to_kafka : String → KafkaSink → M W (Option Error)
  send_to_kafka text sink = do
    (conn, err) ← Io.kafka_dial_leader P sink
    if is_some err then fatal else do
      c ← deref conn
      err ← Io.kafka_set_write_deadline P c (10 * second)
      elim err [
        | some e ↦ pure (some (wrap "timeout writing message " e))
        | none ↦ do
          err ← Io.kafka_write_messages P c text
          elim err [
            | some e ↦ pure (some (wrap "failed to write messages " e))
            | none ↦ do
              err ← Io.kafka_close P c
              elim err [
                | some e ↦ pure (some (wrap "failed to close writer " e))
                | none ↦ pure none
              ]
          ]
      ]

  -- The error, and the instance that was read.
  unfoldable pub validate_exist : (k : Kind) → String → DependsOn → M W (Option Error × Object k)
  validate_exist k namespace dep = do
    (err, i) ← Io.client_get P k (record { namespace = namespace; name = dep.name })
    elim err [
      | some e ↦
          if P.is_not_found e
          then pure (
            some (
                errorf
                  ("provided resource " <> dep.name <> " not found in namespace " <> namespace)),
            i,
          )
          else pure (
            some (
                errorf ("failed to read resource " <> dep.name <> " from namespace " <> namespace)),
            i,
          )
      | none ↦ pure (none, i)
    ]

  unfoldable pub validate_status : String → String → String → Option Error
  validate_status status name namespace =
      if status == "success"
      then none
      else some (
          errorf (
            "Dependent resource " <> name <> " from namespace " <> namespace <> " is in " <> status
            <> " state"))

  -- A case of both switches of `validateDependency`: read the instance, then look at its status.
  unfoldable pub validate_instance : (k : Kind) → String → DependsOn → M W (Option Error)
  unfolding validate_exist validate_status
  validate_instance k namespace dep = do
    (err, i) ← validate_exist k namespace dep
    if is_some err then pure err else pure (validate_status i.status.status dep.name namespace)

  unfoldable pub validate_dependency : String → DependsOn → M W (Option Error)
  unfolding validate_instance
  validate_dependency namespace dep =
      if dep.kind == "Commit"
      then validate_instance Kind.commit namespace dep
      else if dep.kind == "EditConfig"
      then validate_instance Kind.edit_config namespace dep
      else if dep.kind == "Lock"
      then validate_instance Kind.lock namespace dep
      else pure (
          some (
            errorf (
              "invalid dependendy. Only Commit, EditConfig and Lock are supported. " <> dep.kind
              <> " was provided")))
