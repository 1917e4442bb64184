-- ===== src/Controllers/GetConfig.antt =====
-- controllers/getconfig_controller.go
use netconf_operator.Base.{
  ◌<>◌, Bool, true, false, not, Option, none, some, is_some, ◌*◌, if◌then◌else◌,
}
use netconf_operator.Base.Duration.{second}
use netconf_operator.Base.GoMap.{lookup}
use netconf_operator.Api.Meta.{NamespacedName}
use netconf_operator.Api.Objects.{Kind, Object, GetConfig, get_mount_point_namespaced_name}
use netconf_operator.Runtime.{
  ◌>>=◌, Platform, M, pure, deref, get_sessions, Error, errorf, Reconciled, Message,
}
use netconf_operator.Runtime.Io
use netconf_operator.Controllers.Common.{check_mount_point_exists}
use netconf_operator.Controllers.Assign.{set_status, set_rpc_reply, settled, has_failed}

module _ {W : Type 0} (P : Platform W) where
  unfoldable pub is_initialized : (k : Kind) → Object k → Bool
  is_initialized Kind.get_config o = true
  is_initialized k o = false

  unfoldable pub is_valid : (k : Kind) → Object k → M W (Bool × Option Error)
  unfolding check_mount_point_exists
  is_valid Kind.get_config o = do
    exists ←
        check_mount_point_exists P
          (record { namespace = o.meta.namespace; name = o.spec.mount_point })
    if not exists
        then pure (false, some (errorf ("MountPoint " <> o.spec.mount_point <> " doesn't exists")))
        else pure (true, none)
  is_valid k o = pure (false, some (errorf "not an GetConfig object"))

  unfoldable pub manage_operator_logic : GetConfig → M W (Option Error × GetConfig)
  unfolding lookup get_mount_point_namespaced_name
  manage_operator_logic obj = do
    sessions ← get_sessions
    let s = lookup (get_mount_point_namespaced_name P.text obj obj.spec.mount_point) sessions
    (reply, err) ← Io.sync_rpc P s (Message.new_get_config obj.spec.target "" "") obj.spec.timeout
    failed ← has_failed reply err
    if failed
        then (do r ← deref reply; pure (err, set_rpc_reply (set_status obj "failed") r.raw_reply))
        else do r ← deref reply; pure (none, set_rpc_reply (set_status obj "success") r.content)

  unfoldable pub reconcile : NamespacedName → M W Reconciled
  unfolding is_initialized is_valid manage_operator_logic
  reconcile req = do
    (err, instance') ← Io.client_get P Kind.get_config req
    elim err [
      | some e ↦
          if P.is_not_found e
          then pure settled
          else Io.manage_error P Kind.get_config instance' (some e)
      | none ↦ do
        (valid, err) ← is_valid Kind.get_config instance'
        if not valid
            then Io.manage_error_with_requeue P Kind.get_config instance' err (2 * second)
            else if not (is_initialized Kind.get_config instance')
            then (do
              err ← Io.client_update P Kind.get_config instance'
              if is_some err then Io.manage_error P Kind.get_config instance' err else pure settled)
            else if P.is_being_deleted instance'.meta
            then pure settled
            else do
              (err, obj) ← manage_operator_logic instance'
              if is_some err
                  then Io.manage_error P Kind.get_config obj err
                  else Io.manage_success P Kind.get_config obj
    ]
