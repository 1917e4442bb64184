-- ===== src/Controllers/CreateSubscription.antt =====
-- controllers/createsubscription_controller.go
pub mod Stream
use netconf_operator.Base.{
  ◌<>◌, Bool, true, false, not, Option, none, some, is_some, ◌*◌, if◌then◌else◌,
}
use netconf_operator.Base.Duration.{second}
use netconf_operator.Base.GoMap.{lookup}
use netconf_operator.Api.Meta.{NamespacedName}
use netconf_operator.Api.Objects.{Kind, Object, CreateSubscription, get_mount_point_namespaced_name}
use netconf_operator.Runtime.{
  ◌>>=◌, Platform, M, pure, get_sessions, Error, errorf, Reconciled, Callback,
}
use netconf_operator.Runtime.Io
use netconf_operator.Controllers.Common.{check_mount_point_exists}
use netconf_operator.Controllers.Assign.{set_status, settled}

module _ {W : Type 0} (P : Platform W) where
  unfoldable pub is_initialized : (k : Kind) → Object k → Bool
  is_initialized Kind.create_subscription o = true
  is_initialized k o = false

  unfoldable pub is_valid : (k : Kind) → Object k → M W (Bool × Option Error)
  unfolding check_mount_point_exists
  is_valid Kind.create_subscription o = do
    exists ←
        check_mount_point_exists P
          (record { namespace = o.meta.namespace; name = o.spec.mount_point })
    if not exists
        then pure (false, some (errorf ("MountPoint " <> o.spec.mount_point <> " doesn't exists")))
        else pure (true, none)
  is_valid k o = pure (false, some (errorf (o.meta.name <> " is not an CreateSubscription object")))

  -- What follows `s.CreateNotificationStream`.
  unfoldable pub streamed :
      CreateSubscription → Option Error → M W (Option Error × CreateSubscription)
  streamed obj err =
      if is_some err
      then pure (err, set_status obj "failed")
      else pure (none, set_status obj "subscribed")

  unfoldable pub manage_operator_logic :
      CreateSubscription → M W (Option Error × CreateSubscription)
  unfolding lookup get_mount_point_namespaced_name streamed
  manage_operator_logic obj = do
    sessions ← get_sessions
    let s = lookup (get_mount_point_namespaced_name P.text obj obj.spec.mount_point) sessions
    Io.create_notification_stream P s obj.spec.timeout obj.spec.stop_time obj.spec.start_time
          obj.spec.stream (Callback.on_create_subscription obj)
        >>= streamed obj

  unfoldable pub reconcile : NamespacedName → M W Reconciled
  unfolding is_initialized is_valid manage_operator_logic
  reconcile req = do
    (err, instance') ← Io.client_get P Kind.create_subscription req
    elim err [
      | some e ↦
          if P.is_not_found e
          then pure settled
          else Io.manage_error P Kind.create_subscription instance' (some e)
      | none ↦ do
        (valid, err) ← is_valid Kind.create_subscription instance'
        if not valid
            then Io.manage_error_with_requeue P Kind.create_subscription instance' err (2 * second)
            else if not (is_initialized Kind.create_subscription instance')
            then (do
              err ← Io.client_update P Kind.create_subscription instance'
              if is_some err
                  then Io.manage_error P Kind.create_subscription instance' err
                  else pure settled)
            else if P.is_being_deleted instance'.meta
            then pure settled
            else do
              (err, obj) ← manage_operator_logic instance'
              if is_some err
                  then Io.manage_error P Kind.create_subscription obj err
                  else Io.manage_success P Kind.create_subscription obj
    ]
