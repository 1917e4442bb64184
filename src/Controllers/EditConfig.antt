-- ===== src/Controllers/EditConfig.antt =====
-- controllers/editconfig_controller.go
-- `manageOperatorLogic` is cut where it may return early: each function is the rest of the body from
-- there on.
use netconf_operator.Base.{
  ◌<>◌, Bool, true, false, not, Option, none, some, is_some, ◌*◌, if◌then◌else◌,
}
use netconf_operator.Base.Duration.{second}
use netconf_operator.Base.GoMap.{lookup}
use netconf_operator.Api.Meta.{NamespacedName}
use netconf_operator.Api.Common.{is_nil}
use netconf_operator.Api.Objects.{Kind, Object, EditConfig, get_mount_point_namespaced_name}
use netconf_operator.Runtime.{
  Platform, M, ◌>>=◌, pure, deref, get_sessions, Error, errorf, SessionPtr, Reply, Reconciled,
  Message,
}
use netconf_operator.Runtime.Io
use netconf_operator.Controllers.Common.{check_mount_point_exists, validate_dependency}
use netconf_operator.Controllers.Assign.{set_status, set_rpc_reply, settled}

module _ {W : Type 0} (P : Platform W) where
  unfoldable pub is_initialized : (k : Kind) → Object k → Bool
  is_initialized Kind.edit_config o = true
  is_initialized k o = false

  unfoldable pub is_valid : (k : Kind) → Object k → M W (Bool × Option Error)
  unfolding check_mount_point_exists
  is_valid Kind.edit_config o = do
    exists ←
        check_mount_point_exists P
          (record { namespace = o.meta.namespace; name = o.spec.mount_point })
    if not exists
        then pure (false, some (errorf ("MountPoint " <> o.spec.mount_point <> " doesn't exists")))
        else pure (true, none)
  is_valid k o = pure (false, some (errorf "not an EditConfig object"))

  -- The block under `if reply == nil`, which dereferences the nil reply; `rest` is what follows it.
  unfoldable pub replied :
      EditConfig
      → (Option Reply → M W (Option Error × EditConfig))
      → Option Reply × Option Error
      → M W (Option Error × EditConfig)
  replied obj rest (reply, err) =
      if not (is_some reply)
      then (do r ← deref reply; pure (err, set_rpc_reply (set_status obj "failed") r.raw_reply))
      else rest reply

  -- `SyncRPC` and that block.
  unfoldable pub exchange :
      EditConfig
      → Option SessionPtr
      → Message
      → (Option Reply → M W (Option Error × EditConfig))
      → M W (Option Error × EditConfig)
  unfolding replied
  exchange obj s message rest = Io.sync_rpc P s message obj.spec.timeout >>= replied obj rest

  -- The last assignments, with the reply to the edit.
  unfoldable pub finish : EditConfig → Option Reply → M W (Option Error × EditConfig)
  finish obj reply = do
    r ← deref reply
    pure (none, set_rpc_reply (set_status obj "success") r.content)

  unfoldable pub from_unlock :
      EditConfig → Option SessionPtr → Option Reply → M W (Option Error × EditConfig)
  unfolding exchange finish
  from_unlock obj s reply =
      if obj.spec.unlock
      then exchange obj s (Message.new_unlock obj.spec.target) (λ _. finish obj reply)
      else finish obj reply

  unfoldable pub from_commit :
      EditConfig → Option SessionPtr → Option Reply → M W (Option Error × EditConfig)
  unfolding from_unlock
  from_commit obj s reply =
      if obj.spec.commit
      then exchange obj s Message.new_commit (λ _. from_unlock obj s reply)
      else from_unlock obj s reply

  unfoldable pub from_edit : EditConfig → Option SessionPtr → M W (Option Error × EditConfig)
  unfolding from_commit
  from_edit obj s =
      exchange obj s (Message.new_edit_config obj.spec.target obj.spec.operation obj.spec.xml)
        (from_commit obj s)

  unfoldable pub from_lock : EditConfig → M W (Option Error × EditConfig)
  unfolding lookup get_mount_point_namespaced_name from_edit
  from_lock obj = do
    sessions ← get_sessions
    let s = lookup (get_mount_point_namespaced_name P.text obj obj.spec.mount_point) sessions
    if obj.spec.lock
        then exchange obj s (Message.new_lock obj.spec.target) (λ _. from_edit obj s)
        else from_edit obj s

  unfoldable pub manage_operator_logic : EditConfig → M W (Option Error × EditConfig)
  unfolding is_nil validate_dependency from_lock
  manage_operator_logic obj =
      if not (is_nil obj.spec.depends_on)
      then (do
        err ← validate_dependency P obj.meta.namespace obj.spec.depends_on
        if is_some err then pure (err, obj) else from_lock obj)
      else from_lock obj

  unfoldable pub reconcile : NamespacedName → M W Reconciled
  unfolding is_initialized is_valid manage_operator_logic
  reconcile req = do
    (err, instance') ← Io.client_get P Kind.edit_config req
    elim err [
      | some e ↦
          if P.is_not_found e
          then pure settled
          else Io.manage_error P Kind.edit_config instance' (some e)
      | none ↦ do
        (valid, err) ← is_valid Kind.edit_config instance'
        if not valid
            then Io.manage_error_with_requeue P Kind.edit_config instance' err (2 * second)
            else if not (is_initialized Kind.edit_config instance')
            then (do
              err ← Io.client_update P Kind.edit_config instance'
              if is_some err
                  then Io.manage_error P Kind.edit_config instance' err
                  else pure settled)
            else if P.is_being_deleted instance'.meta
            then pure settled
            else do
              (err, obj) ← manage_operator_logic instance'
              if is_some err
                  then Io.manage_error P Kind.edit_config obj err
                  else Io.manage_success P Kind.edit_config obj
    ]
