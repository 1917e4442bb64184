-- ===== src/Controllers/EstablishSubscription.antt =====
-- controllers/establishsubscription_controller.go
pub mod RoundTrip
use netconf_operator.Base.{
  String, ◌<>◌, ◌==◌, Bool, true, false, not, Option, none, some, is_some, ◌*◌, pos, if◌then◌else◌,
}
use netconf_operator.Base.Duration.{second}
use netconf_operator.Base.GoMap.{lookup}
use netconf_operator.Api.Meta.{NamespacedName}
use netconf_operator.Api.Objects.{
  Kind, Object, EstablishSubscription, get_mount_point_namespaced_name,
}
use netconf_operator.Runtime.{
  ◌>>◌, Platform, M, ◌>>=◌, pure, deref, get_sessions, Error, errorf, SessionPtr, Reply, Reconciled,
  Message, Callback,
}
use netconf_operator.Runtime.Io
use netconf_operator.Controllers.Common.{
  check_mount_point_exists, validate_xml, establish_subscription_finalizer,
}
use netconf_operator.Controllers.Assign.{
  set_status, set_rpc_reply, set_subscription_id, set_meta, settled, has_failed,
}

module _ {W : Type 0} (P : Platform W) where
  unfoldable pub is_initialized : (k : Kind) → Object k → Bool × Object k
  is_initialized Kind.establish_subscription o =
      if P.has_finalizer o.meta establish_subscription_finalizer
      then (true, o)
      else (false, set_meta o (P.add_finalizer o.meta establish_subscription_finalizer))
  is_initialized k o = (false, o)

  unfoldable pub is_valid : (k : Kind) → Object k → M W (Bool × Option Error)
  unfolding check_mount_point_exists validate_xml
  is_valid Kind.establish_subscription o = do
    exists ←
        check_mount_point_exists P
          (record { namespace = o.meta.namespace; name = o.spec.mount_point })
    if not exists
        then pure (false, some (errorf ("MountPoint " <> o.spec.mount_point <> " doesn't exists")))
        else do
          err ← validate_xml P o.spec.xml
          if is_some err then pure (false, err) else pure (true, none)
  is_valid k o = pure (false, some (errorf "not an EstablishSubscription object"))

  -- The text of the RPC that ends a subscription.
  abbrev pub delete_subscription : String → String
  delete_subscription id =
      "<delete-subscription xmlns=\"urn:ietf:params:xml:ns:yang:ietf-event-notifications\"><subscription-id>"
      <> (id <> "</subscription-id></delete-subscription>")

  -- From `s.Listener.Remove` on.
  unfoldable pub end_subscription : EstablishSubscription → SessionPtr → M W (Option Error)
  end_subscription obj s = do
    Io.remove P s obj.status.subscription_id
    (_, err) ←
        Io.sync_rpc P (some s) (Message.new_rpc (delete_subscription obj.status.subscription_id))
          (pos 1)
    if is_some err then pure err else pure none

  unfoldable pub manage_clean_up_logic : EstablishSubscription → M W (Option Error)
  unfolding lookup get_mount_point_namespaced_name end_subscription
  manage_clean_up_logic obj =
      if not (obj.status.subscription_id == "")
      then (do
        sessions ← get_sessions
        s ←
            deref
              (lookup (get_mount_point_namespaced_name P.text obj obj.spec.mount_point) sessions)
        end_subscription obj s)
      else pure none

  -- What follows the RPC on the session `s`.
  unfoldable pub answered :
      EstablishSubscription
      → Option SessionPtr
      → Option Reply × Option Error
      → M W (Option Error × EstablishSubscription)
  answered obj s (reply, err) = do
    failed ← has_failed reply err
    if failed
        then elim reply [
          | some r ↦ pure (err, set_rpc_reply (set_status obj "failed") r.raw_reply)
          | none ↦ pure (err, set_status obj "failed")
        ]
        else do
          p ← deref s
          r ← deref reply
          Io.register P p r.subscription_id (Callback.on_establish_subscription obj)
          pure (none, set_subscription_id (set_status obj "subscribed") r.subscription_id)

  unfoldable pub manage_operator_logic :
      EstablishSubscription → M W (Option Error × EstablishSubscription)
  unfolding lookup get_mount_point_namespaced_name answered
  manage_operator_logic obj = do
    sessions ← get_sessions
    let s = lookup (get_mount_point_namespaced_name P.text obj obj.spec.mount_point) sessions
    Io.sync_rpc P s (Message.new_establish_subscription obj.spec.xml) obj.spec.timeout
        >>= answered obj s

  -- The removal of the finalizer, after the clean-up.
  unfoldable pub release : Object Kind.establish_subscription → M W Reconciled
  release instance' = do
    let removed =
        set_meta instance' (P.remove_finalizer instance'.meta establish_subscription_finalizer)
    err ← Io.client_update P Kind.establish_subscription removed
    if is_some err then Io.manage_error P Kind.establish_subscription removed err else pure settled

  unfoldable pub cleaned_up : Object Kind.establish_subscription → Option Error → M W Reconciled
  unfolding release
  cleaned_up instance' err =
      if is_some err
      then Io.manage_error P Kind.establish_subscription instance' err
      else release instance'

  -- The branch of an object that is being deleted.
  unfoldable pub finalize : Object Kind.establish_subscription → M W Reconciled
  unfolding manage_clean_up_logic cleaned_up
  finalize instance' =
      if not (P.has_finalizer instance'.meta establish_subscription_finalizer)
      then pure settled
      else (manage_clean_up_logic instance' >>= cleaned_up instance')

  unfoldable pub reconcile : NamespacedName → M W Reconciled
  unfolding is_initialized is_valid finalize manage_operator_logic
  reconcile req = do
    (err, instance') ← Io.client_get P Kind.establish_subscription req
    elim err [
      | some e ↦
          if P.is_not_found e
          then pure settled
          else Io.manage_error P Kind.establish_subscription instance' (some e)
      | none ↦ do
        (valid, err) ← is_valid Kind.establish_subscription instance'
        if not valid
            then Io.manage_error_with_requeue P Kind.establish_subscription instance' err
                (2 * second)
            else do
              let (initialized, obj) = is_initialized Kind.establish_subscription instance'
              if not initialized
                  then (do
                    err ← Io.client_update P Kind.establish_subscription obj
                    if is_some err
                        then Io.manage_error P Kind.establish_subscription obj err
                        else pure settled)
                  else if P.is_being_deleted obj.meta
                  then finalize obj
                  else do
                    (err, obj') ← manage_operator_logic obj
                    if is_some err
                        then Io.manage_error P Kind.establish_subscription obj' err
                        else Io.manage_success P Kind.establish_subscription obj'
    ]
