-- ===== src/Controllers/MountPoint.antt =====
-- controllers/mountpoint_controller.go
pub mod Connect
pub mod CleanUp
pub mod Keeps
pub mod OwnKey
pub mod Greeting
pub mod RoundTrip
pub mod Life
use netconf_operator.Base.{
  String, ◌<>◌, ◌++◌, Bool, true, false, not, Option, none, some, is_some, is_zero, List, [], ◌∷◌,
  if◌then◌else◌,
}
use netconf_operator.Base.Duration.{seconds}
use netconf_operator.Base.Rune.{rune_text}
use netconf_operator.Base.GoMap.{lookup, insert, erase}
use netconf_operator.Api.Meta.{NamespacedName}
use netconf_operator.Api.Objects.{Kind, Object, MountPoint, get_namespaced_name}
use netconf_operator.Runtime.{
  ◌>>◌, Platform, M, ◌>>=◌, pure, deref, read, get_sessions, put_sessions, Error, errorf,
  SessionPtr, SshConfig, Reconciled, Message, Reply,
}
use netconf_operator.Runtime.Io
use netconf_operator.Controllers.Common.{mountpoint_finalizer}
use netconf_operator.Controllers.Assign.{
  set_status, set_capabilities, set_meta, settled, has_failed,
}

module _ {W : Type 0} (P : Platform W) where
  unfoldable pub is_initialized : (k : Kind) → Object k → Bool × Object k
  is_initialized Kind.mount_point o =
      if P.has_finalizer o.meta mountpoint_finalizer
      then (true, o)
      else (false, set_meta o (P.add_finalizer o.meta mountpoint_finalizer))
  is_initialized k o = (false, o)

  unfoldable pub is_valid : (k : Kind) → Object k → M W (Bool × Option Error)
  is_valid Kind.mount_point o = pure (true, none)
  is_valid k o = pure (false, some (errorf (o.meta.name <> " is not an MountPoint object")))

  -- The RPC that kills the session.
  unfoldable pub kill : MountPoint → SessionPtr → M W (Option Reply × Option Error)
  unfolding rune_text
  kill mount_point s = do
    id ← read (P.session_id s)
    Io.sync_rpc P (some s) (Message.new_kill_session (rune_text id)) mount_point.spec.timeout

  -- From `delete` on.
  unfoldable pub forget : MountPoint → SessionPtr → M W (Option Error)
  unfolding get_namespaced_name erase
  forget mount_point s = do
    sessions ← get_sessions
    put_sessions (erase (get_namespaced_name P.text mount_point) sessions)
    Io.remove P s P.notification_stream_handler
    Io.close_session P s

  -- What follows the closing RPC: the session is killed if that has failed.
  unfoldable pub closed : MountPoint → SessionPtr → Option Reply × Option Error → M W (Option Error)
  unfolding kill forget
  closed mount_point s (reply, err) = do
    failed ← has_failed reply err
    _ ← if failed then kill mount_point s else pure (none, none)
    forget mount_point s

  -- The block that ends the session.
  unfoldable pub end_session : MountPoint → SessionPtr → M W (Option Error)
  unfolding closed
  end_session mount_point s =
      Io.sync_rpc P (some s) Message.new_close_session mount_point.spec.timeout
      >>= closed mount_point s

  unfoldable pub manage_clean_up_logic : MountPoint → M W (Option Error)
  unfolding lookup get_namespaced_name end_session
  manage_clean_up_logic mount_point = do
    sessions ← get_sessions
    elim (lookup (get_namespaced_name P.text mount_point) sessions) [
      | some s ↦ end_session mount_point s
      | none ↦ pure none
    ]

  -- `ssh.Password(obj.Spec.Username)`, as the source has it.
  unfoldable pub ssh_config : MountPoint → SshConfig
  ssh_config obj = record { user = obj.spec.username; auth_password = obj.spec.username }

  -- `for _, capability := range … { capabilities = append(capabilities, capability) }`
  unfoldable pub append_capabilities : List String → List String → List String
  append_capabilities capabilities [] = capabilities
  append_capabilities capabilities (c ∷ more) = append_capabilities (capabilities ++ (c ∷ [])) more

  -- What follows `session.SendHello`.
  unfoldable pub greeted :
      MountPoint → Option SessionPtr → Option Error → M W (Option Error × MountPoint)
  unfolding get_namespaced_name insert
  greeted obj session err = if is_some err then pure (err, set_status obj "failed") else do
    s ← deref session
    capabilities ← read (P.session_capabilities s)
    sessions ← get_sessions
    put_sessions (insert (get_namespaced_name P.text obj) s sessions)
    pure (none, set_capabilities (set_status obj "connected") capabilities)

  -- From `session.SendHello` on.
  unfoldable pub greet : MountPoint → Option SessionPtr → M W (Option Error × MountPoint)
  unfolding append_capabilities greeted
  greet obj session =
      Io.send_hello P session
        (append_capabilities P.default_capabilities obj.spec.additional_capabilities)
      >>= greeted obj session

  unfoldable pub dial : MountPoint → M W (Option SessionPtr × Option Error)
  unfolding ssh_config seconds
  dial obj =
      if is_zero obj.spec.timeout
      then Io.dial_ssh P obj.spec.target (ssh_config obj)
      else Io.dial_ssh_timeout P obj.spec.target (ssh_config obj) (seconds obj.spec.timeout)

  -- What follows the dial.
  unfoldable pub dialed :
      MountPoint → Option SessionPtr × Option Error → M W (Option Error × MountPoint)
  unfolding greet
  dialed obj (session, err) =
      if is_some err then pure (err, set_status obj "failed") else greet obj session

  unfoldable pub manage_operator_logic : MountPoint → M W (Option Error × MountPoint)
  unfolding dial dialed
  manage_operator_logic obj = dial obj >>= dialed obj

  -- The removal of the finalizer, after the clean-up.
  unfoldable pub release : Object Kind.mount_point → M W Reconciled
  release instance' = do
    let removed = set_meta instance' (P.remove_finalizer instance'.meta mountpoint_finalizer)
    err ← Io.client_update P Kind.mount_point removed
    if is_some err then Io.manage_error P Kind.mount_point removed err else pure settled

  unfoldable pub cleaned_up : Object Kind.mount_point → Option Error → M W Reconciled
  unfolding release
  cleaned_up instance' err =
      if is_some err then Io.manage_error P Kind.mount_point instance' err else release instance'

  -- The branch of an object that is being deleted.
  unfoldable pub finalize : Object Kind.mount_point → M W Reconciled
  unfolding manage_clean_up_logic cleaned_up
  finalize instance' =
      if not (P.has_finalizer instance'.meta mountpoint_finalizer)
      then pure settled
      else (manage_clean_up_logic instance' >>= cleaned_up instance')

  unfoldable pub reconcile : NamespacedName → M W Reconciled
  unfolding is_initialized is_valid finalize manage_operator_logic
  reconcile req = do
    (err, instance') ← Io.client_get P Kind.mount_point req
    elim err [
      | some e ↦
          if P.is_not_found e
          then pure settled
          else Io.manage_error P Kind.mount_point instance' (some e)
      | none ↦ do
        (valid, err) ← is_valid Kind.mount_point instance'
        if not valid then Io.manage_error P Kind.mount_point instance' err else do
          let (initialized, obj) = is_initialized Kind.mount_point instance'
          if not initialized
              then (do
                err ← Io.client_update P Kind.mount_point obj
                if is_some err then Io.manage_error P Kind.mount_point obj err else pure settled)
              else if P.is_being_deleted obj.meta
              then finalize obj
              else do
                (err, obj') ← manage_operator_logic obj
                if is_some err
                    then Io.manage_error P Kind.mount_point obj' err
                    else Io.manage_success P Kind.mount_point obj'
    ]
