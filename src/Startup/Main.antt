-- ===== src/Startup/Main.antt =====
-- main.go
-- `main` is cut where it may end the process: each function is the rest of the body from there on.
use netconf_operator.Base.{Option, is_some, false, if◌then◌else◌}
use netconf_operator.Runtime.{Error}
use netconf_operator.Startup.Host.{
  Host, Manager, Flags, Options, SetupCall, B, pure, exits, deref, must, called, called_or_exit,
  local, ◌>>=◌, ◌>>◌,
}
use netconf_operator.Startup.Registration.{
  add_mount_point, add_lock, add_unlock, add_edit_config, add_get, add_get_config, add_commit,
  add_rpc, add_establish_subscription, add_create_subscription,
}

abbrev pub default_flags : Flags
default_flags = record {
  metrics_addr = ":8080";
  probe_addr = ":8081";
  enable_leader_election = false;
}

abbrev pub options_of : Flags → Options
options_of f = record {
  metrics_bind_address = f.metrics_addr;
  port = 9443;
  health_probe_bind_address = f.probe_addr;
  leader_election = f.enable_leader_election;
  leader_election_id = "6c6d728d.openshift-telco.io";
  leader_election_resource_lock = "configmaps";
}

module _ {W : Type 0} (H : Host W) where
  unfoldable pub init : B W (Unit {0})
  init = do
    err ← called SetupCall.add_client_go_to_scheme H.add_client_go_to_scheme
    must err
    err' ← called SetupCall.add_netconf_to_scheme H.add_netconf_to_scheme
    must err'

  -- The ten registrations. Their errors are logged and dropped.
  unfoldable pub register : Manager → B W (Unit {0})
  unfolding add_mount_point add_lock add_unlock add_edit_config add_get add_get_config add_commit
      add_rpc add_establish_subscription add_create_subscription
  register mgr = do
    _ ← add_mount_point H mgr
    _ ← add_lock H mgr
    _ ← add_unlock H mgr
    _ ← add_edit_config H mgr
    _ ← add_get H mgr
    _ ← add_get_config H mgr
    _ ← add_commit H mgr
    _ ← add_rpc H mgr
    _ ← add_establish_subscription H mgr
    _ ← add_create_subscription H mgr
    pure tt

  -- `mgr.Start` and what follows.
  unfoldable pub run : B W (Unit {0})
  run = do err ← called SetupCall.start H.start; if is_some err then exits else pure tt

  -- From the ready check on.
  unfoldable pub ready : B W (Unit {0})
  unfolding run
  ready = do
    err ← called (SetupCall.add_readyz_check "readyz") (H.add_readyz_check "readyz")
    if is_some err then exits else run

  -- From the health check on.
  unfoldable pub serve : B W (Unit {0})
  unfolding ready
  serve = do
    err ← called (SetupCall.add_healthz_check "healthz") (H.add_healthz_check "healthz")
    if is_some err then exits else ready

  -- What follows `ctrl.NewManager`.
  unfoldable pub managed : Option Manager × Option Error → B W (Unit {0})
  unfolding register serve
  managed (mgr, err) = if is_some err then exits else do m ← deref mgr; register m; serve

  unfoldable pub main : B W (Unit {0})
  unfolding managed
  main = do
    flags ← local (H.parse default_flags)
    called_or_exit SetupCall.get_config_or_die H.get_config_or_die
    called (SetupCall.new_manager (options_of flags)) (H.new_manager (options_of flags)) >>= managed
