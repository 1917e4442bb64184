-- ===== src/Startup/Registration.antt =====
-- The registration of the ten controllers (controllers/*_controller.go, with the names of
-- controllers/common.go). Go's `AddX` is `add_x`, and its `addX` is `add_x_reconciler`.
use netconf_operator.Base.{String, Option, none, some, is_some, if◌then◌else◌}
use netconf_operator.Api.Objects.{Kind}
use netconf_operator.Runtime.{Error}
use netconf_operator.Startup.Host.{
  Host, Manager, Reconciler, ReconcilerBase, SetupCall, B, pure, deref, called, ◌>>=◌,
}

abbrev pub mount_point_controller_name : String
mount_point_controller_name = "mountpoint"

abbrev pub lock_controller_name : String
lock_controller_name = "lock"

abbrev pub unlock_controller_name : String
unlock_controller_name = "unlock"

abbrev pub edit_config_controller_name : String
edit_config_controller_name = "edit-config"

abbrev pub commit_controller_name : String
commit_controller_name = "commit"

abbrev pub get_controller_name : String
get_controller_name = "get"

abbrev pub get_config_controller_name : String
get_config_controller_name = "get-config"

abbrev pub rpc_controller_name : String
rpc_controller_name = "RPC"

abbrev pub create_subscription_controller_name : String
create_subscription_controller_name = "create-subscription"

abbrev pub establish_subscription_controller_name : String
establish_subscription_controller_name = "establish-subscription"

module _ {W : Type 0} (H : Host W) where
  -- `util.NewReconcilerBase` of the parts that each of the reconcilers takes from the manager.
  abbrev pub base_of : String → Manager → ReconcilerBase
  base_of name mgr = record {
    client = H.get_client mgr;
    scheme = H.get_scheme mgr;
    config = H.get_config mgr;
    recorder = H.get_event_recorder_for mgr name;
    api_reader = H.get_api_reader mgr;
  }

  -- The body that the ten `addX` share: a controller of a name, and a watch of a kind.
  unfoldable pub add_reconciler : String → Kind → Manager → Reconciler → B W (Option Error)
  add_reconciler name k mgr r = do
    (c, err) ← called (SetupCall.new_controller name mgr r) (H.new_controller name mgr r)
    if is_some err then pure err else do
      c' ← deref c
      err' ← called (SetupCall.watch c' k) (H.watch c' k)
      if is_some err' then pure err' else pure none

  unfoldable pub new_mount_point_reconciler : Manager → Reconciler
  new_mount_point_reconciler mgr = record {
    kind = Kind.mount_point;
    base = base_of mount_point_controller_name mgr;
    recorder = none;
  }

  unfoldable pub add_mount_point_reconciler : Manager → Reconciler → B W (Option Error)
  unfolding add_reconciler
  add_mount_point_reconciler = add_reconciler mount_point_controller_name Kind.mount_point

  unfoldable pub add_mount_point : Manager → B W (Option Error)
  unfolding new_mount_point_reconciler add_mount_point_reconciler
  add_mount_point mgr = add_mount_point_reconciler mgr (new_mount_point_reconciler mgr)

  unfoldable pub new_lock_reconciler : Manager → Reconciler
  new_lock_reconciler mgr = record {
    kind = Kind.lock;
    base = base_of lock_controller_name mgr;
    recorder = none;
  }

  unfoldable pub add_lock_reconciler : Manager → Reconciler → B W (Option Error)
  unfolding add_reconciler
  add_lock_reconciler = add_reconciler lock_controller_name Kind.lock

  unfoldable pub add_lock : Manager → B W (Option Error)
  unfolding new_lock_reconciler add_lock_reconciler
  add_lock mgr = add_lock_reconciler mgr (new_lock_reconciler mgr)

  unfoldable pub new_unlock_reconciler : Manager → Reconciler
  new_unlock_reconciler mgr = record {
    kind = Kind.unlock;
    base = base_of unlock_controller_name mgr;
    recorder = none;
  }

  unfoldable pub add_unlock_reconciler : Manager → Reconciler → B W (Option Error)
  unfolding add_reconciler
  add_unlock_reconciler = add_reconciler unlock_controller_name Kind.unlock

  unfoldable pub add_unlock : Manager → B W (Option Error)
  unfolding new_unlock_reconciler add_unlock_reconciler
  add_unlock mgr = add_unlock_reconciler mgr (new_unlock_reconciler mgr)

  unfoldable pub new_edit_config_reconciler : Manager → Reconciler
  new_edit_config_reconciler mgr = record {
    kind = Kind.edit_config;
    base = base_of edit_config_controller_name mgr;
    recorder = none;
  }

  unfoldable pub add_edit_config_reconciler : Manager → Reconciler → B W (Option Error)
  unfolding add_reconciler
  add_edit_config_reconciler = add_reconciler edit_config_controller_name Kind.edit_config

  unfoldable pub add_edit_config : Manager → B W (Option Error)
  unfolding new_edit_config_reconciler add_edit_config_reconciler
  add_edit_config mgr = add_edit_config_reconciler mgr (new_edit_config_reconciler mgr)

  unfoldable pub new_commit_reconciler : Manager → Reconciler
  new_commit_reconciler mgr = record {
    kind = Kind.commit;
    base = base_of commit_controller_name mgr;
    recorder = none;
  }

  unfoldable pub add_commit_reconciler : Manager → Reconciler → B W (Option Error)
  unfolding add_reconciler
  add_commit_reconciler = add_reconciler commit_controller_name Kind.commit

  unfoldable pub add_commit : Manager → B W (Option Error)
  unfolding new_commit_reconciler add_commit_reconciler
  add_commit mgr = add_commit_reconciler mgr (new_commit_reconciler mgr)

  unfoldable pub new_get_reconciler : Manager → Reconciler
  new_get_reconciler mgr = record {
    kind = Kind.get;
    base = base_of get_controller_name mgr;
    recorder = none;
  }

  unfoldable pub add_get_reconciler : Manager → Reconciler → B W (Option Error)
  unfolding add_reconciler
  add_get_reconciler = add_reconciler get_controller_name Kind.get

  unfoldable pub add_get : Manager → B W (Option Error)
  unfolding new_get_reconciler add_get_reconciler
  add_get mgr = add_get_reconciler mgr (new_get_reconciler mgr)

  unfoldable pub new_get_config_reconciler : Manager → Reconciler
  new_get_config_reconciler mgr = record {
    kind = Kind.get_config;
    base = base_of get_config_controller_name mgr;
    recorder = none;
  }

  unfoldable pub add_get_config_reconciler : Manager → Reconciler → B W (Option Error)
  unfolding add_reconciler
  add_get_config_reconciler = add_reconciler get_config_controller_name Kind.get_config

  unfoldable pub add_get_config : Manager → B W (Option Error)
  unfolding new_get_config_reconciler add_get_config_reconciler
  add_get_config mgr = add_get_config_reconciler mgr (new_get_config_reconciler mgr)

  unfoldable pub new_rpc_reconciler : Manager → Reconciler
  new_rpc_reconciler mgr = record {
    kind = Kind.rpc;
    base = base_of rpc_controller_name mgr;
    recorder = none;
  }

  unfoldable pub add_rpc_reconciler : Manager → Reconciler → B W (Option Error)
  unfolding add_reconciler
  add_rpc_reconciler = add_reconciler rpc_controller_name Kind.rpc

  unfoldable pub add_rpc : Manager → B W (Option Error)
  unfolding new_rpc_reconciler add_rpc_reconciler
  add_rpc mgr = add_rpc_reconciler mgr (new_rpc_reconciler mgr)

  unfoldable pub new_create_subscription_reconciler : Manager → Reconciler
  new_create_subscription_reconciler mgr = record {
    kind = Kind.create_subscription;
    base = base_of create_subscription_controller_name mgr;
    recorder = some (H.get_event_recorder_for mgr create_subscription_controller_name);
  }

  unfoldable pub add_create_subscription_reconciler : Manager → Reconciler → B W (Option Error)
  unfolding add_reconciler
  add_create_subscription_reconciler =
      add_reconciler create_subscription_controller_name Kind.create_subscription

  unfoldable pub add_create_subscription : Manager → B W (Option Error)
  unfolding new_create_subscription_reconciler add_create_subscription_reconciler
  add_create_subscription mgr =
      add_create_subscription_reconciler mgr (new_create_subscription_reconciler mgr)

  unfoldable pub new_establish_subscription_reconciler : Manager → Reconciler
  new_establish_subscription_reconciler mgr = record {
    kind = Kind.establish_subscription;
    base = base_of establish_subscription_controller_name mgr;
    recorder = some (H.get_event_recorder_for mgr establish_subscription_controller_name);
  }

  unfoldable pub add_establish_subscription_reconciler : Manager → Reconciler → B W (Option Error)
  unfolding add_reconciler
  add_establish_subscription_reconciler =
      add_reconciler establish_subscription_controller_name Kind.establish_subscription

  unfoldable pub add_establish_subscription : Manager → B W (Option Error)
  unfolding new_establish_subscription_reconciler add_establish_subscription_reconciler
  add_establish_subscription mgr =
      add_establish_subscription_reconciler mgr (new_establish_subscription_reconciler mgr)
