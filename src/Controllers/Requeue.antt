-- ===== src/Controllers/Requeue.antt =====
-- An operation whose mount point is not connected.
use netconf_operator.Base.{◌≡◌, ◌≢◌, refl, ◌<>◌, ◌*◌, false, none, some, Option, arith}
use netconf_operator.Base.Duration.{second}
use netconf_operator.Base.GoMap.{lookup}
use netconf_operator.Api.Meta.{NamespacedName}
use netconf_operator.Api.Objects.{Kind, Object, device_of, device_name, get_namespaced_name}
use netconf_operator.Runtime.{Platform, State, ok, Error, errorf, FetchesByName}
use netconf_operator.Runtime.Io
use netconf_operator.Controllers.Common.{check_mount_point_exists}
use netconf_operator.Controllers.Template.{fetched, judge, judged, reconcile}
use netconf_operator.Controllers.Template.Keeps.{after_get}
use netconf_operator.Controllers.All
use netconf_operator.Controllers.Lock
use netconf_operator.Controllers.Unlock
use netconf_operator.Controllers.EditConfig
use netconf_operator.Controllers.Commit
use netconf_operator.Controllers.Get
use netconf_operator.Controllers.GetConfig
use netconf_operator.Controllers.Rpc
use netconf_operator.Controllers.CreateSubscription
use netconf_operator.Controllers.EstablishSubscription

-- The error that validation returns.
abbrev pub missing : (k : Kind) → Object k → Error
missing k o = errorf ("MountPoint " <> device_of k o <> " doesn't exists")

module _ {W : Type 0} (P : Platform W) (named : FetchesByName P) where
  check-missing :
      (n : NamespacedName) (s : State W)
      → lookup (P.text n) s.sessions ≡ none
      → check_mount_point_exists P n s ≡ (ok false, after_get P Kind.mount_point n s)
  unfolding check_mount_point_exists get_namespaced_name
  check-missing n s h = ground (arith, named Kind.mount_point n s.world)

  invalid :
      (k : Kind) (o : Object k) (s : State W)
      → k ≢ Kind.mount_point
      → lookup (P.text (device_name k o)) s.sessions ≡ none
      → (All.hooks P k).is_valid o s
        ≡ (ok (false, some (missing k o)), after_get P Kind.mount_point (device_name k o) s)
  unfolding All.hooks Lock.is_valid Unlock.is_valid EditConfig.is_valid Commit.is_valid Get.is_valid
      GetConfig.is_valid Rpc.is_valid CreateSubscription.is_valid EstablishSubscription.is_valid
  invalid Kind.mount_point o s ne h = absurd (ne refl)
  invalid Kind.lock o s ne h = rw (check-missing (device_name Kind.lock o) s h) refl
  invalid Kind.unlock o s ne h = rw (check-missing (device_name Kind.unlock o) s h) refl
  invalid Kind.edit_config o s ne h = rw (check-missing (device_name Kind.edit_config o) s h) refl
  invalid Kind.commit o s ne h = rw (check-missing (device_name Kind.commit o) s h) refl
  invalid Kind.get o s ne h = rw (check-missing (device_name Kind.get o) s h) refl
  invalid Kind.get_config o s ne h = rw (check-missing (device_name Kind.get_config o) s h) refl
  invalid Kind.rpc o s ne h = rw (check-missing (device_name Kind.rpc o) s h) refl
  invalid Kind.create_subscription o s ne h =
      rw (check-missing (device_name Kind.create_subscription o) s h) refl
  invalid Kind.establish_subscription o s ne h =
      rw (check-missing (device_name Kind.establish_subscription o) s h) refl

  rejects :
      (k : Kind) (o : Object k) (e : Option Error)
      → k ≢ Kind.mount_point
      → (All.hooks P k).reject o e ≡ Io.manage_error_with_requeue P k o e (2 * second)
  unfolding All.hooks
  rejects Kind.mount_point o e ne = absurd (ne refl)
  rejects Kind.lock o e ne = refl
  rejects Kind.unlock o e ne = refl
  rejects Kind.edit_config o e ne = refl
  rejects Kind.commit o e ne = refl
  rejects Kind.get o e ne = refl
  rejects Kind.get_config o e ne = refl
  rejects Kind.rpc o e ne = refl
  rejects Kind.create_subscription o e ne = refl
  rejects Kind.establish_subscription o e ne = refl

-- If the object is read and `Sessions` holds no session of its mount point, the reconcile of any
-- kind but `MountPoint` is exactly this, also for an object that is being deleted: it reads the
-- object, reads the mount point, and returns what `ManageErrorWithRequeue` returns for the object as
-- it was read, an error that names the mount point, and a delay of two seconds. It is given that the
-- client returns the object it was asked for.
pub reconcile-reports_without_session :
    {W : Type 0} (P : Platform W)
    → FetchesByName P
    → (k : Kind) (req : NamespacedName) (s : State W) (o : Object k) → k ≢ Kind.mount_point
    → (P.client_get k req s.world).0 ≡ (none, o)
    → lookup (P.text (device_name k o)) s.sessions ≡ none
    → All.reconcile P k req s
      ≡ Io.manage_error_with_requeue P k o
          (some (missing k o))
          (2 * second)
          (after_get P Kind.mount_point (device_name k o) (after_get P k req s))
unfolding reconcile fetched judge judged
reconcile-reports_without_session P named k req s o ne found h =
    rw
      (
        All.reconcile-eq-template P k req,
        found,
        invalid P named k o (after_get P k req s) ne h,
        rejects P named k o (some (missing k o)) ne,
      )
      refl
