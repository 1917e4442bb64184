-- ===== src/Tests/Whole.antt =====
-- The theorems on whole reconciles and on the system, applied.
use netconf_operator.Base.{arith, ◌≡◌, refl, none, some, ◌*◌}
use netconf_operator.Base.Duration.{second, seconds, scale, seconds-eq-scale, pos}
use netconf_operator.Base.GoMap.{lookup}
use netconf_operator.Api.Common.{is_nil}
use netconf_operator.Api.Objects.{Kind, Object}
use netconf_operator.Runtime.{State, All, Within}
use netconf_operator.Runtime.Io
use netconf_operator.Controllers.All
use netconf_operator.Controllers.Common.Dependency.{IsMet}
use netconf_operator.Controllers.Template.Keeps.{after_get}
use netconf_operator.Controllers.Confinement.Device.{Touches}
use netconf_operator.Controllers.Confinement.OneSession.{reconcile-stays_on_session}
use netconf_operator.Controllers.Confinement.Deleted.{reconcile-ignores_deleted}
use netconf_operator.Controllers.Confinement.Unmet.{reconcile-waits_for_dependency}
use netconf_operator.Controllers.MountPoint.OwnKey.{reconcile-keeps_others}
use netconf_operator.Controllers.Lifecycle.{reconcile-enrols_first}
use netconf_operator.Controllers.Requeue.{reconcile-reports_without_session, missing}
use netconf_operator.System.{Step, IsReachable}
use netconf_operator.System.Safety.{IsSafe, IsReachable-IsSafe}
use netconf_operator.Tests.Fixture.{
  lab, Lab, lab-FetchesByName, named, empty_in, connected_in, object, after_lock, apart,
}

lock-unmet : ¬ IsMet lab "lab" after_lock Lab.refuses
lock-unmet (k, supported, (e, h)) = apart "failed" "success" refl h

-- The mount point connects, and then a lock is taken.
abbrev connected_state : State Lab
connected_state = (All.reconcile lab Kind.mount_point (named "router") (empty_in Lab.agrees)).1

abbrev locked_state : State Lab
locked_state = (All.reconcile lab Kind.lock (named "lock1") connected_state).1

locked : IsReachable lab locked_state
locked =
    IsReachable.stepped
      (IsReachable.stepped (IsReachable.started Lab.agrees)
        (Step.reconciled Kind.mount_point (named "router") (empty_in Lab.agrees)))
      (Step.reconciled Kind.lock (named "lock1") connected_state)

IsReachable-IsSafe_example : All (IsSafe lab) locked_state.calls
IsReachable-IsSafe_example = IsReachable-IsSafe lab lab-FetchesByName locked_state locked

reconcile-stays_on_session_example :
    Within
      (Touches (lookup "lab/router" (connected_in Lab.agrees).sessions))
      (connected_in Lab.agrees)
      (All.reconcile lab Kind.edit_config (named "edit1") (connected_in Lab.agrees)).1
reconcile-stays_on_session_example =
    reconcile-stays_on_session lab lab-FetchesByName Kind.edit_config (named "edit1")
      (connected_in Lab.agrees) (λ e. cc)

reconcile-waits_for_dependency_example :
    Within
      (Touches none)
      (connected_in Lab.refuses)
      (All.reconcile lab Kind.unlock (named "unlock1") (connected_in Lab.refuses)).1
unfolding is_nil
reconcile-waits_for_dependency_example =
    reconcile-waits_for_dependency lab Kind.unlock (named "unlock1") (connected_in Lab.refuses)
      after_lock refl refl lock-unmet

reconcile-ignores_deleted_example :
    Within
      (Touches none)
      (connected_in Lab.agrees)
      (All.reconcile lab Kind.lock (named "gone") (connected_in Lab.agrees)).1
reconcile-ignores_deleted_example =
    reconcile-ignores_deleted lab Kind.lock (named "gone") (connected_in Lab.agrees) (λ h. h) refl

reconcile-keeps_others_example :
    lookup "lab/router"
      (All.reconcile lab Kind.mount_point (named "other") (connected_in Lab.agrees)).1.sessions
    ≡ lookup "lab/router" (connected_in Lab.agrees).sessions
reconcile-keeps_others_example =
    reconcile-keeps_others lab (named "other") (connected_in Lab.agrees) "lab/router"
      (apart "lab/other" "lab/router" refl)

reconcile-reports_without_session_example :
    All.reconcile lab Kind.lock (named "lock1") (empty_in Lab.agrees)
    ≡ Io.manage_error_with_requeue lab Kind.lock
        (object Kind.lock (named "lock1") Lab.agrees)
        (some (missing Kind.lock (object Kind.lock (named "lock1") Lab.agrees)))
        (2 * second)
        (after_get lab Kind.mount_point
          (named "router")
          (after_get lab Kind.lock (named "lock1") (empty_in Lab.agrees)))
unfolding lookup
reconcile-reports_without_session_example =
    reconcile-reports_without_session lab lab-FetchesByName Kind.lock (named "lock1")
      (empty_in Lab.agrees) (object Kind.lock (named "lock1") Lab.agrees) (λ e. cc) refl refl

seconds-eq-scale_example : seconds (pos 2147483647) ≡ scale second (pos 2147483647)
seconds-eq-scale_example = seconds-eq-scale (pos 2147483647) (omega arith)

reconcile-enrols_first_example :
    Within
      (Touches none)
      (empty_in Lab.agrees)
      (All.reconcile lab Kind.mount_point (named "new") (empty_in Lab.agrees)).1
reconcile-enrols_first_example =
    reconcile-enrols_first lab Kind.mount_point (named "new") (empty_in Lab.agrees) tt refl

abbrev leaving : Object Kind.mount_point
leaving = object Kind.mount_point (named "router") Lab.agrees
