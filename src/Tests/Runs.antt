-- ===== src/Tests/Runs.antt =====
-- Runs on the laboratory.
use netconf_operator.Base.{◌≡◌, refl, [], ◌∷◌, none, pos}
use netconf_operator.Base.Duration.{seconds}
use netconf_operator.Base.Rune.{rune_text}
use netconf_operator.Api.Objects.{Kind}
use netconf_operator.Runtime.{Message, ok, panic}
use netconf_operator.Controllers.Sequence.Order.{sent}
use netconf_operator.Controllers.All
use netconf_operator.Controllers.MountPoint
use netconf_operator.Controllers.Lock
use netconf_operator.Controllers.EditConfig
use netconf_operator.Controllers.Common.{validate_dependency}
use netconf_operator.Tests.Fixture.{lab, Lab, named, empty_in, connected_in, object, after_lock}

-- `string(rune(65))` is a letter, and no decimal numeral.
rune_text_65 : rune_text (pos 65) ≡ "A"
unfolding rune_text
rune_text_65 = refl

seconds_10 : seconds (pos 10) ≡ pos 10000000000
unfolding seconds
seconds_10 = refl

-- A connection stores the session under the mount point's name.
connects :
    (All.reconcile lab Kind.mount_point (named "router") (empty_in Lab.agrees)).1.sessions
    ≡ ("lab/router", 5) ∷ []
unfolding All.reconcile MountPoint.reconcile
connects = refl

-- A deleted mount point is disconnected.
disconnects :
    (MountPoint.finalize lab
      (object Kind.mount_point (named "router") Lab.agrees)
      (connected_in Lab.agrees)).1.sessions
    ≡ []
unfolding MountPoint.finalize
disconnects = refl

-- A device that refuses the closing RPC gets a kill with a letter for an id.
kills :
    sent
      (MountPoint.finalize lab
        (object Kind.mount_point (named "router") Lab.agrees)
        (connected_in Lab.refuses)).1.calls
    ≡ Message.new_kill_session "A" ∷ Message.new_close_session ∷ []
unfolding MountPoint.finalize
kills = refl

-- A silent device crashes the operator that wants a lock.
crashes : (All.reconcile lab Kind.lock (named "lock1") (connected_in Lab.silent)).0 ≡ panic
unfolding All.reconcile Lock.reconcile
crashes = refl

-- The order of the RPCs of an `EditConfig`, the latest first.
edits :
    sent (All.reconcile lab Kind.edit_config (named "edit1") (connected_in Lab.agrees)).1.calls
    ≡ Message.new_unlock "candidate"
      ∷ Message.new_edit_config "candidate" "merge" "<a/>"
      ∷ Message.new_lock "candidate"
      ∷ []
unfolding All.reconcile EditConfig.reconcile
edits = refl

-- A lock that has succeeded is a dependency that is met.
dependency_met : (validate_dependency lab "lab" after_lock (empty_in Lab.agrees)).0 ≡ ok none
unfolding validate_dependency
dependency_met = refl
