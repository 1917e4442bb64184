-- ===== src/Tests/Endings.antt =====
-- How reconciles end on the laboratory.
use netconf_operator.Base.GoMap.{lookup}
use netconf_operator.Runtime.Io
use netconf_operator.Controllers.Template.Keeps.{after_get}
use netconf_operator.Controllers.OneRpc.{OneRpc}
use netconf_operator.Controllers.OneRpc.Report.{recorded, session_of}
use netconf_operator.Controllers.OneRpc.Whole.{after_rpc, reconcile-records}
use netconf_operator.Controllers.Get
use netconf_operator.Base.{true, ◌≡◌, refl, none, some}
use netconf_operator.Api.Objects.{Kind, Object}
use netconf_operator.Runtime.{State, ok}
use netconf_operator.Runtime.Finishes.{Stops}
use netconf_operator.Controllers.All
use netconf_operator.Controllers.Completion.Answers.{Returning}
use netconf_operator.Controllers.Completion.Whole.{Crashes, reconcile-Stops_or_Crashes}
use netconf_operator.Tests.Fixture.{
  Lab, agrees, silent, lab, reply, lab-FetchesByName, lab-Replies, named, connected_in, object,
}

lab-Returning : Returning lab
lab-Returning = record {
  named = lab-FetchesByName;
  replies = lab-Replies;
  builds = λ m w h. cc;
  greets = λ p capabilities w h. cc;
  streams = λ p t stop start stream f w h. cc;
}

-- The device stays silent, and the reconcile of a lock panics.
reconcile-Stops_or_Crashes_example :
    Stops
      (Crashes lab Kind.lock)
      (All.reconcile lab Kind.lock (named "lock1") (connected_in silent))
reconcile-Stops_or_Crashes_example =
    reconcile-Stops_or_Crashes lab lab-Returning Kind.lock (named "lock1") (connected_in silent)

-- A get that the device answers.
abbrev getter : Object Kind.get
getter = object Kind.get (named "get1") agrees

abbrev validated : State Lab
validated =
    ((All.hooks lab Kind.get).is_valid getter
      (after_get lab Kind.get (named "get1") (connected_in agrees))).1

getter_valid :
    ((All.hooks lab Kind.get).is_valid getter
      (after_get lab Kind.get (named "get1") (connected_in agrees))).0
    ≡ ok (true, none)
unfolding All.hooks Get.is_valid lookup
getter_valid = refl

getter_live : session_of lab OneRpc.get getter validated ≡ some 5
unfolding All.hooks Get.is_valid lookup
getter_live = refl

reconcile-records_example :
    All.reconcile lab Kind.get (named "get1") (connected_in agrees)
    ≡ Io.manage_success lab Kind.get
        (recorded OneRpc.get getter (reply none))
        (after_rpc lab OneRpc.get getter 5 validated)
unfolding All.hooks Get.is_valid
reconcile-records_example =
    reconcile-records lab OneRpc.get (named "get1") none 5 (reply none) (connected_in agrees) refl
      getter_valid refl tt getter_live refl refl
