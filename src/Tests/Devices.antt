-- ===== src/Tests/Devices.antt =====
-- The theorems on the work with a device, applied.
use netconf_operator.Base.{◌≡◌, ◌⊎◌, refl, [], ◌∷◌, Option, none, some}
use netconf_operator.Base.GoMap.{lookup}
use netconf_operator.Api.Objects.{
  Kind, Object, any, EstablishSubscription, EditConfig, MountPoint, CreateSubscription,
}
use netconf_operator.Runtime.{ok, panic, Error, Reply, Call, ◌>>=◌}
use netconf_operator.Runtime.Returns.{Returns}
use netconf_operator.Controllers.OneRpc.{
  OneRpc, send, one_rpc, answer, message_of, timeout_of, send-eq-one_rpc,
}
use netconf_operator.Controllers.OneRpc.Report.{
  recorded, answer_of, send-records_or_crashes, refused-manage_success,
}
use netconf_operator.Controllers.Template.{report}
use netconf_operator.Controllers.Sequence.Order.{Follows, plan, from_lock-Follows-plan}
use netconf_operator.Controllers.Sequence.Status.{IsReport, manage_operator_logic-IsReport}
use netconf_operator.Controllers.MountPoint.Connect.{
  Connects, manage_operator_logic-Connects, password-is_ignored, with_password,
}
use netconf_operator.Controllers.MountPoint.Greeting.{
  Greets, dial_call, manage_operator_logic-Greets,
}
use netconf_operator.Controllers.MountPoint.CleanUp.{
  Ends, BuildsClosing, answer_to_close, manage_clean_up_logic-Ends,
}
use netconf_operator.Controllers.EstablishSubscription.RoundTrip.{
  Subscribes, asking, unsubscribing, manage_operator_logic-Subscribes,
  manage_clean_up_logic-unsubscribes,
}
use netconf_operator.Controllers.CreateSubscription
use netconf_operator.Controllers.EstablishSubscription
use netconf_operator.Controllers.EditConfig
use netconf_operator.Controllers.MountPoint
use netconf_operator.Controllers.All
use netconf_operator.Tests.Fixture.{
  lab, Lab, reply, lab-Replies, named, empty_in, connected_in, object, apart,
}

abbrev router : MountPoint
router = object Kind.mount_point (named "router") Lab.agrees

abbrev edit : EditConfig
edit = object Kind.edit_config (named "edit1") Lab.agrees

abbrev subscription : EstablishSubscription
subscription = object Kind.establish_subscription (named "sub1") Lab.agrees

abbrev lock : (w : Lab) → Object Kind.lock
lock w = object Kind.lock (named "lock1") w

from_lock-Follows-plan_example :
    Follows
      (plan edit)
      (connected_in Lab.agrees)
      (EditConfig.from_lock lab edit (connected_in Lab.agrees))
from_lock-Follows-plan_example = from_lock-Follows-plan lab edit (connected_in Lab.agrees)

manage_operator_logic-IsReport_example :
    Returns (IsReport edit) (EditConfig.manage_operator_logic lab edit (connected_in Lab.agrees))
manage_operator_logic-IsReport_example =
    manage_operator_logic-IsReport lab edit (connected_in Lab.agrees)

send-eq-one_rpc_example :
    send lab OneRpc.lock (lock Lab.agrees) (connected_in Lab.agrees)
    ≡ one_rpc lab
        (lookup "lab/router" (connected_in Lab.agrees).sessions)
        (message_of OneRpc.lock (lock Lab.agrees))
        (timeout_of OneRpc.lock (lock Lab.agrees))
        (answer OneRpc.lock (lock Lab.agrees))
        (connected_in Lab.agrees)
send-eq-one_rpc_example =
    send-eq-one_rpc lab OneRpc.lock (lock Lab.agrees) (connected_in Lab.agrees)

send-records_or_crashes_example :
    ((r : Reply) × (answer_of lab OneRpc.lock (lock Lab.silent) (some 5) (connected_in Lab.silent)
        ≡ ok (some r, none))
      × ((send lab OneRpc.lock (lock Lab.silent) (connected_in Lab.silent)).0
          ≡ ok (none, recorded OneRpc.lock (lock Lab.silent) r)))
    ⊎ ((e : Error) × (answer_of lab OneRpc.lock (lock Lab.silent) (some 5) (connected_in Lab.silent)
          ≡ ok (none, some e))
        × ((send lab OneRpc.lock (lock Lab.silent) (connected_in Lab.silent)).0 ≡ panic))
unfolding lookup
send-records_or_crashes_example =
    send-records_or_crashes lab lab-Replies OneRpc.lock (lock Lab.silent) (connected_in Lab.silent)
      5 refl refl

refused-manage_success_example :
    let told = recorded OneRpc.lock (lock Lab.refuses) (reply (some ("lock-denied" ∷ []))) in
    (told.status.status ≡ "failed")
    × (((send lab OneRpc.lock (lock Lab.refuses) >>= report lab Kind.lock (All.hooks lab Kind.lock))
          (connected_in Lab.refuses)).1.calls
        ≡ Call.manage_success (any Kind.lock told)
          ∷ (send lab OneRpc.lock (lock Lab.refuses) (connected_in Lab.refuses)).1.calls)
refused-manage_success_example =
    refused-manage_success lab OneRpc.lock (All.hooks lab Kind.lock) (lock Lab.refuses)
      (connected_in Lab.refuses) (reply (some ("lock-denied" ∷ []))) ("lock-denied" ∷ []) refl refl
      refl

manage_operator_logic-Connects_example :
    Connects lab router
      (empty_in Lab.agrees)
      (MountPoint.manage_operator_logic lab router (empty_in Lab.agrees))
manage_operator_logic-Connects_example =
    manage_operator_logic-Connects lab router (empty_in Lab.agrees)

password-is_ignored_example :
    (MountPoint.manage_operator_logic lab (with_password "wrong" router) (empty_in Lab.agrees)).1
    ≡ (MountPoint.manage_operator_logic lab router (empty_in Lab.agrees)).1
password-is_ignored_example = password-is_ignored lab router "wrong" (empty_in Lab.agrees)

builds : BuildsClosing lab
builds = (λ w. refl, λ id w. refl)

manage_clean_up_logic-Ends_example :
    (x : Option Reply × Option Error) × (answer_to_close lab router 5 (connected_in Lab.refuses)
      ≡ ok x)
    × Ends lab router 5
        (connected_in Lab.refuses)
        x
        (MountPoint.manage_clean_up_logic lab router (connected_in Lab.refuses))
unfolding lookup
manage_clean_up_logic-Ends_example =
    manage_clean_up_logic-Ends lab lab-Replies builds router 5 (connected_in Lab.refuses) refl

manage_operator_logic-Subscribes_example :
    Subscribes subscription 5
      (some (reply none), none)
      (Call.sync_rpc (some 5) (asking lab subscription 5) subscription.spec.timeout
        ∷ Call.new_message (asking lab subscription 5)
        ∷ [])
      (EstablishSubscription.manage_operator_logic lab subscription (connected_in Lab.agrees))
unfolding lookup
manage_operator_logic-Subscribes_example =
    manage_operator_logic-Subscribes lab subscription 5 (connected_in Lab.agrees)
      (some (reply none), none) refl refl refl

manage_clean_up_logic-unsubscribes_example :
    (EstablishSubscription.manage_clean_up_logic lab subscription (connected_in Lab.agrees)).1.calls
    ≡ unsubscribing lab subscription 5 (connected_in Lab.agrees).calls
unfolding lookup
manage_clean_up_logic-unsubscribes_example =
    manage_clean_up_logic-unsubscribes lab subscription 5 (connected_in Lab.agrees)
      (apart "7" "" refl) refl (λ w. refl)

abbrev stream : CreateSubscription
stream = object Kind.create_subscription (named "sub2") Lab.agrees

manage_operator_logic-Greets_example :
    Greets lab router
      (dial_call lab router ∷ [])
      (MountPoint.manage_operator_logic lab router (connected_in Lab.agrees)).1.calls
manage_operator_logic-Greets_example =
    manage_operator_logic-Greets lab router (connected_in Lab.agrees)
