-- ===== src/Tests/Delivery.antt =====
-- The theorems on dependencies and notifications, applied.
use netconf_operator.Base.{◌≡◌, refl, ◌↔◌, ◌⊎◌, none, is_some, true}
use netconf_operator.Api.Objects.{Kind}
use netconf_operator.Runtime.{ok, exit, Callback}
use netconf_operator.Controllers.Common.{validate_dependency, send_to_kafka}
use netconf_operator.Controllers.Common.Dependency.{
  IsMet, reports_error, validate_dependency-decides,
}
use netconf_operator.Controllers.Notify.{notify}
use netconf_operator.Controllers.Notify.Delivery.{
  send_to_kafka-exits, send_to_kafka-delivers, delivery,
}
use netconf_operator.Controllers.Notify.Whole.{Handles, notify-Delivers}
use netconf_operator.Tests.Fixture.{lab, Lab, named, kafka, object, after_lock, empty_in}

validate_dependency-decides_example :
    (IsMet lab "lab" after_lock Lab.agrees
      × ((validate_dependency lab "lab" after_lock (empty_in Lab.agrees)).0 ≡ ok none))
    ⊎ ((¬ IsMet lab "lab" after_lock Lab.agrees)
        × (reports_error (validate_dependency lab "lab" after_lock (empty_in Lab.agrees)).0 ≡ true))
validate_dependency-decides_example =
    validate_dependency-decides lab "lab" after_lock (empty_in Lab.agrees)

send_to_kafka-exits_example :
    ((send_to_kafka lab "<n/>" kafka (empty_in Lab.agrees)).0 ≡ exit)
    ↔ (is_some (lab.kafka_dial_leader kafka Lab.agrees).0.1 ≡ true)
send_to_kafka-exits_example = send_to_kafka-exits lab "<n/>" kafka (empty_in Lab.agrees)

send_to_kafka-delivers_example :
    (send_to_kafka lab "<n/>" kafka (empty_in Lab.agrees)).1.calls
    ≡ delivery lab "<n/>" kafka (empty_in Lab.agrees) 3
unfolding send_to_kafka
send_to_kafka-delivers_example =
    send_to_kafka-delivers lab "<n/>" kafka (empty_in Lab.agrees) 3 refl refl

abbrev callback : Callback
callback =
    Callback.on_create_subscription (object Kind.create_subscription (named "sub1") Lab.agrees)

notify-Delivers_example :
    Handles lab callback "<n/>"
      (empty_in Lab.agrees)
      (notify lab callback "<n/>" (empty_in Lab.agrees))
    × ((notify lab callback "<n/>" (empty_in Lab.agrees)).1.sessions
        ≡ (empty_in Lab.agrees).sessions)
notify-Delivers_example = notify-Delivers lab callback "<n/>" (empty_in Lab.agrees)
