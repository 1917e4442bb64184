-- ===== src/Controllers/Notify.antt =====
-- The closures `callback` and `notificationCallback` (controllers/createsubscription_controller.go,
-- controllers/establishsubscription_controller.go), which the client library runs on a notification.
pub mod Delivery
pub mod Whole
use netconf_operator.Base.{String, if◌then◌else◌}
use netconf_operator.Api.Common.{KafkaSink}
use netconf_operator.Api.Objects.{Kind, AnyObject, any}
use netconf_operator.Runtime.{◌>>=◌, Platform, M, pure, Callback}
use netconf_operator.Runtime.Io
use netconf_operator.Controllers.Common.{send_to_kafka}

-- What the object of a callback configures, the object as the recorder gets it, and the reason.
abbrev pub sink_of : Callback → KafkaSink
sink_of (Callback.on_create_subscription o) = o.spec.kafka_sink
sink_of (Callback.on_establish_subscription o) = o.spec.kafka_sink

abbrev pub subject_of : Callback → AnyObject
subject_of (Callback.on_create_subscription o) = any Kind.create_subscription o
subject_of (Callback.on_establish_subscription o) = any Kind.establish_subscription o

abbrev pub reason_of : Callback → String
reason_of (Callback.on_create_subscription o) = "NewCreateSubscriptionNotification"
reason_of (Callback.on_establish_subscription o) = "NewEstablishSubscriptionNotification"

module _ {W : Type 0} (P : Platform W) where
  -- The closures differ in the object and the reason. An error of `SendToKafka` is dropped.
  unfoldable pub notify : Callback → String → M W (Unit {0})
  unfolding send_to_kafka
  notify c raw_reply =
      if (sink_of c).enabled
      then (do _ ← send_to_kafka P raw_reply (sink_of c); pure tt)
      else Io.eventf P (subject_of c) "Normal" (reason_of c) raw_reply
