-- ===== src/Controllers/CreateSubscription/Stream.antt =====
-- The work of a `CreateSubscription`.
use netconf_operator.Base.{◌≡◌, Option, none, some}
use netconf_operator.Base.GoMap.{lookup}
use netconf_operator.Api.Objects.{Kind, CreateSubscription, device_name}
use netconf_operator.Runtime.{Platform, State, Outcome, ok, panic, exit, Error, Call, Callback}
use netconf_operator.Controllers.Assign.{set_status}
use netconf_operator.Controllers.CreateSubscription

abbrev pub IsStreamed : CreateSubscription → Outcome (Option Error × CreateSubscription) → Type 0
IsStreamed o (ok (none, o')) = o' ≡ set_status o "subscribed"
IsStreamed o (ok (some e, o')) = o' ≡ set_status o "failed"
IsStreamed o panic = Unit
IsStreamed o exit = Unit

module _ {W : Type 0} (P : Platform W) (o : CreateSubscription) (s : State W) where
  -- The call on the session of the object's mount point.
  abbrev pub stream_call : Call
  stream_call =
      Call.create_notification_stream
        (lookup (P.text (device_name Kind.create_subscription o)) s.sessions) o.spec.timeout
        o.spec.stop_time o.spec.start_time o.spec.stream (Callback.on_create_subscription o)
