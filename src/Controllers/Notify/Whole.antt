-- ===== src/Controllers/Notify/Whole.antt =====
-- A whole run of a callback (controllers/createsubscription_controller.go,
-- controllers/establishsubscription_controller.go, controllers/common.go).
use netconf_operator.Base.{
  ◌⊎◌, inl, inr, ◌≡◌, refl, ap, String, ◌*◌, Option, none, some, List, ◌∷◌, true, false, Bool,
  is_some,
}
use netconf_operator.Base.Duration.{second}
use netconf_operator.Api.Common.{KafkaSink}
use netconf_operator.Runtime.{
  Platform, State, Outcome, ok, exit, panic, Call, Callback, KafkaConn, Within-sessions, Error,
  ◌>>=◌, pure,
}
use netconf_operator.Controllers.Common.{send_to_kafka}
use netconf_operator.Controllers.Notify.{notify, sink_of, subject_of, reason_of}
use netconf_operator.Controllers.Notify.Delivery.{delivery, HandsOn, notify-HandsOn}

module _ {W : Type 0} (P : Platform W) (text : String) (sink : KafkaSink) (s : State W) where
  -- The worlds after the dial, and after the deadline on a connection.
  abbrev dialed_world : W
  dialed_world = (P.kafka_dial_leader sink s.world).1

  abbrev limited_world : KafkaConn → W
  limited_world k = (P.kafka_set_write_deadline k (10 * second) dialed_world).1

  -- How a delivery ends, by what the broker answers: the outcome of the callback, and its calls, the
  -- latest first.
  pub data Delivers : Outcome (Unit {0}) → List Call → Type 0 where
    undialed :
        is_some (P.kafka_dial_leader sink s.world).0.1 ≡ true
        → Delivers exit (Call.kafka_dial_leader sink ∷ s.calls)
    unconnected :
        (P.kafka_dial_leader sink s.world).0 ≡ (none, none)
        → Delivers panic (Call.kafka_dial_leader sink ∷ s.calls)
    unlimited :
        (k : KafkaConn) (e : Error)
        → (P.kafka_dial_leader sink s.world).0 ≡ (some k, none)
        → (P.kafka_set_write_deadline k (10 * second) dialed_world).0 ≡ some e
        → Delivers
            (ok tt)
            (Call.kafka_set_write_deadline k (10 * second) ∷ Call.kafka_dial_leader sink ∷ s.calls)
    unwritten :
        (k : KafkaConn) (e : Error)
        → (P.kafka_dial_leader sink s.world).0 ≡ (some k, none)
        → (P.kafka_set_write_deadline k (10 * second) dialed_world).0 ≡ none
        → (P.kafka_write_messages k text (limited_world k)).0 ≡ some e
        → Delivers (ok tt) (
            Call.kafka_write_messages k text
            ∷ Call.kafka_set_write_deadline k (10 * second)
            ∷ Call.kafka_dial_leader sink
            ∷ s.calls)
    written :
        (k : KafkaConn)
        → (P.kafka_dial_leader sink s.world).0 ≡ (some k, none)
        → (P.kafka_set_write_deadline k (10 * second) dialed_world).0 ≡ none
        → (P.kafka_write_messages k text (limited_world k)).0 ≡ none
        → Delivers (ok tt) (delivery P text sink s k)

  -- The callback with an enabled sink.
  abbrev Delivering : Outcome (Unit {0}) × State W → Type 0
  Delivering (r, s') = Delivers r s'.calls

  abbrev delivering : Outcome (Unit {0}) × State W
  delivering = (send_to_kafka P text sink >>= λ _. pure tt) s

  closed-Delivers :
      (k : KafkaConn) (c : Option Error)
      → (P.kafka_dial_leader sink s.world).0 ≡ (some k, none)
      → (P.kafka_set_write_deadline k (10 * second) dialed_world).0 ≡ none
      → (P.kafka_write_messages k text (limited_world k)).0 ≡ none
      → (P.kafka_close k (P.kafka_write_messages k text (limited_world k)).1).0 ≡ c
      → Delivering delivering
  unfolding send_to_kafka
  closed-Delivers k none dial limit write close =
      rw (dial) (rw (limit) (rw (write) (rw (close) (Delivers.written k dial limit write))))
  closed-Delivers k (some e) dial limit write close =
      rw (dial) (rw (limit) (rw (write) (rw (close) (Delivers.written k dial limit write))))

  limited-Delivers :
      (k : KafkaConn) (v : Option Error)
      → (P.kafka_dial_leader sink s.world).0 ≡ (some k, none)
      → (P.kafka_set_write_deadline k (10 * second) dialed_world).0 ≡ none
      → (P.kafka_write_messages k text (limited_world k)).0 ≡ v
      → Delivering delivering
  unfolding send_to_kafka
  limited-Delivers k none dial limit write = closed-Delivers k _ dial limit write refl
  limited-Delivers k (some e) dial limit write =
      rw (dial) (rw (limit) (rw (write) (Delivers.unwritten k e dial limit write)))

  connected-Delivers :
      (k : KafkaConn) (d : Option Error)
      → (P.kafka_dial_leader sink s.world).0 ≡ (some k, none)
      → (P.kafka_set_write_deadline k (10 * second) dialed_world).0 ≡ d
      → Delivering delivering
  unfolding send_to_kafka
  connected-Delivers k none dial limit = limited-Delivers k _ dial limit refl
  connected-Delivers k (some e) dial limit =
      rw (dial) (rw (limit) (Delivers.unlimited k e dial limit))

  pub sink-Delivers :
      (x : Option KafkaConn × Option Error)
      → (P.kafka_dial_leader sink s.world).0 ≡ x
      → Delivering delivering
  unfolding send_to_kafka
  sink-Delivers (k, some e) dial = rw (dial) (Delivers.undialed (ap (λ x. is_some x.1) dial))
  sink-Delivers (none, none) dial = rw (dial) (Delivers.unconnected dial)
  sink-Delivers (some k, none) dial = connected-Delivers k _ dial refl

module _ {W : Type 0} (P : Platform W) (c : Callback) (text : String) (s : State W) where
  -- What a callback has done with a notification.
  abbrev pub Handles : Outcome (Unit {0}) × State W → Type 0
  Handles (r, s') =
      (((sink_of c).enabled ≡ true) × Delivers P text (sink_of c) s r s'.calls)
      ⊎ (((sink_of c).enabled ≡ false)
          × (r ≡ ok tt)
          × (s'.calls ≡ Call.eventf (subject_of c) "Normal" (reason_of c) text ∷ s.calls))

  handles : (b : Bool) → (sink_of c).enabled ≡ b → Handles (notify P c text s)
  unfolding notify
  handles true on = rw (on) (inl (refl, sink-Delivers P text (sink_of c) s _ refl))
  handles false off = rw (off) (inr (refl, refl, refl))

  -- A callback leaves `Sessions` alone. If its object's sink is enabled, it dials that sink's broker;
  -- if the dial fails, the process ends; else it sets a deadline of ten seconds, and if that does not
  -- fail writes the text of the notification, and if that does not fail closes the connection, all on
  -- the connection it was given, and returns, whatever failed. If the sink is not enabled, it returns
  -- after one event on its object, with its reason and the text of the notification. It makes no other
  -- call. (A dial with neither a connection nor an error makes it panic.)
  pub notify-Delivers : Handles (notify P c text s) × ((notify P c text s).1.sessions ≡ s.sessions)
  notify-Delivers =
      (handles _ refl, Within-sessions (HandsOn c text) s _ (notify-HandsOn P c text s))
