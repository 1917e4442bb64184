-- ===== src/Controllers/Notify/Delivery.antt =====
-- What becomes of a notification.
use netconf_operator.Base.{
  ◌⊎◌, inl, inr, ◌≡◌, refl, String, ◌*◌, Option, none, some, List, ◌∷◌, ◌↔◌, true, false, is_some,
  arith,
}
use netconf_operator.Base.Duration.{second}
use netconf_operator.Api.Common.{KafkaSink}
use netconf_operator.Runtime.{
  Platform, State, ok, exit, Call, Callback, KafkaConn, Within, Within-refl, Within-call, Error,
}
use netconf_operator.Runtime.Io
use netconf_operator.Controllers.Common.{send_to_kafka}
use netconf_operator.Controllers.Notify.{notify, sink_of, subject_of, reason_of}

module _ {W : Type 0} (P : Platform W) (text : String) (sink : KafkaSink) (s : State W) where
  -- `SendToKafka` ends the whole process if and only if the broker cannot be dialed.
  pub send_to_kafka-exits :
      ((send_to_kafka P text sink s).0 ≡ exit)
      ↔ (is_some (P.kafka_dial_leader sink s.world).0.1 ≡ true)
  unfolding send_to_kafka
  send_to_kafka-exits = (λ h. ground arith, λ h. ground arith)

  -- The calls of a delivery, the latest first.
  abbrev pub delivery : KafkaConn → List Call
  delivery c =
      Call.kafka_close c
      ∷ Call.kafka_write_messages c text
      ∷ Call.kafka_set_write_deadline c (10 * second)
      ∷ Call.kafka_dial_leader sink
      ∷ s.calls

  -- If `SendToKafka` returns nil, it has dialed the sink's broker, set a deadline of ten seconds,
  -- written the text and closed the connection, in this order and on the connection it was given.
  pub send_to_kafka-delivers :
      (c : KafkaConn)
      → (P.kafka_dial_leader sink s.world).0.0 ≡ some c
      → (send_to_kafka P text sink s).0 ≡ ok none
      → (send_to_kafka P text sink s).1.calls ≡ delivery c
  unfolding send_to_kafka
  send_to_kafka-delivers c dialed h = ground arith

-- The calls that hand a notification on for a callback: to its own sink if that is enabled, and as
-- an event on its own object if not.
abbrev pub HandsOn : Callback → String → Call → Type 0
HandsOn c text (Call.kafka_dial_leader sink) = ((sink_of c).enabled ≡ true) × (sink ≡ sink_of c)
HandsOn c text (Call.kafka_set_write_deadline k t) = (sink_of c).enabled ≡ true
HandsOn c text (Call.kafka_write_messages k sent) = ((sink_of c).enabled ≡ true) × (sent ≡ text)
HandsOn c text (Call.kafka_close k) = (sink_of c).enabled ≡ true
HandsOn c text (Call.eventf o type' reason sent) =
    ((sink_of c).enabled ≡ false)
    × (o ≡ subject_of c)
    × (type' ≡ "Normal")
    × (reason ≡ reason_of c)
    × (sent ≡ text)
HandsOn c text call = ⊥

module _ {W : Type 0} (P : Platform W) (C : Call → Type 0) (s₀ : State W) (text : String)
    (sink : KafkaSink) where
  abbrev I : State W → Type 0
  I = Within C s₀

  -- `SendToKafka` on a connection.
  on_connection :
      (c : KafkaConn) (s : State W)
      → C (Call.kafka_set_write_deadline c (10 * second))
      → C (Call.kafka_write_messages c text)
      → C (Call.kafka_close c)
      → I s
      → (P.kafka_dial_leader sink s.world).0 ≡ (some c, none)
      → C (Call.kafka_dial_leader sink)
      → I (send_to_kafka P text sink s).1
  unfolding send_to_kafka
  on_connection c s deadline write close i dialed dial =
      let call = Within-call C s₀ in
      let w₁ = (P.kafka_dial_leader sink s.world).1 in
      let s₁ = record s { calls = Call.kafka_dial_leader sink ∷ s.calls; world = w₁ } in
      let i₁ = call (Call.kafka_dial_leader sink) w₁ s dial i in
      let w₂ = (P.kafka_set_write_deadline c (10 * second) w₁).1 in
      let s₂ = record s₁ {
        calls = Call.kafka_set_write_deadline c (10 * second) ∷ s₁.calls;
        world = w₂;
      } in
      let i₂ = call (Call.kafka_set_write_deadline c (10 * second)) w₂ s₁ deadline i₁ in
      let w₃ = (P.kafka_write_messages c text w₂).1 in
      let s₃ = record s₂ { calls = Call.kafka_write_messages c text ∷ s₂.calls; world = w₃ } in
      let i₃ = call (Call.kafka_write_messages c text) w₃ s₂ write i₂ in
      let w₄ = (P.kafka_close c w₃).1 in
      let i₄ = call (Call.kafka_close c) w₄ s₃ close i₃ in rw (dialed) (ground (arith, i₂, i₃, i₄))

  off_connection :
      (s : State W) (x : Option KafkaConn × Option Error)
      → (P.kafka_dial_leader sink s.world).0 ≡ x
      → (x.0 ≡ none) ⊎ (is_some x.1 ≡ true)
      → C (Call.kafka_dial_leader sink)
      → I s
      → I (send_to_kafka P text sink s).1
  unfolding send_to_kafka
  off_connection s x same failed dial i = ground (
    arith,
    Within-call C s₀ (Call.kafka_dial_leader sink) (P.kafka_dial_leader sink s.world).1 s dial i,
  )

  send_to_kafka-Within :
      (s : State W) (x : Option KafkaConn × Option Error)
      → (P.kafka_dial_leader sink s.world).0 ≡ x
      → C (Call.kafka_dial_leader sink)
      → ((c : KafkaConn)
          → C (Call.kafka_set_write_deadline c (10 * second))
            × C (Call.kafka_write_messages c text)
            × C (Call.kafka_close c))
      → I s
      → I (send_to_kafka P text sink s).1
  send_to_kafka-Within s (none, e) same dial more i =
      off_connection s (none, e) same (inl refl) dial i
  send_to_kafka-Within s (some c, some e) same dial more i =
      off_connection s (some c, some e) same (inr refl) dial i
  send_to_kafka-Within s (some c, none) same dial more i =
      let (deadline, write, close) = more c in on_connection c s deadline write close i same dial

module _ {W : Type 0} (P : Platform W) (c : Callback) (text : String) (s : State W) where
  notify_sink :
      (sink_of c).enabled ≡ true → Within (HandsOn c text) s (send_to_kafka P text (sink_of c) s).1
  notify_sink on =
      send_to_kafka-Within P (HandsOn c text) s text (sink_of c) s _ refl (on, refl)
        (λ k. (on, (on, refl), on)) (Within-refl (HandsOn c text) s)

  notify_event :
      (sink_of c).enabled ≡ false
      → Within (HandsOn c text) s (Io.eventf P (subject_of c) "Normal" (reason_of c) text s).1
  notify_event off =
      Within-call (HandsOn c text) s (Call.eventf (subject_of c) "Normal" (reason_of c) text) _ s
        (off, refl, refl, refl, refl) (Within-refl (HandsOn c text) s)

  -- The callback makes no call but these, and leaves `Sessions` alone.
  pub notify-HandsOn : Within (HandsOn c text) s (notify P c text s).1
  unfolding notify
  notify-HandsOn = ground (arith, notify_sink, notify_event)
