-- ===== src/Runtime/Io.antt =====
-- The calls of the platform as actions: each notes itself and passes the world through.
use netconf_operator.Base.{String, List, Option, ℕ, ℤ}
use netconf_operator.Api.Meta.{NamespacedName}
use netconf_operator.Api.Common.{KafkaSink}
use netconf_operator.Api.Objects.{Kind, Object, AnyObject, any}
use netconf_operator.Runtime.Calls.{
  Error, SessionPtr, KafkaConn, Message, Reply, SshConfig, Callback, Reconciled, Call,
}
use netconf_operator.Runtime.Monad.{M, external, external_or_panic, external_, ◌>>◌}
use netconf_operator.Runtime.Libraries.{Platform}

module _ {W : Type 0} (P : Platform W) where
  abbrev pub client_get : (k : Kind) → NamespacedName → M W (Option Error × Object k)
  client_get k n = external (Call.client_get k n) (P.client_get k n)

  abbrev pub client_update : (k : Kind) → Object k → M W (Option Error)
  client_update k o = external (Call.client_update (any k o)) (P.client_update (any k o))

  abbrev pub manage_error : (k : Kind) → Object k → Option Error → M W Reconciled
  manage_error k o e = external (Call.manage_error (any k o) e) (P.manage_error (any k o) e)

  abbrev pub manage_error_with_requeue : (k : Kind) → Object k → Option Error → ℕ → M W Reconciled
  manage_error_with_requeue k o e t =
      external (Call.manage_error_with_requeue (any k o) e t)
        (P.manage_error_with_requeue (any k o) e t)

  abbrev pub manage_success : (k : Kind) → Object k → M W Reconciled
  manage_success k o = external (Call.manage_success (any k o)) (P.manage_success (any k o))

  abbrev pub dial_ssh : String → SshConfig → M W (Option SessionPtr × Option Error)
  dial_ssh target c = external (Call.dial_ssh target c) (P.dial_ssh target c)

  abbrev pub dial_ssh_timeout : String → SshConfig → ℤ → M W (Option SessionPtr × Option Error)
  dial_ssh_timeout target c t =
      external (Call.dial_ssh_timeout target c t) (P.dial_ssh_timeout target c t)

  abbrev pub send_hello : Option SessionPtr → List String → M W (Option Error)
  send_hello p caps = external_or_panic (Call.send_hello p caps) (P.send_hello p caps)

  -- `s.SyncRPC(message.New…(…), timeout)`: the message is built first.
  abbrev pub sync_rpc : Option SessionPtr → Message → ℤ → M W (Option Reply × Option Error)
  sync_rpc p m t =
      external_or_panic (Call.new_message m) (P.new_message m)
      >> external_or_panic (Call.sync_rpc p m t) (P.sync_rpc p m t)

  abbrev pub close_session : SessionPtr → M W (Option Error)
  close_session p = external (Call.close_session p) (P.close_session p)

  abbrev pub register : SessionPtr → String → Callback → M W (Unit {0})
  register p id f = external_ (Call.register p id f) (P.register p id f)

  abbrev pub remove : SessionPtr → String → M W (Unit {0})
  remove p id = external_ (Call.remove p id) (P.remove p id)

  abbrev pub create_notification_stream :
      Option SessionPtr → ℤ → String → String → String → Callback → M W (Option Error)
  create_notification_stream p t stop start stream f =
      external_or_panic (Call.create_notification_stream p t stop start stream f)
        (P.create_notification_stream p t stop start stream f)

  abbrev pub unmarshal : String → M W (Option Error)
  unmarshal data' = external (Call.unmarshal data') (P.unmarshal data')

  abbrev pub kafka_dial_leader : KafkaSink → M W (Option KafkaConn × Option Error)
  kafka_dial_leader sink = external (Call.kafka_dial_leader sink) (P.kafka_dial_leader sink)

  abbrev pub kafka_set_write_deadline : KafkaConn → ℕ → M W (Option Error)
  kafka_set_write_deadline c t =
      external (Call.kafka_set_write_deadline c t) (P.kafka_set_write_deadline c t)

  abbrev pub kafka_write_messages : KafkaConn → String → M W (Option Error)
  kafka_write_messages c text =
      external (Call.kafka_write_messages c text) (P.kafka_write_messages c text)

  abbrev pub kafka_close : KafkaConn → M W (Option Error)
  kafka_close c = external (Call.kafka_close c) (P.kafka_close c)

  abbrev pub eventf : AnyObject → String → String → String → M W (Unit {0})
  eventf o type' reason text =
      external_ (Call.eventf o type' reason text) (P.eventf o type' reason text)
