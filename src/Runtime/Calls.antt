-- ===== src/Runtime/Calls.antt =====
-- The values that pass between the operator and the libraries that it calls
-- (go-netconf-client, controller-runtime, operator-utils, kafka-go), and the calls themselves.
use netconf_operator.Base.{String, List, Option, ℕ, ℤ}
use netconf_operator.Api.Meta.{NamespacedName}
use netconf_operator.Api.Common.{KafkaSink}
use netconf_operator.Api.Objects.{Kind, AnyObject, CreateSubscription, EstablishSubscription}

-- A Go `error` that is not nil; `error` itself is `Option Error`.
pub data Error : Type 0 where
  -- An error that a library returned.
  foreign : ℕ → Error
  -- `errors.New` and `fmt.Errorf` of a text.
  errorf : String → Error
  -- `fmt.Errorf` of a text and an error behind it.
  wrap : String → Error → Error

-- A pointer to a `netconf.Session`, or to a `kafka.Conn`, that is not nil.
abbrev pub SessionPtr : Type 0
SessionPtr = ℕ

abbrev pub KafkaConn : Type 0
KafkaConn = ℕ

-- A call of a constructor of the package `message`. Each has a message id of its own, which the
-- operator does not read.
pub data Message : Type 0 where
  new_lock new_unlock : String → Message
  new_commit : Message
  -- The target, the operation and the XML.
  new_edit_config : String → String → String → Message
  -- The filter's type and XML.
  new_get : String → String → Message
  -- The target, and the filter's type and XML.
  new_get_config : String → String → String → Message
  new_rpc new_establish_subscription : String → Message
  new_close_session : Message
  new_kill_session : String → Message

-- What the operator reads of a `message.RPCReply`. The slice `Errors` may be nil.
pub record Reply : Type 0 where
  pub errors : Option (List String)
  pub content : String
  pub raw_reply : String
  pub subscription_id : String

-- `ssh.ClientConfig` with `ssh.Password` and `ssh.InsecureIgnoreHostKey`.
pub record SshConfig : Type 0 where
  pub user : String
  pub auth_password : String

-- The closures that handle a notification, with the object that they capture. Of it they read the
-- sink, which is fixed, and hand its identity to the event recorder.
pub data Callback : Type 0 where
  on_create_subscription : CreateSubscription → Callback
  on_establish_subscription : EstablishSubscription → Callback

-- What `Reconcile` returns: `ctrl.Result` in nanoseconds, and an error or nil.
pub record Reconciled : Type 0 where
  pub requeue_after : ℕ
  pub err : Option Error

-- The calls, with the values that they take. A session that may be nil is an `Option`.
pub data Call : Type 0 where
  client_get : Kind → NamespacedName → Call
  client_update : AnyObject → Call
  manage_error : AnyObject → Option Error → Call
  manage_error_with_requeue : AnyObject → Option Error → ℕ → Call
  manage_success : AnyObject → Call
  dial_ssh : String → SshConfig → Call
  dial_ssh_timeout : String → SshConfig → ℤ → Call
  send_hello : Option SessionPtr → List String → Call
  new_message : Message → Call
  sync_rpc : Option SessionPtr → Message → ℤ → Call
  close_session : SessionPtr → Call
  register : SessionPtr → String → Callback → Call
  remove : SessionPtr → String → Call
  -- The timeout, the stop time, the start time and the stream.
  create_notification_stream : Option SessionPtr → ℤ → String → String → String → Callback → Call
  unmarshal : String → Call
  kafka_dial_leader : KafkaSink → Call
  kafka_set_write_deadline : KafkaConn → ℕ → Call
  kafka_write_messages : KafkaConn → String → Call
  kafka_close : KafkaConn → Call
  -- The object, the event's type, its reason and its text.
  eventf : AnyObject → String → String → String → Call
