-- ===== src/Runtime/Libraries.antt =====
-- The libraries as a parameter: what each call returns, and does to the world outside.
use netconf_operator.Base.{String, List, Option, none, some, Bool, ℕ, ℤ, ◌≡◌}
use netconf_operator.Api.Meta.{NamespacedName, ObjectMeta}
use netconf_operator.Api.Common.{KafkaSink}
use netconf_operator.Api.Objects.{Kind, Object, AnyObject}
use netconf_operator.Runtime.Calls.{
  Error, SessionPtr, KafkaConn, Message, Reply, SshConfig, Callback, Reconciled,
}
use netconf_operator.Runtime.Monad.{Outcome, ok}

pub record Platform (W : Type 0) : Type 0 where
  -- k8s.io/apimachinery and controller-runtime
  pub text : NamespacedName → String
  pub is_not_found : Error → Bool
  -- The error, and what the client has left in the instance.
  pub client_get : (k : Kind) → NamespacedName → W → (Option Error × Object k) × W
  pub client_update : AnyObject → W → Option Error × W
  -- operator-utils
  pub has_finalizer : ObjectMeta → String → Bool
  pub add_finalizer : ObjectMeta → String → ObjectMeta
  pub remove_finalizer : ObjectMeta → String → ObjectMeta
  pub is_being_deleted : ObjectMeta → Bool
  pub manage_error : AnyObject → Option Error → W → Reconciled × W
  pub manage_error_with_requeue : AnyObject → Option Error → ℕ → W → Reconciled × W
  pub manage_success : AnyObject → W → Reconciled × W
  -- go-netconf-client
  pub default_capabilities : List String
  pub notification_stream_handler : String
  pub dial_ssh : String → SshConfig → W → (Option SessionPtr × Option Error) × W
  pub dial_ssh_timeout : String → SshConfig → ℤ → W → (Option SessionPtr × Option Error) × W
  pub send_hello : Option SessionPtr → List String → W → Outcome (Option Error) × W
  -- A constructor panics if it refuses its arguments, such as an unknown datastore.
  pub new_message : Message → W → Outcome (Unit {0}) × W
  pub sync_rpc : Option SessionPtr → Message → ℤ → W → Outcome (Option Reply × Option Error) × W
  pub close_session : SessionPtr → W → Option Error × W
  pub register : SessionPtr → String → Callback → W → W
  pub remove : SessionPtr → String → W → W
  pub create_notification_stream :
      Option SessionPtr → ℤ → String → String → String → Callback → W → Outcome (Option Error) × W
  pub session_id : SessionPtr → W → ℤ
  pub session_capabilities : SessionPtr → W → List String
  -- encoding/xml, kafka-go and the event recorder
  pub unmarshal : String → W → Option Error × W
  pub kafka_dial_leader : KafkaSink → W → (Option KafkaConn × Option Error) × W
  pub kafka_set_write_deadline : KafkaConn → ℕ → W → Option Error × W
  pub kafka_write_messages : KafkaConn → String → W → Option Error × W
  pub kafka_close : KafkaConn → W → Option Error × W
  pub eventf : AnyObject → String → String → String → W → W

-- `(v, err)` with exactly one of the two nil, as Go functions return it.
abbrev pub IsEither : {A : Type 0} → Option A × Option Error → Type 0
IsEither (none, none) = ⊥
IsEither (none, some e) = Unit
IsEither (some a, none) = Unit
IsEither (some a, some e) = ⊥

-- What the theorems rely on, each where it is named.
module _ {W : Type 0} (P : Platform W) where
  -- The client returns the object that was asked for.
  abbrev pub FetchesByName : Type 0
  FetchesByName =
      (k : Kind) (n : NamespacedName) (w : W)
      → let ((err, o), w') = P.client_get k n w in
        err ≡ none → (o.meta.namespace ≡ n.namespace) × (o.meta.name ≡ n.name)

  -- `SyncRPC` on a live session returns a reply or an error, and does not panic.
  abbrev pub Replies : Type 0
  Replies =
      (p : SessionPtr) (m : Message) (t : ℤ) (w : W)
      → (r : Option Reply × Option Error) × ((P.sync_rpc (some p) m t w).0 ≡ ok r) × IsEither r
