-- ===== src/Tests/Fixture.antt =====
-- A laboratory: libraries that answer in three ways, objects that exist under every name, and a
-- device.
use mathlib.Core.Bool.{false≢true}
use netconf_operator.Base.{
  ◌≢◌, ◌≡◌, eq_iff, sym, ◌∙◌, String, ◌<>◌, ◌==◌, List, [], ◌∷◌, Option, none, some, Bool, true,
  false, ◌||◌, refl, is_some, pos, if◌then◌else◌,
}
use netconf_operator.Api.Meta.{NamespacedName, ObjectMeta}
use netconf_operator.Api.Common.{DependsOn, KafkaSink, RpcStatus}
use netconf_operator.Api.Objects.{Kind, Spec, Object}
use netconf_operator.Runtime.{
  Platform, State, ok, Error, foreign, Reply, SessionPtr, FetchesByName, Replies,
}

-- The device agrees to everything, refuses everything, or stays silent.
pub data Lab : Type 0 where
  agrees refuses silent : Lab

abbrev pub reply : Option (List String) → Reply
reply es = record {
  errors = es;
  content = "<ok/>";
  raw_reply = "<rpc-reply/>";
  subscription_id = "7";
}

abbrev pub reply_in : Lab → Option Reply × Option Error
reply_in agrees = (some (reply none), none)
reply_in refuses = (some (reply (some ("lock-denied" ∷ []))), none)
reply_in silent = (none, some (foreign 1))

abbrev pub status_in : Lab → String
status_in agrees = "success"
status_in refuses = "failed"
status_in silent = ""

abbrev pub dial_in : Lab → Option SessionPtr × Option Error
dial_in silent = (none, some (foreign 2))
dial_in w = (some 5, none)

abbrev has_text : String → List String → Bool
has_text t [] = false
has_text t (u ∷ us) = (t == u) || has_text t us

abbrev without : String → List String → List String
without t [] = []
without t (u ∷ us) = let rest = without t us in if t == u then rest else u ∷ rest

abbrev pub after_lock : DependsOn
after_lock = record { kind = "Lock"; name = "lock1" }

abbrev pub no_dependency : DependsOn
no_dependency = record { kind = ""; name = "" }

abbrev pub kafka : KafkaSink
kafka = record {
  enabled = true;
  topic = "t";
  transport_type = "tcp";
  broker = "b:9092";
  partition = pos 0;
}

abbrev pub spec_of : (k : Kind) → Spec k
spec_of Kind.mount_point = record {
  target = "10.0.0.1:830";
  username = "admin";
  password = "secret";
  timeout = pos 10;
  additional_capabilities = "urn:a" ∷ "urn:b" ∷ [];
}
spec_of Kind.lock = record { mount_point = "router"; timeout = pos 1; target = "candidate" }
spec_of Kind.unlock = record {
  mount_point = "router";
  timeout = pos 1;
  target = "candidate";
  depends_on = after_lock;
}
spec_of Kind.edit_config = record {
  mount_point = "router";
  timeout = pos 1;
  operation = "merge";
  target = "candidate";
  xml = "<a/>";
  depends_on = no_dependency;
  lock = true;
  commit = false;
  unlock = true;
}
spec_of Kind.commit = record { mount_point = "router"; timeout = pos 1; depends_on = no_dependency }
spec_of Kind.get = record {
  mount_point = "router";
  timeout = pos 1;
  filter_type = "subtree";
  filter_xml = "<a/>";
}
spec_of Kind.get_config = record { mount_point = "router"; timeout = pos 1; target = "running" }
spec_of Kind.rpc = record { mount_point = "router"; timeout = pos 1; xml = "<a/>" }
spec_of Kind.create_subscription = record {
  mount_point = "router";
  timeout = pos 1;
  stream = "NETCONF";
  start_time = "";
  stop_time = "";
  kafka_sink = kafka;
}
spec_of Kind.establish_subscription = record {
  mount_point = "router";
  timeout = pos 1;
  xml = "<a/>";
  kafka_sink = record kafka { enabled = false };
}

-- An object of the name "gone" is being deleted, and one of the name "new" has no finalizers.
abbrev pub meta_of : NamespacedName → ObjectMeta
meta_of n = record {
  namespace = n.namespace;
  name = n.name;
  finalizers =
      if n.name == "new"
      then []
      else "io.openshift-telco.netconf.mountpoint.finalizer"
        ∷ "io.openshift-telco.netconf.establishsubscription.finalizer" ∷ [];
  deletion_timestamp = if n.name == "gone" then some 1 else none;
}

abbrev pub status_of : Lab → RpcStatus
status_of w = record {
  conditions = [];
  status = status_in w;
  rpc_reply = "";
  capabilities = [];
  subscription_id = "7";
}

abbrev pub object : (k : Kind) → NamespacedName → Lab → Object k
object k n w = record { meta = meta_of n; spec = spec_of k; status = status_of w }

abbrev pub lab : Platform Lab
lab = record {
  text = λ n. n.namespace <> "/" <> n.name;
  is_not_found = λ e. false;
  client_get = λ k n w. ((none, object k n w), w);
  client_update = λ o w. (none, w);
  has_finalizer = λ m f. has_text f m.finalizers;
  add_finalizer = λ m f. record m { finalizers = f ∷ m.finalizers };
  remove_finalizer = λ m f. record m { finalizers = without f m.finalizers };
  is_being_deleted = λ m. is_some m.deletion_timestamp;
  manage_error = λ o e w. (record { requeue_after = 0; err = e }, w);
  manage_error_with_requeue = λ o e t w. (record { requeue_after = t; err = e }, w);
  manage_success = λ o w. (record { requeue_after = 0; err = none }, w);
  default_capabilities = "urn:base" ∷ [];
  notification_stream_handler = "notificationHandler";
  dial_ssh = λ target c w. (dial_in w, w);
  dial_ssh_timeout = λ target c t w. (dial_in w, w);
  send_hello = λ p capabilities w. (ok none, w);
  new_message = λ m w. (ok tt, w);
  sync_rpc = λ p m t w. (ok (reply_in w), w);
  close_session = λ p w. (none, w);
  register = λ p id f w. w;
  remove = λ p id w. w;
  create_notification_stream = λ p t stop start stream f w. (ok none, w);
  session_id = λ p w. pos 65;
  session_capabilities = λ p w. "urn:device" ∷ [];
  unmarshal = λ text w. (none, w);
  kafka_dial_leader = λ sink w. ((some 3, none), w);
  kafka_set_write_deadline = λ c t w. (none, w);
  kafka_write_messages = λ c text w. (none, w);
  kafka_close = λ c w. (none, w);
  eventf = λ o type' reason text w. w;
}

-- What the theorems ask of the libraries holds of the laboratory.
pub lab-FetchesByName : FetchesByName lab
lab-FetchesByName k n w h = (refl, refl)

pub lab-Replies : Replies lab
lab-Replies p m t agrees = (reply_in agrees, refl, tt)
lab-Replies p m t refuses = (reply_in refuses, refl, tt)
lab-Replies p m t silent = (reply_in silent, refl, tt)

abbrev pub named : String → NamespacedName
named name = record { namespace = "lab"; name = name }

-- Nobody is connected, and the session 5 of the mount point "router" is there.
abbrev pub empty_in : Lab → State Lab
empty_in w = record { sessions = []; calls = []; world = w }

abbrev pub connected_in : Lab → State Lab
connected_in w = record { sessions = ("lab/router", 5) ∷ []; calls = []; world = w }

-- Two texts that a comparison tells apart.
pub apart : (s t : String) → (s == t) ≡ false → s ≢ t
apart s t differ h = false≢true (sym differ ∙ (eq_iff s t).1 h)
