-- ===== src/Tests/Lives.antt =====
-- The life of a mount point on a cluster that stores it.
use netconf_operator.Base.{◌≡◌, refl, ap, [], ◌∷◌, Option, none, some, true, pos}
use netconf_operator.Base.GoMap.{lookup, insert}
use netconf_operator.Api.Objects.{Kind, Object, MountPoint, AnyObject, any}
use netconf_operator.Runtime.{Platform, State, ok, Error, Call}
use netconf_operator.Controllers.Assign.{set_status, set_capabilities}
use netconf_operator.Controllers.Common.{mountpoint_finalizer}
use netconf_operator.Controllers.Template.Keeps.{after_get}
use netconf_operator.Controllers.MountPoint
use netconf_operator.Controllers.MountPoint.Greeting.{hello_call, dial_call}
use netconf_operator.Controllers.MountPoint.CleanUp.{BuildsClosing}
use netconf_operator.Controllers.MountPoint.RoundTrip.{clean_up-connect}
use netconf_operator.Controllers.MountPoint.Life.{
  enrolled, reconciled, connected, reconcile-connects,
}
use netconf_operator.Controllers.All
use netconf_operator.System.{Step, IsReachable}
use netconf_operator.System.Provenance.{IsOpened, IsReachable-IsOpened}
use netconf_operator.Tests.Fixture.{
  Lab, lab, reply, lab-FetchesByName, lab-Replies, named, empty_in, connected_in, object,
}

-- A cluster with one mount point, which it stores, and a device that agrees.
abbrev fetched : (k : Kind) → MountPoint → Object k
fetched Kind.mount_point o = o
fetched k o = object k (named "x") Lab.agrees

abbrev stored : AnyObject → MountPoint → MountPoint
stored (any Kind.mount_point o) w = o
stored o w = w

abbrev cluster : Platform MountPoint
cluster = record {
  text = lab.text;
  is_not_found = lab.is_not_found;
  client_get = λ k n w. ((none, fetched k w), w);
  client_update = λ o w. (none, stored o w);
  has_finalizer = lab.has_finalizer;
  add_finalizer = lab.add_finalizer;
  remove_finalizer = lab.remove_finalizer;
  is_being_deleted = lab.is_being_deleted;
  manage_error = λ o e w. (record { requeue_after = 0; err = e }, w);
  manage_error_with_requeue = λ o e t w. (record { requeue_after = t; err = e }, w);
  manage_success = λ o w. (record { requeue_after = 0; err = none }, w);
  default_capabilities = lab.default_capabilities;
  notification_stream_handler = lab.notification_stream_handler;
  dial_ssh = λ target c w. ((some 5, none), w);
  dial_ssh_timeout = λ target c t w. ((some 5, none), w);
  send_hello = λ p capabilities w. (ok none, w);
  new_message = λ m w. (ok tt, w);
  sync_rpc = λ p m t w. (ok (some (reply none), none), w);
  close_session = λ p w. (none, w);
  register = λ p id f w. w;
  remove = λ p id w. w;
  create_notification_stream = λ p t stop start stream f w. (ok none, w);
  session_id = λ p w. pos 65;
  session_capabilities = λ p w. "urn:device" ∷ [];
  unmarshal = λ text w. (none, w);
  kafka_dial_leader = λ sink w. ((some 3, none), w);
  kafka_set_write_deadline = λ c t w. (none, w);
  kafka_write_messages = λ c text w. (none, w);
  kafka_close = λ c w. (none, w);
  eventf = λ o type' reason text w. w;
}

abbrev new : MountPoint
new = object Kind.mount_point (named "new") Lab.agrees

abbrev start : State MountPoint
start = record { sessions = []; calls = []; world = new }

abbrev s₁ : State MountPoint
s₁ = after_get cluster Kind.mount_point (named "new") (reconciled cluster (named "new") start)

enrolled_in_world :
    (reconciled cluster (named "new") start).world ≡ enrolled cluster (named "new") new
unfolding All.reconcile MountPoint.reconcile
enrolled_in_world = refl

enrolled_has :
    cluster.has_finalizer (enrolled cluster (named "new") new).meta mountpoint_finalizer ≡ true
enrolled_has = refl

dialed : (MountPoint.dial cluster (enrolled cluster (named "new") new) s₁).0 ≡ ok (some 5, none)
unfolding MountPoint.dial
dialed = refl

reconcile-connects_example :
    ((reconciled cluster (named "new") (reconciled cluster (named "new") start)).sessions
      ≡ insert "lab/new" 5 [])
    × ((reconciled cluster (named "new") (reconciled cluster (named "new") start)).calls
        ≡ Call.manage_success (
            any Kind.mount_point
              (connected cluster (named "new") (enrolled cluster (named "new") new) 5 s₁))
          ∷ hello_call cluster (enrolled cluster (named "new") new) (some 5)
          ∷ dial_call cluster (enrolled cluster (named "new") new)
          ∷ Call.client_get Kind.mount_point (named "new")
          ∷ Call.client_update (any Kind.mount_point (enrolled cluster (named "new") new))
          ∷ Call.client_get Kind.mount_point (named "new")
          ∷ [])
reconcile-connects_example =
    reconcile-connects cluster (named "new") start new 5 refl refl refl
      (ap (λ w. (none, w)) enrolled_in_world) enrolled_has refl dialed refl

-- The mount point "router" of the laboratory.
abbrev router : MountPoint
router = object Kind.mount_point (named "router") Lab.agrees

lab-BuildsClosing : BuildsClosing lab
lab-BuildsClosing = (λ w. refl, λ id w. refl)

abbrev router_up : MountPoint
router_up = set_capabilities (set_status router "connected") ("urn:device" ∷ [])

-- It has been connected before, and is connected again.
router_connected :
    (MountPoint.manage_operator_logic lab router (connected_in Lab.agrees)).0 ≡ ok (none, router_up)
unfolding MountPoint.manage_operator_logic
router_connected = refl

clean_up-connect_example :
    ((e : Option Error) × ((MountPoint.manage_clean_up_logic lab router
          (MountPoint.manage_operator_logic lab router (connected_in Lab.agrees)).1).0
        ≡ ok e))
    × (lookup "lab/router"
          (MountPoint.manage_clean_up_logic lab router
            (MountPoint.manage_operator_logic lab router (connected_in Lab.agrees)).1).1.sessions
        ≡ none)
unfolding lookup
clean_up-connect_example =
    clean_up-connect lab lab-Replies lab-BuildsClosing router router_up (connected_in Lab.agrees)
      "lab/router" router_connected

-- The mount point is connected, and its session found.
abbrev connected_state : State Lab
connected_state = (All.reconcile lab Kind.mount_point (named "router") (empty_in Lab.agrees)).1

reached : IsReachable lab connected_state
reached =
    IsReachable.stepped (IsReachable.started Lab.agrees)
      (Step.reconciled Kind.mount_point (named "router") (empty_in Lab.agrees))

found : lookup "lab/router" connected_state.sessions ≡ some 5
unfolding lookup All.reconcile MountPoint.reconcile
found = refl

IsReachable-IsOpened_example : IsOpened lab "lab/router" 5 connected_state.calls
IsReachable-IsOpened_example =
    IsReachable-IsOpened lab lab-FetchesByName connected_state "lab/router" 5 reached found
