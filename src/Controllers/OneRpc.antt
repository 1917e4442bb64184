-- ===== src/Controllers/OneRpc.antt =====
-- The six controllers whose work is one RPC (controllers/{lock,unlock,get,getconfig,rpc,commit}_
-- controller.go), side by side, with a description of their work in one place.
pub mod Report
pub mod Unguarded
pub mod Whole
use netconf_operator.Base.{◌≡◌, Option, none, some, ℤ, arith}
use netconf_operator.Base.GoMap.{lookup}
use netconf_operator.Api.Objects.{Kind, Object, device_name}
use netconf_operator.Runtime.{
  Platform, State, M, Outcome, ok, panic, ◌>>=◌, Error, Message, SessionPtr, Reply,
}
use netconf_operator.Runtime.Io
use netconf_operator.Controllers.Assign.{set_status, set_rpc_reply}
use netconf_operator.Controllers.Lock
use netconf_operator.Controllers.Unlock
use netconf_operator.Controllers.Commit
use netconf_operator.Controllers.Get
use netconf_operator.Controllers.GetConfig
use netconf_operator.Controllers.Rpc

pub data OneRpc : Type 0 where
  lock unlock commit get get_config rpc : OneRpc

abbrev pub kind_of : OneRpc → Kind
kind_of OneRpc.lock = Kind.lock
kind_of OneRpc.unlock = Kind.unlock
kind_of OneRpc.commit = Kind.commit
kind_of OneRpc.get = Kind.get
kind_of OneRpc.get_config = Kind.get_config
kind_of OneRpc.rpc = Kind.rpc

abbrev pub message_of : (r : OneRpc) → Object (kind_of r) → Message
message_of OneRpc.lock o = Message.new_lock o.spec.target
message_of OneRpc.unlock o = Message.new_unlock o.spec.target
message_of OneRpc.commit o = Message.new_commit
message_of OneRpc.get o = Message.new_get o.spec.filter_type o.spec.filter_xml
message_of OneRpc.get_config o = Message.new_get_config o.spec.target "" ""
message_of OneRpc.rpc o = Message.new_rpc o.spec.xml

abbrev pub timeout_of : (r : OneRpc) → Object (kind_of r) → ℤ
timeout_of OneRpc.lock o = o.spec.timeout
timeout_of OneRpc.unlock o = o.spec.timeout
timeout_of OneRpc.commit o = o.spec.timeout
timeout_of OneRpc.get o = o.spec.timeout
timeout_of OneRpc.get_config o = o.spec.timeout
timeout_of OneRpc.rpc o = o.spec.timeout

module _ {W : Type 0} (P : Platform W) where
  -- The work of each, without the check of a dependency that `Unlock` makes first.
  unfoldable pub send : (r : OneRpc) → Object (kind_of r) → M W (Option Error × Object (kind_of r))
  unfolding Lock.manage_operator_logic Unlock.send_unlock Commit.manage_operator_logic
      Get.manage_operator_logic GetConfig.manage_operator_logic Rpc.manage_operator_logic
  send OneRpc.lock = Lock.manage_operator_logic P
  send OneRpc.unlock = Unlock.send_unlock P
  send OneRpc.commit = Commit.manage_operator_logic P
  send OneRpc.get = Get.manage_operator_logic P
  send OneRpc.get_config = GetConfig.manage_operator_logic P
  send OneRpc.rpc = Rpc.manage_operator_logic P

  -- One `SyncRPC`, and an outcome that its answer alone decides.
  unfoldable pub one_rpc :
      {A : Type 0}
      → Option SessionPtr
      → Message
      → ℤ
      → (Option Reply × Option Error → Outcome A)
      → M W A
  one_rpc p m t g = Io.sync_rpc P p m t >>= λ x s. (g x, s)

-- What becomes of the object. Without a reply the method dereferences nil.
unfoldable pub answer :
    (r : OneRpc)
    → Object (kind_of r)
    → Option Reply × Option Error
    → Outcome (Option Error × Object (kind_of r))
answer r o (none, e) = panic
answer r o (some reply, some e) = ok (some e, set_rpc_reply (set_status o "failed") reply.raw_reply)
answer r o (some reply, none) = elim reply.errors [
  | none ↦ ok (none, set_rpc_reply (set_status o "success") reply.content)
  | some es ↦ ok (none, set_rpc_reply (set_status o "failed") reply.raw_reply)
]

-- The six methods do one thing: look the session of their mount point up, send their message with
-- their timeout, and decide the status by the answer.
pub send-eq-one_rpc :
    {W : Type 0} (P : Platform W) (r : OneRpc) (o : Object (kind_of r)) (s : State W)
    → send P r o s
      ≡ one_rpc P
          (lookup (P.text (device_name (kind_of r) o)) s.sessions)
          (message_of r o)
          (timeout_of r o)
          (answer r o)
          s
unfolding send one_rpc answer
send-eq-one_rpc P OneRpc.lock o s = ground arith
send-eq-one_rpc P OneRpc.unlock o s = ground arith
send-eq-one_rpc P OneRpc.commit o s = ground arith
send-eq-one_rpc P OneRpc.get o s = ground arith
send-eq-one_rpc P OneRpc.get_config o s = ground arith
send-eq-one_rpc P OneRpc.rpc o s = ground arith
