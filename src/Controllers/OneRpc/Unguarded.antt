-- ===== src/Controllers/OneRpc/Unguarded.antt =====
-- The work of the six controllers of one RPC without a session: the session that the validation has
-- seen is looked up again, and not checked again.
use netconf_operator.Base.{◌≡◌, refl, ap, none, ◌∷◌}
use netconf_operator.Base.GoMap.{lookup}
use netconf_operator.Api.Objects.{Object, device_name}
use netconf_operator.Runtime.{Platform, State, Call, Outcome, ok, panic, exit, continue}
use netconf_operator.Controllers.OneRpc.{
  OneRpc, kind_of, message_of, timeout_of, send, one_rpc, send-eq-one_rpc, answer,
}
use netconf_operator.Controllers.OneRpc.Report.{Built}

-- A decision on what a run returned, which leaves its state alone.
state_after :
    {W A B : Type 0} (f : A → Outcome B) (r : Outcome A) (s : State W)
    → (continue r (λ x s. (f x, s)) s).1 ≡ s
state_after f (ok a) s = refl
state_after f panic s = refl
state_after f exit s = refl

-- If `Sessions` holds no session of the mount point when the work begins, as when the mount point
-- has been taken down since the validation, the work calls `SyncRPC` all the same, on the nil
-- session. The message is one that its constructor accepts.
pub send-calls_nil :
    {W : Type 0} (P : Platform W) (r : OneRpc) (o : Object (kind_of r)) (s : State W)
    → lookup (P.text (device_name (kind_of r) o)) s.sessions ≡ none
    → Built P r o s
    → (send P r o s).1.calls
      ≡ Call.sync_rpc none (message_of r o) (timeout_of r o)
        ∷ Call.new_message (message_of r o)
        ∷ s.calls
unfolding one_rpc
send-calls_nil P r o s absent built =
    rw (send-eq-one_rpc P r o s, absent)
      (rw (built) (ap (λ s. s.calls) (state_after (answer r o) _ _)))
