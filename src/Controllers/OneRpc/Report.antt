-- ===== src/Controllers/OneRpc/Report.antt =====
-- What the six controllers of one RPC report of the device's answer.
use netconf_operator.Base.{
  ◌≡◌, refl, Option, none, some, ◌⊎◌, inl, inr, String, List, ◌∷◌, arith, ◌∙◌, ap,
}
use netconf_operator.Base.GoMap.{lookup}
use netconf_operator.Api.Objects.{Object, any, device_name}
use netconf_operator.Runtime.{
  Platform, State, Outcome, ok, panic, Error, Reply, SessionPtr, Replies, Call, IsEither, ◌>>=◌,
}
use netconf_operator.Controllers.Assign.{set_status, set_rpc_reply}
use netconf_operator.Controllers.OneRpc.{
  OneRpc, kind_of, message_of, timeout_of, send, one_rpc, send-eq-one_rpc, answer,
}
use netconf_operator.Controllers.Template.{Hooks, report}

module _ {W : Type 0} (P : Platform W) where
  -- What the device answers to the message of an object, on the session `q`.
  abbrev pub answer_of :
      (r : OneRpc)
      → Object (kind_of r)
      → Option SessionPtr
      → State W
      → Outcome (Option Reply × Option Error)
  answer_of r o q s =
      (P.sync_rpc q (message_of r o) (timeout_of r o) (P.new_message (message_of r o) s.world).1).0

  -- The constructor of the message accepts it.
  abbrev pub Built : (r : OneRpc) → Object (kind_of r) → State W → Type 0
  Built r o s = (P.new_message (message_of r o) s.world).0 ≡ ok tt

  abbrev pub session_of : (r : OneRpc) → Object (kind_of r) → State W → Option SessionPtr
  session_of r o s = lookup (P.text (device_name (kind_of r) o)) s.sessions

  send-answer :
      (r : OneRpc) (o : Object (kind_of r)) (s : State W) (x : Option Reply × Option Error)
      → Built r o s
      → answer_of r o (session_of r o s) s ≡ ok x
      → (send P r o s).0 ≡ answer r o x
  unfolding one_rpc
  send-answer r o s x b h = rw (send-eq-one_rpc P r o s) (rw (b) (rw (h) refl))

-- The object after a reply: it records a success if the reply lists no errors, else a failure.
abbrev pub recorded : (r : OneRpc) → Object (kind_of r) → Reply → Object (kind_of r)
recorded r o reply = elim reply.errors [
  | none ↦ set_rpc_reply (set_status o "success") reply.content
  | some es ↦ set_rpc_reply (set_status o "failed") reply.raw_reply
]

pub answer-reply :
    (r : OneRpc) (o : Object (kind_of r)) (reply : Reply)
    → answer r o (some reply, none) ≡ ok (none, recorded r o reply)
unfolding answer
answer-reply r o reply = ground arith

answer-cases :
    (r : OneRpc) (o : Object (kind_of r)) (x : Option Reply × Option Error)
    → IsEither x
    → ((reply : Reply) × (x ≡ (some reply, none)) × (answer r o x ≡ ok (none, recorded r o reply)))
      ⊎ ((e : Error) × (x ≡ (none, some e)) × (answer r o x ≡ panic))
unfolding answer
answer-cases r o (none, none) i = absurd i
answer-cases r o (none, some e) i = inr (e, refl, refl)
answer-cases r o (some reply, none) i = inl (reply, refl, answer-reply r o reply)
answer-cases r o (some reply, some e) i = absurd i

-- The sending of the one RPC by `Lock`, `Unlock` (after the check of its dependency), `Commit`, `Get`,
-- `GetConfig` or `RPC`, on a live session and with a message that its constructor accepts, has two
-- cases: the device replies, the reply is recorded and no error is returned, be the reply a refusal
-- or not; or `SyncRPC` returns an error, and the method panics on the nil reply. It is given that
-- `SyncRPC` on a live session returns a reply or an error.
pub send-records_or_crashes :
    {W : Type 0} (P : Platform W)
    → Replies P
    → (r : OneRpc) (o : Object (kind_of r)) (s : State W) (q : SessionPtr)
    → session_of P r o s ≡ some q
    → Built P r o s
    → ((reply : Reply) × (answer_of P r o (some q) s ≡ ok (some reply, none))
        × ((send P r o s).0 ≡ ok (none, recorded r o reply)))
      ⊎ ((e : Error) × (answer_of P r o (some q) s ≡ ok (none, some e))
          × ((send P r o s).0 ≡ panic))
send-records_or_crashes P replies r o s q live built =
    let (x, same, either) =
      replies q (message_of r o) (timeout_of r o) (P.new_message (message_of r o) s.world).1 in
    let sent = send-answer P r o s x built (rw (live) same) in
    elim (answer-cases r o x either) [
      | inl (reply, e, a) ↦ inl (reply, same ∙ ap ok e, sent ∙ a)
      | inr (err, e, a) ↦ inr (err, same ∙ ap ok e, sent ∙ a)
    ]

-- When the device refuses the RPC, with a reply that lists errors, the controller tells the cluster
-- that the reconcile has succeeded, with an object whose status is `failed`.
pub refused-manage_success :
    {W : Type 0} (P : Platform W) (r : OneRpc) (h : Hooks W (kind_of r)) (o : Object (kind_of r))
    (s : State W) (reply : Reply) (es : List String)
    → Built P r o s
    → answer_of P r o (session_of P r o s) s ≡ ok (some reply, none)
    → reply.errors ≡ some es
    → let told = recorded r o reply in
      (told.status.status ≡ "failed")
      × (((send P r o >>= report P (kind_of r) h) s).1.calls
          ≡ Call.manage_success (any (kind_of r) told) ∷ (send P r o s).1.calls)
unfolding report answer
refused-manage_success P r h o s reply es built same refused = (
  ground arith,
  rw (send-answer P r o s (some reply, none) built same, answer-reply r o reply) refl,
)
