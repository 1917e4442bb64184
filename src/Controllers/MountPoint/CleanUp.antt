-- ===== src/Controllers/MountPoint/CleanUp.antt =====
-- What the clean-up of a mount point does (`manageCleanUpLogic`).
use netconf_operator.Base.{
  arith, ◌⊎◌, inl, inr, ◌≡◌, refl, String, List, ◌∷◌, Option, none, some, Bool, true, false,
  if◌then◌else◌,
}
use netconf_operator.Base.GoMap.{lookup, erase}
use netconf_operator.Base.Rune.{rune_text}
use netconf_operator.Api.Objects.{Kind, MountPoint, device_name}
use netconf_operator.Runtime.{
  Platform, State, Outcome, ok, Replies, IsEither, Error, SessionPtr, Message, Reply, Call,
}
use netconf_operator.Controllers.MountPoint

-- The device has agreed to close the session.
abbrev pub has_agreed : Option Reply × Option Error → Bool
has_agreed (some reply, none) = elim reply.errors [ none ↦ true | some es ↦ false ]
has_agreed x = false

decided : {A : Type 0} (o : Option A) → (o ≡ none) ⊎ ((a : A) × (o ≡ some a))
decided none = inl refl
decided (some a) = inr (a, refl)

module _ {W : Type 0} (P : Platform W) where
  -- The constructors of the two messages accept what they are given.
  abbrev pub BuildsClosing : Type 0
  BuildsClosing =
      ((w : W) → (P.new_message Message.new_close_session w).0 ≡ ok tt)
      × ((id : String) (w : W) → (P.new_message (Message.new_kill_session id) w).0 ≡ ok tt)

  abbrev pub answer_to_close :
      MountPoint → SessionPtr → State W → Outcome (Option Reply × Option Error)
  answer_to_close o q s =
      (P.sync_rpc (some q) Message.new_close_session o.spec.timeout
        (P.new_message Message.new_close_session s.world).1).0

  -- The calls that put an end to a session, the latest first.
  abbrev pub ending : MountPoint → SessionPtr → Bool → String → List Call → List Call
  ending o q agreed id before =
      let closing =
        Call.sync_rpc (some q) Message.new_close_session o.spec.timeout
        ∷ Call.new_message Message.new_close_session
        ∷ before in
      let kill = Message.new_kill_session id in
      Call.close_session q
      ∷ Call.remove q P.notification_stream_handler
      ∷ (if agreed
          then closing
          else Call.sync_rpc (some q) kill o.spec.timeout ∷ Call.new_message kill ∷ closing)

  -- How the end of the session `q` of a mount point went.
  abbrev pub Ends :
      MountPoint
      → SessionPtr
      → State W
      → Option Reply × Option Error
      → Outcome (Option Error) × State W
      → Type 0
  Ends o q s x (r, s') =
      (e : Option Error) × (id : String) × (r ≡ ok e)
      × (s'.sessions ≡ erase (P.text (device_name Kind.mount_point o)) s.sessions)
      × (s'.calls ≡ ending o q (has_agreed x) id s.calls)

  -- The world after the answer to the closing message, and the answer to the kill in it.
  abbrev closed : MountPoint → SessionPtr → State W → W
  closed o q s =
      (P.sync_rpc (some q) Message.new_close_session o.spec.timeout
        (P.new_message Message.new_close_session s.world).1).1

  abbrev kill_of : MountPoint → SessionPtr → State W → String
  kill_of o q s = rune_text (P.session_id q (closed o q s))

  agreed-Ends :
      BuildsClosing
      → (o : MountPoint) (q : SessionPtr) (s : State W) (reply : Reply) → reply.errors ≡ none
      → answer_to_close o q s ≡ ok (some reply, none)
      → Ends o q s (some reply, none) (MountPoint.end_session P o q s)
  unfolding MountPoint.end_session
  agreed-Ends (close, kill) o q s reply agreed same =
      rw (close s.world, same, agreed) (_, kill_of o q s, refl, refl, refl)

  refused-Ends :
      Replies P
      → BuildsClosing
      → (o : MountPoint) (q : SessionPtr) (s : State W) (reply : Reply) (es : List String)
      → reply.errors ≡ some es
      → answer_to_close o q s ≡ ok (some reply, none)
      → Ends o q s (some reply, none) (MountPoint.end_session P o q s)
  unfolding MountPoint.end_session
  refused-Ends replies (close, kill) o q s reply es refused same =
      let m = Message.new_kill_session (kill_of o q s) in
      let (y, answered, _) = replies q m o.spec.timeout (P.new_message m (closed o q s)).1 in
      rw (close s.world, same, refused, kill (kill_of o q s) (closed o q s), answered)
        (_, kill_of o q s, refl, refl, refl)

  failed-Ends :
      Replies P
      → BuildsClosing
      → (o : MountPoint) (q : SessionPtr) (s : State W) (e : Error)
      → answer_to_close o q s ≡ ok (none, some e)
      → Ends o q s (none, some e) (MountPoint.end_session P o q s)
  unfolding MountPoint.end_session
  failed-Ends replies (close, kill) o q s e same =
      let m = Message.new_kill_session (kill_of o q s) in
      let (y, answered, _) = replies q m o.spec.timeout (P.new_message m (closed o q s)).1 in
      rw (close s.world, same, kill (kill_of o q s) (closed o q s), answered)
        (_, kill_of o q s, refl, refl, refl)

  end_session-Ends :
      Replies P
      → BuildsClosing
      → (o : MountPoint) (q : SessionPtr) (s : State W) (x : Option Reply × Option Error)
      → IsEither x
      → answer_to_close o q s ≡ ok x
      → Ends o q s x (MountPoint.end_session P o q s)
  end_session-Ends replies builds o q s (none, none) i same = absurd i
  end_session-Ends replies builds o q s (some r, some e) i same = absurd i
  end_session-Ends replies builds o q s (none, some e) i same =
      failed-Ends replies builds o q s e same
  end_session-Ends replies builds o q s (some r, none) i same = elim (decided r.errors) [
    | inl agreed ↦ agreed-Ends builds o q s r agreed same
    | inr (es, refused) ↦ refused-Ends replies builds o q s r es refused same
  ]

clean_up-live :
    {W : Type 0} (P : Platform W) (o : MountPoint) (q : SessionPtr) (s : State W)
    → lookup (P.text (device_name Kind.mount_point o)) s.sessions ≡ some q
    → MountPoint.manage_clean_up_logic P o s ≡ MountPoint.end_session P o q s
unfolding MountPoint.manage_clean_up_logic
clean_up-live P o q s live = ground arith

-- The clean-up of a mount point with a session returns, takes the mount point's key out of `Sessions`
-- and nothing else, and ends the session by these calls in this order: the closing RPC, a kill RPC
-- if and only if the closing RPC failed or was refused, the removal of the notification handler, and
-- the close.
pub manage_clean_up_logic-Ends :
    {W : Type 0} (P : Platform W)
    → Replies P
    → BuildsClosing P
    → (o : MountPoint) (q : SessionPtr) (s : State W)
    → lookup (P.text (device_name Kind.mount_point o)) s.sessions ≡ some q
    → (x : Option Reply × Option Error) × (answer_to_close P o q s ≡ ok x)
      × Ends P o q s x (MountPoint.manage_clean_up_logic P o s)
manage_clean_up_logic-Ends P replies builds o q s live =
    let (x, same, either) =
      replies q Message.new_close_session o.spec.timeout
        (P.new_message Message.new_close_session s.world).1 in
    (
      x,
      same,
      rw (clean_up-live P o q s live) (end_session-Ends P replies builds o q s x either same),
    )
