-- ===== src/Controllers/MountPoint/RoundTrip.antt =====
-- The connection of a mount point and its clean-up, one after the other.
use netconf_operator.Base.{
  ◌≡◌, ap, ◌∙◌, String, ◌==◌, if◌then◌else◌, eq_iff, Option, none, some, arith,
}
use netconf_operator.Base.GoMap.{lookup, insert, erase, lookup-insert, lookup-erase}
use netconf_operator.Api.Objects.{Kind, MountPoint, device_name}
use netconf_operator.Runtime.{Platform, State, Outcome, ok, panic, exit, Replies, Error, SessionPtr}
use netconf_operator.Controllers.MountPoint
use netconf_operator.Controllers.MountPoint.Connect.{Connects, manage_operator_logic-Connects}
use netconf_operator.Controllers.MountPoint.CleanUp.{BuildsClosing, manage_clean_up_logic-Ends}

module _ {W : Type 0} (P : Platform W) where
  -- The session of a connection that returns no error.
  connected :
      (o o' : MountPoint) (s : State W) (x : Outcome (Option Error × MountPoint) × State W)
      → Connects P o s x
      → x.0 ≡ ok (none, o')
      → (q : SessionPtr) × (x.1.sessions
          ≡ insert (P.text (device_name Kind.mount_point o)) q s.sessions)
  connected o o' s (ok (none, o''), s') (q, same, _, _) h = (q, same)
  connected o o' s (ok (some e, o''), s') c h = absurd cc
  connected o o' s (panic, s') c h = absurd cc
  connected o o' s (exit, s') c h = absurd cc

  -- A mount point, with a session in `Sessions` or without one, is connected without an error, and is
  -- then cleaned up: the clean-up returns, and `Sessions` holds nothing under the mount point's key,
  -- and under every other key what it held before. It is given that `SyncRPC` on a live session
  -- returns a reply or an error, and that the messages of the clean-up can be built.
  pub clean_up-connect :
      Replies P
      → BuildsClosing P
      → (o o' : MountPoint) (s : State W) (key : String)
      → (MountPoint.manage_operator_logic P o s).0 ≡ ok (none, o')
      → let cleaned =
          MountPoint.manage_clean_up_logic P o (MountPoint.manage_operator_logic P o s).1 in
        ((e : Option Error) × (cleaned.0 ≡ ok e))
        × (lookup key cleaned.1.sessions ≡ (
            if P.text (device_name Kind.mount_point o) == key then none else lookup key s.sessions))
  clean_up-connect replies builds o o' s key h =
      let own = P.text (device_name Kind.mount_point o) in
      let s' = (MountPoint.manage_operator_logic P o s).1 in
      let (q, inserted) =
        connected o o' s (MountPoint.manage_operator_logic P o s)
          (manage_operator_logic-Connects P o s) h in
      let there : lookup own s'.sessions ≡ some q =
        ap (lookup own) inserted
        ∙ ground (arith, lookup-insert own own q s.sessions, eq_iff own own) in
      let (x, _, (e, id, r, erased, _)) =
        manage_clean_up_logic-Ends P replies builds o q s' there in
      (
        (e, r),
        ap (lookup key) (erased ∙ ap (erase own) inserted)
            ∙ ground (
              arith,
              eq_iff own key,
              lookup-erase key own (insert own q s.sessions),
              lookup-insert key own q s.sessions,
            ),
      )
