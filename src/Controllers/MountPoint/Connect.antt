-- ===== src/Controllers/MountPoint/Connect.antt =====
-- What the connection of a mount point changes (`manageOperatorLogic`).
use mathlib.Core.List.{append-nil, append_assoc}
use netconf_operator.Base.{
  ◌≡◌, refl, String, List, [], ◌∷◌, ◌++◌, Option, none, some, arith, ap, sym, ◌∙◌,
}
use netconf_operator.Base.GoMap.{insert}
use netconf_operator.Api.Objects.{Kind, MountPoint, device_name}
use netconf_operator.Runtime.{
  Platform, State, Outcome, ok, panic, exit, M, continue, Error, SessionPtr,
}
use netconf_operator.Controllers.Assign.{set_status}
use netconf_operator.Controllers.MountPoint

-- How a run that began at `s` ends: with the new session under the mount point's own key, its
-- capabilities and the status `connected`, or with the sessions untouched.
abbrev pub Connects :
    {W : Type 0}
    → Platform W
    → MountPoint
    → State W
    → Outcome (Option Error × MountPoint) × State W
    → Type 0
Connects P o s (ok (none, o'), s') =
    (q : SessionPtr) × (s'.sessions ≡ insert (P.text (device_name Kind.mount_point o)) q s.sessions)
    × (o'.status.status ≡ "connected")
    × (o'.status.capabilities ≡ P.session_capabilities q s'.world)
Connects P o s (ok (some e, o'), s') = (s'.sessions ≡ s.sessions) × (o' ≡ set_status o "failed")
Connects P o s (panic, s') = s'.sessions ≡ s.sessions
Connects P o s (exit, s') = s'.sessions ≡ s.sessions

module _ {W : Type 0} (P : Platform W) where
  greeted-Connects :
      (o : MountPoint) (p : Option SessionPtr) (err : Option Error) (s s' : State W)
      → s'.sessions ≡ s.sessions
      → Connects P o s (MountPoint.greeted P o p err s')
  unfolding MountPoint.greeted
  greeted-Connects o p (some e) s s' same = (same, refl)
  greeted-Connects o none none s s' same = same
  greeted-Connects o (some q) none s s' same =
      (q, ap (insert (P.text (device_name Kind.mount_point o)) q) same, refl, refl)

  continue-Connects :
      {A : Type 0} (o : MountPoint) (r : Outcome A) (f : A → M W (Option Error × MountPoint))
      (s s' : State W)
      → s'.sessions ≡ s.sessions
      → ((a : A) → Connects P o s (f a s'))
      → Connects P o s (continue r f s')
  continue-Connects o (ok a) f s s' same h = h a
  continue-Connects o panic f s s' same h = same
  continue-Connects o exit f s s' same h = same

  dialed-Connects :
      (o : MountPoint) (x : Option SessionPtr × Option Error) (s s' : State W)
      → s'.sessions ≡ s.sessions
      → Connects P o s (MountPoint.dialed P o x s')
  unfolding MountPoint.dialed MountPoint.greet
  dialed-Connects o (p, some e) s s' same = (same, refl)
  dialed-Connects o (p, none) s s' same =
      continue-Connects o _ (MountPoint.greeted P o p) s _ same
        (λ err. greeted-Connects o p err s _ same)

  pub dial-sessions :
      (o : MountPoint) (s : State W) → (MountPoint.dial P o s).1.sessions ≡ s.sessions
  unfolding MountPoint.dial
  dial-sessions o s = ground arith

  -- The work of a mount point either stores one session, under the mount point's own key, and
  -- reports `connected` with that session's capabilities; or it leaves `Sessions` as it was, and if
  -- it returns an error, the status is `failed` and nothing else of the object has changed.
  pub manage_operator_logic-Connects :
      (o : MountPoint) (s : State W) → Connects P o s (MountPoint.manage_operator_logic P o s)
  unfolding MountPoint.manage_operator_logic
  manage_operator_logic-Connects o s =
      continue-Connects o (MountPoint.dial P o s).0 (MountPoint.dialed P o) s _ (dial-sessions o s)
        (λ x. dialed-Connects o x s _ (dial-sessions o s))

-- The loop over the additional capabilities appends them in their order.
pub append_capabilities-eq-append :
    {W : Type 0} (P : Platform W) (capabilities more : List String)
    → MountPoint.append_capabilities P capabilities more ≡ capabilities ++ more
unfolding MountPoint.append_capabilities
append_capabilities-eq-append P capabilities [] = sym (append-nil capabilities)
append_capabilities-eq-append P capabilities (c ∷ more) =
    append_capabilities-eq-append P (capabilities ++ (c ∷ [])) more
    ∙ append_assoc capabilities (c ∷ []) more

abbrev pub with_password : String → MountPoint → MountPoint
with_password password o =
    let spec = o.spec in record o { spec = record spec { password = password } }

-- The connection of a mount point by `manageOperatorLogic` does not depend on the password of its
-- spec: with any other password it makes the same calls with the same values, and leaves the same
-- `Sessions` and the same world.
pub password-is_ignored :
    {W : Type 0} (P : Platform W) (o : MountPoint) (password : String) (s : State W)
    → (MountPoint.manage_operator_logic P (with_password password o) s).1
      ≡ (MountPoint.manage_operator_logic P o s).1
unfolding MountPoint.manage_operator_logic
password-is_ignored P o password s = ground arith
