-- ===== src/Controllers/MountPoint/Greeting.antt =====
-- The calls that connect a mount point.
use netconf_operator.Base.{
  ◌≡◌, refl, ◌∙◌, ap, ◌⊎◌, inl, inr, Option, none, some, List, ◌∷◌, ◌++◌, arith, is_zero,
  if◌then◌else◌,
}
use netconf_operator.Base.Duration.{seconds}
use netconf_operator.Api.Objects.{MountPoint}
use netconf_operator.Runtime.{
  Platform, State, Outcome, ok, panic, exit, Error, SessionPtr, Call, continue,
}
use netconf_operator.Controllers.MountPoint.Connect.{append_capabilities-eq-append}
use netconf_operator.Controllers.MountPoint

module _ {W : Type 0} (P : Platform W) (o : MountPoint) where
  -- The dial, with the timeout in nanoseconds if the spec gives one.
  abbrev pub dial_call : Call
  dial_call =
      if is_zero o.spec.timeout
      then Call.dial_ssh o.spec.target (MountPoint.ssh_config P o)
      else Call.dial_ssh_timeout o.spec.target (MountPoint.ssh_config P o) (seconds o.spec.timeout)

  -- The greeting, with the default capabilities and then those of the spec.
  abbrev pub hello_call : Option SessionPtr → Call
  hello_call p = Call.send_hello p (P.default_capabilities ++ o.spec.additional_capabilities)

  greeted-calls :
      (p : Option SessionPtr) (r : Outcome (Option Error)) (s : State W)
      → (continue r (MountPoint.greeted P o p) s).1.calls ≡ s.calls
  unfolding MountPoint.greeted
  greeted-calls p (ok (some e)) s = refl
  greeted-calls none (ok none) s = refl
  greeted-calls (some q) (ok none) s = refl
  greeted-calls p panic s = refl
  greeted-calls p exit s = refl

  greet-calls :
      (p : Option SessionPtr) (s : State W)
      → (MountPoint.greet P o p s).1.calls ≡ hello_call p ∷ s.calls
  unfolding MountPoint.greet
  greet-calls p s =
      greeted-calls p _ _
      ∙ ap (λ capabilities. Call.send_hello p capabilities ∷ s.calls)
          (append_capabilities-eq-append P P.default_capabilities o.spec.additional_capabilities)

  pub dial-calls : (s : State W) → (MountPoint.dial P o s).1.calls ≡ dial_call ∷ s.calls
  unfolding MountPoint.dial
  dial-calls s = ground arith

  -- The calls after the dial.
  abbrev pub Greets : List Call → List Call → Type 0
  Greets dialed calls =
      (calls ≡ dialed) ⊎ ((p : Option SessionPtr) × (calls ≡ hello_call p ∷ dialed))

  dialed-Greets :
      (r : Outcome (Option SessionPtr × Option Error)) (s : State W)
      → Greets s.calls (continue r (MountPoint.dialed P o) s).1.calls
  unfolding MountPoint.dialed
  dialed-Greets (ok (p, some e)) s = inl refl
  dialed-Greets (ok (p, none)) s = inr (p, greet-calls p s)
  dialed-Greets panic s = inl refl
  dialed-Greets exit s = inl refl

  -- The work of a `MountPoint` makes one dial, with the spec's timeout in nanoseconds or without one
  -- if it is zero, and after it at most one greeting, which offers the default capabilities and then
  -- those of the spec. It makes no other call, so it closes no session that was there before.
  pub manage_operator_logic-Greets :
      (s : State W) → Greets (dial_call ∷ s.calls) (MountPoint.manage_operator_logic P o s).1.calls
  unfolding MountPoint.manage_operator_logic
  manage_operator_logic-Greets s =
      rw (← dial-calls s) (dialed-Greets (MountPoint.dial P o s).0 (MountPoint.dial P o s).1)
