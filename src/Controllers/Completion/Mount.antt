-- ===== src/Controllers/Completion/Mount.antt =====
-- `MountPoint`, its work and its clean-up: a nil session of the dial is the only pointer that may
-- fail it.
use netconf_operator.Base.{
  ◌≡◌, refl, inl, inr, ◌∷◌, Option, none, some, is_some, not, true, Bool, is_zero, arith,
  if◌then◌else◌,
}
use netconf_operator.Base.Duration.{seconds}
use netconf_operator.Base.GoMap.{lookup}
use netconf_operator.Api.Objects.{Kind, MountPoint, device_name}
use netconf_operator.Runtime.{
  Platform, State, Call, Error, Message, SessionPtr, Reply, IsEither, ◌>>=◌, pure,
}
use netconf_operator.Runtime.Io
use netconf_operator.Runtime.Finishes.{
  Stops, >>=-Finishes, if-Finishes, on_error-Finishes, Finishes-Stops,
}
use netconf_operator.Controllers.Assign.{settled}
use netconf_operator.Controllers.Common.{mountpoint_finalizer}
use netconf_operator.Controllers.MountPoint
use netconf_operator.Controllers.Completion.Answers.{
  Returning, HasRefused, HasFailedGreeting, outcome-Finishes, Rpc, sync_rpc-Finishes,
}

module _ {W : Type 0} (P : Platform W) (X : State W → Type 0) (r : Returning P)
    (refused : (s : State W) → HasRefused P s → X s)
    (ungreeted : (s : State W) → HasFailedGreeting P s → X s) (o : MountPoint) where
  abbrev T : {A : Type 0} → A → State W → Type 0
  T _ _ = Unit

  dial-Stops : (s : State W) → Stops X (MountPoint.dial P o s)
  unfolding MountPoint.dial
  dial-Stops s =
      if-Finishes X T (is_zero o.spec.timeout)
        (Io.dial_ssh P o.spec.target (MountPoint.ssh_config P o))
        (Io.dial_ssh_timeout P o.spec.target (MountPoint.ssh_config P o) (seconds o.spec.timeout)) s
        (λ _. tt) (λ _. tt)

  greeted-Stops :
      (p : Option SessionPtr) (e : Option Error) (s : State W)
      → (p ≡ none → X s)
      → Stops X (MountPoint.greeted P o p e s)
  unfolding MountPoint.greeted
  greeted-Stops p (some e) s x = tt
  greeted-Stops none none s x = x refl
  greeted-Stops (some q) none s x = tt

  greet-Stops : (p : Option SessionPtr) (s : State W) → Stops X (MountPoint.greet P o p s)
  unfolding MountPoint.greet
  greet-Stops p s =
      let capabilities =
        MountPoint.append_capabilities P P.default_capabilities o.spec.additional_capabilities in
      let result = P.send_hello p capabilities s.world in
      let s' : State W = record s {
        calls = Call.send_hello p capabilities ∷ s.calls;
        world = result.1;
      } in
      >>=-Finishes X (λ _ s'. p ≡ none → X s') T (Io.send_hello P p capabilities)
        (MountPoint.greeted P o p) s
        (outcome-Finishes P X (λ _ s'. p ≡ none → X s') result.0 s'
          (r.greets p capabilities s.world)
          (λ h. ungreeted s' (p, capabilities, s.calls, refl, inr (s.world, h)))
          (λ _ _ nil. ungreeted s' (p, capabilities, s.calls, refl, inl nil)))
        (λ e s'' x. greeted-Stops p e s'' x)

  dialed-Stops :
      (x : Option SessionPtr × Option Error) (s : State W) → Stops X (MountPoint.dialed P o x s)
  unfolding MountPoint.dialed
  dialed-Stops (p, some e) s = tt
  dialed-Stops (p, none) s = greet-Stops p s

  pub logic-Stops : (s : State W) → Stops X (MountPoint.manage_operator_logic P o s)
  unfolding MountPoint.manage_operator_logic
  logic-Stops s =
      >>=-Finishes X T T (MountPoint.dial P o) (MountPoint.dialed P o) s (dial-Stops s)
        (λ x s' _. dialed-Stops x s')

  forget-Stops : (q : SessionPtr) (s : State W) → Stops X (MountPoint.forget P o q s)
  unfolding MountPoint.forget
  forget-Stops q s = tt

  kill-Stops : (q : SessionPtr) (s : State W) → Stops X (MountPoint.kill P o q s)
  unfolding MountPoint.kill
  kill-Stops q s =
      Finishes-Stops X (Rpc P s) _ (sync_rpc-Finishes P X r refused q _ o.spec.timeout s)

  decided-Stops :
      (b : Bool) (q : SessionPtr) (s : State W)
      → Stops X (
          ((if b then MountPoint.kill P o q else pure (none, none)) >>= λ _.
          MountPoint.forget P o q)
            s)
  decided-Stops b q s =
      >>=-Finishes X T T (if b then MountPoint.kill P o q else pure (none, none))
        (λ _. MountPoint.forget P o q) s
        (if-Finishes X T b (MountPoint.kill P o q) (pure (none, none)) s (λ _. kill-Stops q s)
          (λ _. tt))
        (λ _ s' _. forget-Stops q s')

  closed-Stops :
      (q : SessionPtr) (x : Option Reply × Option Error) (s : State W)
      → IsEither x
      → Stops X (MountPoint.closed P o q x s)
  unfolding MountPoint.closed
  closed-Stops q (none, none) s i = absurd i
  closed-Stops q (none, some e) s i = decided-Stops true q s
  closed-Stops q (some reply, none) s i = decided-Stops (is_some reply.errors) q s
  closed-Stops q (some reply, some e) s i = absurd i

  end_session-Stops : (q : SessionPtr) (s : State W) → Stops X (MountPoint.end_session P o q s)
  unfolding MountPoint.end_session
  end_session-Stops q s =
      >>=-Finishes X (Rpc P s) T (Io.sync_rpc P (some q) Message.new_close_session o.spec.timeout)
        (MountPoint.closed P o q) s
        (sync_rpc-Finishes P X r refused q Message.new_close_session o.spec.timeout s)
        (λ x s' (either, _, _). closed-Stops q x s' either)

  clean_up-Stops : (s : State W) → Stops X (MountPoint.manage_clean_up_logic P o s)
  unfolding MountPoint.manage_clean_up_logic
  clean_up-Stops s =
      on_error-Finishes X T (lookup (P.text (device_name Kind.mount_point o)) s.sessions)
        (MountPoint.end_session P o) (pure none) s (λ q _. end_session-Stops q s) (λ _. tt)

  cleaned_up-Stops : (e : Option Error) (s : State W) → Stops X (MountPoint.cleaned_up P o e s)
  unfolding MountPoint.cleaned_up MountPoint.release
  cleaned_up-Stops (some e) s = tt
  cleaned_up-Stops none s = ground arith

  pub finalize-Stops : (s : State W) → Stops X (MountPoint.finalize P o s)
  unfolding MountPoint.finalize
  finalize-Stops s =
      if-Finishes X T (not (P.has_finalizer o.meta mountpoint_finalizer)) (pure settled)
        (MountPoint.manage_clean_up_logic P o >>= MountPoint.cleaned_up P o) s (λ _. tt)
        (λ _.
          >>=-Finishes X T T (MountPoint.manage_clean_up_logic P o) (MountPoint.cleaned_up P o) s
            (clean_up-Stops s) (λ e s' _. cleaned_up-Stops e s'))
