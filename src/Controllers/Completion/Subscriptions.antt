-- ===== src/Controllers/Completion/Subscriptions.antt =====
-- The two subscriptions, their work and the clean-up: none dereferences a nil pointer itself.
use netconf_operator.Base.{
  ◌≡◌, refl, ◌∷◌, Option, none, some, is_some, not, pos, ◌==◌, arith, if◌then◌else◌,
}
use netconf_operator.Base.GoMap.{lookup}
use netconf_operator.Api.Objects.{Kind, EstablishSubscription, CreateSubscription, device_name}
use netconf_operator.Runtime.{
  Platform, State, Call, Callback, Error, Message, SessionPtr, Reply, IsEither, deref, get_sessions,
  ◌>>=◌, pure,
}
use netconf_operator.Runtime.Io
use netconf_operator.Runtime.Finishes.{Stops, >>=-Finishes, if-Finishes}
use netconf_operator.Controllers.Assign.{settled}
use netconf_operator.Controllers.Common.{establish_subscription_finalizer}
use netconf_operator.Controllers.EstablishSubscription
use netconf_operator.Controllers.CreateSubscription
use netconf_operator.Controllers.Completion.Answers.{
  Returning, HasRefused, HasBrokenStream, outcome-Finishes, Rpc, sync_rpc-Finishes,
}

module _ {W : Type 0} (P : Platform W) (X : State W → Type 0) (r : Returning P)
    (refused : (s : State W) → HasRefused P s → X s) (q : SessionPtr)
    (o : EstablishSubscription) where
  answered-Stops :
      (x : Option Reply × Option Error) (s : State W)
      → IsEither x
      → Stops X (EstablishSubscription.answered P o (some q) x s)
  unfolding EstablishSubscription.answered
  answered-Stops (none, none) s i = absurd i
  answered-Stops (none, some e) s i = tt
  answered-Stops (some reply, none) s i = ground arith
  answered-Stops (some reply, some e) s i = absurd i

  pub establish_subscription-Stops :
      (s : State W)
      → lookup (P.text (device_name Kind.establish_subscription o)) s.sessions ≡ some q
      → Stops X (EstablishSubscription.manage_operator_logic P o s)
  unfolding EstablishSubscription.manage_operator_logic
  establish_subscription-Stops s f = rw (f) (
      >>=-Finishes X (Rpc P s) (λ _ _. Unit)
        (Io.sync_rpc P (some q) (Message.new_establish_subscription o.spec.xml) o.spec.timeout)
        (EstablishSubscription.answered P o (some q)) s
        (sync_rpc-Finishes P X r refused q (Message.new_establish_subscription o.spec.xml)
          o.spec.timeout s)
        (λ x s' (either, _, _). answered-Stops x s' either))

  end_subscription-Stops : (s : State W) → Stops X (EstablishSubscription.end_subscription P o q s)
  unfolding EstablishSubscription.end_subscription
  end_subscription-Stops s =
      let m =
        Message.new_rpc (EstablishSubscription.delete_subscription P o.status.subscription_id) in
      let s' = (Io.remove P q o.status.subscription_id s).1 in
      >>=-Finishes X (Rpc P s') (λ _ _. Unit) (Io.sync_rpc P (some q) m (pos 1))
        (λ x. if is_some x.1 then pure x.1 else pure none) s'
        (sync_rpc-Finishes P X r refused q m (pos 1) s')
        λ x s' _.
          if-Finishes X (λ _ _. Unit) (is_some x.1) (pure x.1) (pure none) s' (λ _. tt) (λ _. tt)

  clean_up-Stops :
      (s : State W)
      → lookup (P.text (device_name Kind.establish_subscription o)) s.sessions ≡ some q
      → Stops X (EstablishSubscription.manage_clean_up_logic P o s)
  unfolding EstablishSubscription.manage_clean_up_logic
  clean_up-Stops s f =
      let key = P.text (device_name Kind.establish_subscription o) in
      if-Finishes X (λ _ _. Unit) (not (o.status.subscription_id == ""))
        (get_sessions >>= λ m. deref (lookup key m) >>= EstablishSubscription.end_subscription P o)
        (pure none) s (λ _. rw (f) (end_subscription-Stops s)) (λ _. tt)

  cleaned_up-Stops :
      (e : Option Error) (s : State W) → Stops X (EstablishSubscription.cleaned_up P o e s)
  unfolding EstablishSubscription.cleaned_up EstablishSubscription.release
  cleaned_up-Stops (some e) s = tt
  cleaned_up-Stops none s = ground arith

  pub finalize-Stops :
      (s : State W)
      → lookup (P.text (device_name Kind.establish_subscription o)) s.sessions ≡ some q
      → Stops X (EstablishSubscription.finalize P o s)
  unfolding EstablishSubscription.finalize
  finalize-Stops s f =
      if-Finishes X (λ _ _. Unit) (not (P.has_finalizer o.meta establish_subscription_finalizer))
        (pure settled)
        (EstablishSubscription.manage_clean_up_logic P o >>= EstablishSubscription.cleaned_up P o) s
        (λ _. tt)
        (λ _.
          >>=-Finishes X (λ _ _. Unit) (λ _ _. Unit)
            (EstablishSubscription.manage_clean_up_logic P o) (EstablishSubscription.cleaned_up P o)
            s (clean_up-Stops s f) (λ e s' _. cleaned_up-Stops e s'))

-- `CreateSubscription` looks at no reply: only its call for the stream may panic.
module _ {W : Type 0} (P : Platform W) (r : Returning P) where
  streamed-Stops :
      (o : CreateSubscription) (e : Option Error) (s : State W)
      → Stops (HasBrokenStream P) (CreateSubscription.streamed P o e s)
  unfolding CreateSubscription.streamed
  streamed-Stops o e s = ground arith

  pub create_subscription-Stops :
      (o : CreateSubscription) (q : SessionPtr) (s : State W)
      → lookup (P.text (device_name Kind.create_subscription o)) s.sessions ≡ some q
      → Stops (HasBrokenStream P) (CreateSubscription.manage_operator_logic P o s)
  unfolding CreateSubscription.manage_operator_logic
  create_subscription-Stops o q s f =
      let t = o.spec.timeout in
      let f' = Callback.on_create_subscription o in
      let c =
        Call.create_notification_stream (some q) t o.spec.stop_time o.spec.start_time o.spec.stream
          f' in
      let result =
        P.create_notification_stream (some q) t o.spec.stop_time o.spec.start_time o.spec.stream f'
          s.world in
      let s' : State W = record s { calls = c ∷ s.calls; world = result.1 } in
      rw (f) (
        >>=-Finishes (HasBrokenStream P) (λ _ _. Unit) (λ _ _. Unit)
          (Io.create_notification_stream P (some q) t o.spec.stop_time o.spec.start_time
            o.spec.stream f')
          (CreateSubscription.streamed P o) s
          (outcome-Finishes P (HasBrokenStream P) (λ _ _. Unit) result.0 s'
            (r.streams (some q) t o.spec.stop_time o.spec.start_time o.spec.stream f' s.world)
            (λ h. (
              q, t, o.spec.stop_time, o.spec.start_time, o.spec.stream, f', s.world, s.calls, h,
              refl,
            ))
            (λ _ _. tt))
          (λ e s'' _. streamed-Stops o e s''))
