-- ===== src/Controllers/Completion/Rpcs.antt =====
-- The six controllers of one RPC, `CreateSubscription`, and the check of a dependency.
use netconf_operator.Base.{
  ◌≡◌, inl, inr, refl, not, Option, none, some, is_some, if◌then◌else◌, String, arith,
}
use netconf_operator.Base.GoMap.{lookup}
use netconf_operator.Api.Common.{DependsOn, is_nil}
use netconf_operator.Api.Objects.{Kind, Object, device_name, Unlock}
use netconf_operator.Runtime.{
  Platform, State, M, Error, SessionPtr, ◌>>=◌, pure, Reply, IsEither, Within-refl, Within-sessions,
}
use netconf_operator.Runtime.Io
use netconf_operator.Runtime.Finishes.{Finishes, Stops, >>=-Finishes, if-Finishes, Stops-Finishes}
use netconf_operator.Controllers.Common.{validate_dependency}
use netconf_operator.Controllers.Common.Frame.{validate_dependency-Within}
use netconf_operator.Controllers.Confinement.Device.{Touches, cluster-Touches}
use netconf_operator.Controllers.OneRpc.{
  OneRpc, kind_of, message_of, timeout_of, send, one_rpc, send-eq-one_rpc, answer,
}
use netconf_operator.Controllers.Unlock
use netconf_operator.Controllers.Completion.Answers.{
  Returning, HasFailedSend, Answered, Rpc, sync_rpc-Finishes,
}
use netconf_operator.Controllers.Completion.Valid.{dependency-Stops}

module _ {W : Type 0} (P : Platform W) (r : Returning P) where
  answer-Stops :
      (c : OneRpc) (o : Object (kind_of c)) (x : Option Reply × Option Error) (s : State W)
      → IsEither x
      → Answered P x s
      → Stops (HasFailedSend P) (answer c o x, s)
  unfolding answer
  answer-Stops c o (none, none) s i a = absurd i
  answer-Stops c o (none, some e) s i a = inr (e, a)
  answer-Stops c o (some reply, none) s i a = ground arith
  answer-Stops c o (some reply, some e) s i a = absurd i

  pub send-Stops :
      (c : OneRpc) (o : Object (kind_of c)) (q : SessionPtr) (s : State W)
      → lookup (P.text (device_name (kind_of c) o)) s.sessions ≡ some q
      → Stops (HasFailedSend P) (send P c o s)
  unfolding one_rpc
  send-Stops c o q s f =
      rw (send-eq-one_rpc P c o s, f)
        (>>=-Finishes (HasFailedSend P) (Rpc P s) (λ _ _. Unit)
          (Io.sync_rpc P (some q) (message_of c o) (timeout_of c o)) (λ x s. (answer c o x, s)) s
          (sync_rpc-Finishes P (HasFailedSend P) r (λ _ h. inl h) q (message_of c o)
            (timeout_of c o) s)
          (λ x s' (either, answered, _). answer-Stops c o x s' either answered))

  -- The check of a dependency returns, and leaves the sessions alone.
  dependency-Finishes :
      (namespace : String) (d : DependsOn) (s : State W)
      → Finishes
          (HasFailedSend P)
          (λ _ s'. s'.sessions ≡ s.sessions)
          (validate_dependency P namespace d s)
  dependency-Finishes namespace d s =
      Stops-Finishes (HasFailedSend P) (λ _ s'. s'.sessions ≡ s.sessions)
        (validate_dependency P namespace d s).0 (validate_dependency P namespace d s).1
        (dependency-Stops P (HasFailedSend P) namespace d s)
        (λ _ _. Within-sessions (Touches none) s _ (
          validate_dependency-Within P (Touches none) s (cluster-Touches none) namespace d s
            (Within-refl (Touches none) s)))

  -- A dependency that is checked before the work.
  pub depending-Stops :
      {A : Type 0} (namespace : String) (d : DependsOn) (o : A) (next : M W (Option Error × A))
      (s : State W)
      → ((s' : State W) → s'.sessions ≡ s.sessions → Stops (HasFailedSend P) (next s'))
      → Stops (HasFailedSend P) (
          (if not (is_nil d)
              then (validate_dependency P namespace d >>= λ err.
                  if is_some err then pure (err, o) else next)
              else next)
            s)
  depending-Stops namespace d o next s h =
      if-Finishes (HasFailedSend P) (λ _ _. Unit) (not (is_nil d))
        (validate_dependency P namespace d >>= λ err. if is_some err then pure (err, o) else next)
        next s
        (λ _.
          >>=-Finishes (HasFailedSend P) (λ _ s'. s'.sessions ≡ s.sessions) (λ _ _. Unit)
            (validate_dependency P namespace d) (λ err. if is_some err then pure (err, o) else next)
            s (dependency-Finishes namespace d s)
            λ err s' same.
              if-Finishes (HasFailedSend P) (λ _ _. Unit) (is_some err) (pure (err, o)) next s'
                (λ _. tt) (λ _. h s' same))
        (λ _. h s refl)

  pub unlock-Stops :
      (o : Unlock) (q : SessionPtr) (s : State W)
      → lookup (P.text (device_name Kind.unlock o)) s.sessions ≡ some q
      → Stops (HasFailedSend P) (Unlock.manage_operator_logic P o s)
  unfolding Unlock.manage_operator_logic send
  unlock-Stops o q s f =
      depending-Stops o.meta.namespace o.spec.depends_on o (Unlock.send_unlock P o) s
        (λ s' same. send-Stops OneRpc.unlock o q s' (rw same f))
