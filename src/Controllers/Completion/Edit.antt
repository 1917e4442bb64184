-- ===== src/Controllers/Completion/Edit.antt =====
-- `EditConfig`, from each of its steps on.
use netconf_operator.Base.{◌≡◌, inl, inr, Option, none, some}
use netconf_operator.Base.GoMap.{lookup}
use netconf_operator.Api.Objects.{Kind, EditConfig, device_name}
use netconf_operator.Runtime.{Platform, State, M, Error, Message, SessionPtr, Reply, IsEither}
use netconf_operator.Runtime.Io
use netconf_operator.Runtime.Finishes.{Stops, >>=-Finishes, if-Finishes}
use netconf_operator.Controllers.EditConfig
use netconf_operator.Controllers.Completion.Answers.{
  Returning, HasFailedSend, Answered, Rpc, sync_rpc-Finishes,
}
use netconf_operator.Controllers.Completion.Rpcs.{depending-Stops}

module _ {W : Type 0} (P : Platform W) (r : Returning P) (q : SessionPtr) (o : EditConfig) where
  abbrev X : State W → Type 0
  X = HasFailedSend P

  replied-Stops :
      (rest : Option Reply → M W (Option Error × EditConfig)) (x : Option Reply × Option Error)
      (s : State W)
      → IsEither x
      → Answered P x s
      → ((reply : Reply) → Stops X (rest (some reply) s))
      → Stops X (EditConfig.replied P o rest x s)
  unfolding EditConfig.replied
  replied-Stops rest (none, none) s i a h = absurd i
  replied-Stops rest (none, some e) s i a h = inr (e, a)
  replied-Stops rest (some reply, e) s i a h = h reply

  exchange-Stops :
      (m : Message) (rest : Option Reply → M W (Option Error × EditConfig)) (s : State W)
      → ((reply : Reply) (s : State W) → Stops X (rest (some reply) s))
      → Stops X (EditConfig.exchange P o (some q) m rest s)
  unfolding EditConfig.exchange
  exchange-Stops m rest s h =
      >>=-Finishes X (Rpc P s) (λ _ _. Unit) (Io.sync_rpc P (some q) m o.spec.timeout)
        (EditConfig.replied P o rest) s
        (sync_rpc-Finishes P X r (λ _ h. inl h) q m o.spec.timeout s)
        λ x s' (either, answered, _). replied-Stops rest x s' either answered (λ reply. h reply s')

  finish-Stops : (reply : Reply) (s : State W) → Stops X (EditConfig.finish P o (some reply) s)
  unfolding EditConfig.finish
  finish-Stops reply s = tt

  from_unlock-Stops :
      (reply : Reply) (s : State W) → Stops X (EditConfig.from_unlock P o (some q) (some reply) s)
  unfolding EditConfig.from_unlock
  from_unlock-Stops reply s =
      if-Finishes X (λ _ _. Unit) o.spec.unlock
        (EditConfig.exchange P o (some q) (Message.new_unlock o.spec.target)
          (λ _. EditConfig.finish P o (some reply)))
        (EditConfig.finish P o (some reply)) s
        (λ _.
          exchange-Stops _ (λ _. EditConfig.finish P o (some reply)) s (λ _. finish-Stops reply))
        (λ _. finish-Stops reply s)

  from_commit-Stops :
      (reply : Reply) (s : State W) → Stops X (EditConfig.from_commit P o (some q) (some reply) s)
  unfolding EditConfig.from_commit
  from_commit-Stops reply s =
      if-Finishes X (λ _ _. Unit) o.spec.commit
        (EditConfig.exchange P o (some q) Message.new_commit
          (λ _. EditConfig.from_unlock P o (some q) (some reply)))
        (EditConfig.from_unlock P o (some q) (some reply)) s
        (λ _.
          exchange-Stops _ (λ _. EditConfig.from_unlock P o (some q) (some reply)) s
            (λ _. from_unlock-Stops reply))
        (λ _. from_unlock-Stops reply s)

  from_edit-Stops : (s : State W) → Stops X (EditConfig.from_edit P o (some q) s)
  unfolding EditConfig.from_edit
  from_edit-Stops s = exchange-Stops _ (EditConfig.from_commit P o (some q)) s from_commit-Stops

  from_lock-Stops :
      (s : State W)
      → lookup (P.text (device_name Kind.edit_config o)) s.sessions ≡ some q
      → Stops X (EditConfig.from_lock P o s)
  unfolding EditConfig.from_lock
  from_lock-Stops s f = rw (f) (
      if-Finishes X (λ _ _. Unit) o.spec.lock
        (EditConfig.exchange P o (some q) (Message.new_lock o.spec.target)
          (λ _. EditConfig.from_edit P o (some q)))
        (EditConfig.from_edit P o (some q)) s
        (λ _. exchange-Stops _ (λ _. EditConfig.from_edit P o (some q)) s (λ _. from_edit-Stops))
        (λ _. from_edit-Stops s))

  pub edit_config-Stops :
      (s : State W)
      → lookup (P.text (device_name Kind.edit_config o)) s.sessions ≡ some q
      → Stops X (EditConfig.manage_operator_logic P o s)
  unfolding EditConfig.manage_operator_logic
  edit_config-Stops s f =
      depending-Stops P r o.meta.namespace o.spec.depends_on o (EditConfig.from_lock P o) s
        (λ s' same. from_lock-Stops s' (rw (same) f))
