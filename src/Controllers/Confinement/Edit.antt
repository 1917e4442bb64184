-- ===== src/Controllers/Confinement/Edit.antt =====
-- `EditConfig` on a session that was found.
use netconf_operator.Base.{none, Option, some}
use netconf_operator.Api.Objects.{Kind, EditConfig}
use netconf_operator.Runtime.{Platform, State, M, Error, Message, Reply, SessionPtr, Within}
use netconf_operator.Runtime.Io
use netconf_operator.Runtime.Keeps.{>>=-keeps, if-keeps}
use netconf_operator.Controllers.Confinement.Device.{Touches}
use netconf_operator.Controllers.EditConfig
use netconf_operator.Controllers.Confinement.Work.{Found, found, sync_rpc-Within, depending-Within}

module _ {W : Type 0} (P : Platform W) (q : SessionPtr) (s₀ : State W) where
  abbrev I : State W → Type 0
  I = Within (Touches (some q)) s₀

  -- `EditConfig`, from each of its steps on.
  replied-Within :
      (o : EditConfig) (rest : Option Reply → M W (Option Error × EditConfig))
      (x : Option Reply × Option Error) (s : State W)
      → ((reply : Option Reply) → I (rest reply s).1)
      → I s
      → I (EditConfig.replied P o rest x s).1
  unfolding EditConfig.replied
  replied-Within o rest (none, e) s h i = i
  replied-Within o rest (some r, e) s h i = h (some r)

  exchange-Within :
      (o : EditConfig) (m : Message) (rest : Option Reply → M W (Option Error × EditConfig))
      (s : State W)
      → ((reply : Option Reply) (s : State W) → I s → I (rest reply s).1)
      → I s
      → I (EditConfig.exchange P o (some q) m rest s).1
  unfolding EditConfig.exchange
  exchange-Within o m rest s h i =
      let i' = sync_rpc-Within P q s₀ m o.spec.timeout s i in
      >>=-keeps I (Io.sync_rpc P (some q) m o.spec.timeout) (EditConfig.replied P o rest) s i'
        λ x _. replied-Within o rest x _ (λ reply. h reply _ i') i'

  finish-Within :
      (o : EditConfig) (reply : Option Reply) (s : State W)
      → I s
      → I (EditConfig.finish P o reply s).1
  unfolding EditConfig.finish
  finish-Within o none s i = i
  finish-Within o (some r) s i = i

  from_unlock-Within :
      (o : EditConfig) (reply : Option Reply) (s : State W)
      → I s
      → I (EditConfig.from_unlock P o (some q) reply s).1
  unfolding EditConfig.from_unlock
  from_unlock-Within o reply s i =
      if-keeps I o.spec.unlock
        (EditConfig.exchange P o (some q) (Message.new_unlock o.spec.target)
          (λ _. EditConfig.finish P o reply))
        (EditConfig.finish P o reply) s
        (λ _.
          exchange-Within o _ (λ _. EditConfig.finish P o reply) s (λ _. finish-Within o reply) i)
        (λ _. finish-Within o reply s i)

  from_commit-Within :
      (o : EditConfig) (reply : Option Reply) (s : State W)
      → I s
      → I (EditConfig.from_commit P o (some q) reply s).1
  unfolding EditConfig.from_commit
  from_commit-Within o reply s i =
      if-keeps I o.spec.commit
        (EditConfig.exchange P o (some q) Message.new_commit
          (λ _. EditConfig.from_unlock P o (some q) reply))
        (EditConfig.from_unlock P o (some q) reply) s
        (λ _.
          exchange-Within o _ (λ _. EditConfig.from_unlock P o (some q) reply) s
            (λ _. from_unlock-Within o reply) i)
        (λ _. from_unlock-Within o reply s i)

  from_edit-Within :
      (o : EditConfig) (s : State W) → I s → I (EditConfig.from_edit P o (some q) s).1
  unfolding EditConfig.from_edit
  from_edit-Within o s i =
      exchange-Within o _ (EditConfig.from_commit P o (some q)) s (from_commit-Within o) i

  from_lock-Within :
      (o : EditConfig) (s : State W)
      → Found P q s₀ Kind.edit_config o
      → I s
      → I (EditConfig.from_lock P o s).1
  unfolding EditConfig.from_lock
  from_lock-Within o s f i = rw (found P q s₀ Kind.edit_config o s f i) (
      if-keeps I o.spec.lock
        (EditConfig.exchange P o (some q) (Message.new_lock o.spec.target)
          (λ _. EditConfig.from_edit P o (some q)))
        (EditConfig.from_edit P o (some q)) s
        (λ _.
          exchange-Within o _ (λ _. EditConfig.from_edit P o (some q)) s (λ _. from_edit-Within o)
            i)
        (λ _. from_edit-Within o s i))

  pub edit_config-Within :
      (o : EditConfig) (s : State W)
      → Found P q s₀ Kind.edit_config o
      → I s
      → I (EditConfig.manage_operator_logic P o s).1
  unfolding EditConfig.manage_operator_logic
  edit_config-Within o s f i =
      depending-Within P q s₀ o.meta.namespace o.spec.depends_on o (EditConfig.from_lock P o) s
        (λ s i. from_lock-Within o s f i) i
