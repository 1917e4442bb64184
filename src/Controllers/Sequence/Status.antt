-- ===== src/Controllers/Sequence/Status.antt =====
-- What `EditConfig` reports (controllers/editconfig_controller.go).
use netconf_operator.Base.{◌≡◌, refl, Bool, not, Option, none, some, if◌then◌else◌, is_some}
use netconf_operator.Base.GoMap.{lookup}
use netconf_operator.Api.Common.{is_nil}
use netconf_operator.Api.Objects.{Kind, EditConfig, device_name}
use netconf_operator.Runtime.{Platform, State, M, Error, Message, Reply, SessionPtr, ◌>>=◌, pure}
use netconf_operator.Runtime.Io
use netconf_operator.Runtime.Returns.{Returns, >>=-Returns, if-Returns}
use netconf_operator.Controllers.Common.{validate_dependency}
use netconf_operator.Controllers.EditConfig

-- A report of an error leaves the object as it was; any other says `success`.
abbrev pub IsReport : EditConfig → Option Error × EditConfig → Type 0
IsReport o (some e, o') = o' ≡ o
IsReport o (none, o') = (o'.status.status ≡ "success") × (o'.spec ≡ o.spec) × (o'.meta ≡ o.meta)

module _ {W : Type 0} (P : Platform W) (o : EditConfig) (q : Option SessionPtr) where
  finish-Returns :
      (reply : Option Reply) (s : State W) → Returns (IsReport o) (EditConfig.finish P o reply s)
  unfolding EditConfig.finish
  finish-Returns none s = tt
  finish-Returns (some r) s = (refl, refl, refl)

  replied-Returns :
      (rest : Option Reply → M W (Option Error × EditConfig)) (x : Option Reply × Option Error)
      (s : State W)
      → ((reply : Option Reply) (s : State W) → Returns (IsReport o) (rest reply s))
      → Returns (IsReport o) (EditConfig.replied P o rest x s)
  unfolding EditConfig.replied
  replied-Returns rest (none, e) s h = tt
  replied-Returns rest (some r, e) s h = h (some r) s

  exchange-Returns :
      (m : Message) (rest : Option Reply → M W (Option Error × EditConfig)) (s : State W)
      → ((reply : Option Reply) (s : State W) → Returns (IsReport o) (rest reply s))
      → Returns (IsReport o) (EditConfig.exchange P o q m rest s)
  unfolding EditConfig.exchange
  exchange-Returns m rest s h =
      >>=-Returns (IsReport o) (Io.sync_rpc P q m o.spec.timeout) (EditConfig.replied P o rest) s
        λ x _. replied-Returns rest x _ h

  -- A message that the spec may ask for, and what follows it in both cases.
  optional-Returns :
      (b : Bool) (m : Message) (next : M W (Option Error × EditConfig)) (s : State W)
      → ((s : State W) → Returns (IsReport o) (next s))
      → Returns (IsReport o) ((if b then EditConfig.exchange P o q m (λ _. next) else next) s)
  optional-Returns b m next s h =
      if-Returns (IsReport o) b (EditConfig.exchange P o q m (λ _. next)) next s
        (λ _. exchange-Returns m (λ _. next) s (λ _. h)) (λ _. h s)

  from_commit-Returns :
      (reply : Option Reply) (s : State W)
      → Returns (IsReport o) (EditConfig.from_commit P o q reply s)
  unfolding EditConfig.from_commit EditConfig.from_unlock
  from_commit-Returns reply s =
      optional-Returns o.spec.commit Message.new_commit (EditConfig.from_unlock P o q reply) s λ s'.
        optional-Returns o.spec.unlock (Message.new_unlock o.spec.target)
          (EditConfig.finish P o reply) s' (finish-Returns reply)

  from_edit-Returns : (s : State W) → Returns (IsReport o) (EditConfig.from_edit P o q s)
  unfolding EditConfig.from_edit
  from_edit-Returns s =
      exchange-Returns (Message.new_edit_config o.spec.target o.spec.operation o.spec.xml)
        (EditConfig.from_commit P o q) s from_commit-Returns

module _ {W : Type 0} (P : Platform W) (o : EditConfig) where
  from_lock-Returns : (s : State W) → Returns (IsReport o) (EditConfig.from_lock P o s)
  unfolding EditConfig.from_lock
  from_lock-Returns s =
      let q = lookup (P.text (device_name Kind.edit_config o)) s.sessions in
      optional-Returns P o q o.spec.lock (Message.new_lock o.spec.target)
        (EditConfig.from_edit P o q) s (from_edit-Returns P o q)

-- If the work of an `EditConfig` returns an error, it returns the object unchanged; if it returns
-- none, it has set the status to `success`, whatever errors the replies listed, and has changed
-- neither the spec nor the metadata. No run sets the status to `failed`.
pub manage_operator_logic-IsReport :
    {W : Type 0} (P : Platform W) (o : EditConfig) (s : State W)
    → Returns (IsReport o) (EditConfig.manage_operator_logic P o s)
unfolding EditConfig.manage_operator_logic
manage_operator_logic-IsReport {W = W} P o s =
    let check = validate_dependency P o.meta.namespace o.spec.depends_on in
    let next =
      λ (err : Option Error). if is_some err then pure (err, o) else EditConfig.from_lock P o in
    if-Returns (IsReport o) (not (is_nil o.spec.depends_on)) (check >>= next)
      (EditConfig.from_lock P o) s
      (λ _. >>=-Returns (IsReport o) check next s λ err _. go err (check s).1)
      (λ _. from_lock-Returns P o s)
  where
    go :
        (err : Option Error) (s : State W)
        → Returns (IsReport o) ((if is_some err then pure (err, o) else EditConfig.from_lock P o) s)
    go (some e) s = refl
    go none s = from_lock-Returns P o s
