-- ===== src/Controllers/OneRpc/Whole.antt =====
-- A whole reconcile of the six controllers of one RPC, when all goes well.
use netconf_operator.Base.{◌≡◌, refl, ap, ◌∙◌, true, false, Option, none, some, ◌∷◌}
use netconf_operator.Api.Meta.{NamespacedName}
use netconf_operator.Api.Common.{is_nil}
use netconf_operator.Api.Objects.{Object}
use netconf_operator.Runtime.{Platform, State, ok, Error, Reply, SessionPtr, Call, ◌>>=◌, continue}
use netconf_operator.Runtime.Io
use netconf_operator.Controllers.Template
use netconf_operator.Controllers.Template.Keeps.{after_get}
use netconf_operator.Controllers.Lock
use netconf_operator.Controllers.Unlock
use netconf_operator.Controllers.Commit
use netconf_operator.Controllers.Get
use netconf_operator.Controllers.GetConfig
use netconf_operator.Controllers.Rpc
use netconf_operator.Controllers.All
use netconf_operator.Controllers.OneRpc.{
  OneRpc, kind_of, message_of, timeout_of, send, one_rpc, send-eq-one_rpc,
}
use netconf_operator.Controllers.OneRpc.Report.{
  recorded, answer_of, session_of, Built, answer-reply,
}

-- The object does not wait for another: only `Unlock` may, in its work.
abbrev pub IsIndependent : (r : OneRpc) → Object (kind_of r) → Type 0
IsIndependent OneRpc.unlock o = is_nil o.spec.depends_on ≡ true
IsIndependent r o = Unit

module _ {W : Type 0} (P : Platform W) (r : OneRpc) where
  -- The state after the exchange on the session `q`.
  abbrev pub after_rpc : Object (kind_of r) → SessionPtr → State W → State W
  after_rpc o q s = record s {
    calls =
        Call.sync_rpc (some q) (message_of r o) (timeout_of r o)
        ∷ Call.new_message (message_of r o)
        ∷ s.calls;
    world =
        (P.sync_rpc (some q) (message_of r o) (timeout_of r o)
          (P.new_message (message_of r o) s.world).1).1;
  }

  send-recorded :
      (o : Object (kind_of r)) (q : SessionPtr) (reply : Reply) (s : State W)
      → session_of P r o s ≡ some q
      → Built P r o s
      → answer_of P r o (some q) s ≡ ok (some reply, none)
      → send P r o s ≡ (ok (none, recorded r o reply), after_rpc o q s)
  unfolding one_rpc
  send-recorded o q reply s live built answered =
      rw (send-eq-one_rpc P r o s, live)
        (rw (built) (rw (answered) (ap (λ x. (x, after_rpc o q s)) (answer-reply r o reply))))

module _ {W : Type 0} (P : Platform W) where
  -- A valid object that is not being deleted is worked on.
  judged-work :
      (r : OneRpc) (o : Object (kind_of r)) (e : Option Error) (s : State W)
      → P.is_being_deleted o.meta ≡ false
      → IsIndependent r o
      → Template.judged P (kind_of r) (All.hooks P (kind_of r)) o (true, e) s
        ≡ (send P r o >>= Template.report P (kind_of r) (All.hooks P (kind_of r))) s
  unfolding Template.judged All.hooks send Lock.is_initialized Unlock.is_initialized
      Commit.is_initialized Get.is_initialized GetConfig.is_initialized Rpc.is_initialized
      Unlock.manage_operator_logic
  judged-work OneRpc.lock o e s living alone = rw (living) refl
  judged-work OneRpc.unlock o e s living alone = rw (living) (rw (alone) refl)
  judged-work OneRpc.commit o e s living alone = rw (living) refl
  judged-work OneRpc.get o e s living alone = rw (living) refl
  judged-work OneRpc.get_config o e s living alone = rw (living) refl
  judged-work OneRpc.rpc o e s living alone = rw (living) refl

  -- What follows the read of an object without an error.
  fetched-judged :
      (r : OneRpc) (x : Option Error × Object (kind_of r)) (e : Option Error) (s : State W)
      → x.0 ≡ none
      → ((All.hooks P (kind_of r)).is_valid x.1 s).0 ≡ ok (true, e)
      → Template.fetched P (kind_of r) (All.hooks P (kind_of r)) x s
        ≡ Template.judged P
            (kind_of r)
            (All.hooks P (kind_of r))
            x.1
            (true, e)
            ((All.hooks P (kind_of r)).is_valid x.1 s).1
  unfolding Template.fetched
  fetched-judged r (none, o) e s nil valid = rw (valid) refl
  fetched-judged r (some err, o) e s nil valid = absurd cc

  -- A reconcile of a `Lock`, `Unlock`, `Commit`, `Get`, `GetConfig` or `RPC` whose object is read,
  -- passes its validation, is not being deleted and (an `Unlock`) does not wait for another object,
  -- and whose device replies on the session of the mount point, has sent the one message of the
  -- object after the validation, and ends with the report of success for the object in which that
  -- reply is recorded, with `Sessions` as the validation left it.
  pub reconcile-records :
      (r : OneRpc) (req : NamespacedName) (e : Option Error) (q : SessionPtr) (reply : Reply)
      (s : State W)
      → let k = kind_of r in
        let x = (P.client_get k req s.world).0 in
        let valid = (All.hooks P k).is_valid x.1 (after_get P k req s) in
        x.0 ≡ none
        → valid.0 ≡ ok (true, e)
        → P.is_being_deleted x.1.meta ≡ false
        → IsIndependent r x.1
        → session_of P r x.1 valid.1 ≡ some q
        → Built P r x.1 valid.1
        → answer_of P r x.1 (some q) valid.1 ≡ ok (some reply, none)
        → All.reconcile P k req s
          ≡ Io.manage_success P k (recorded r x.1 reply) (after_rpc P r x.1 q valid.1)
  unfolding Template.reconcile Template.report
  reconcile-records r req e q reply s nil valid living alone live built answered =
      let k = kind_of r in
      let x = (P.client_get k req s.world).0 in
      let s' = ((All.hooks P k).is_valid x.1 (after_get P k req s)).1 in
      ap (λ m. m s) (All.reconcile-eq-template P k req)
      ∙ fetched-judged r x e (after_get P k req s) nil valid
      ∙ judged-work r x.1 e s' living alone
      ∙ ap (λ y. continue y.0 (Template.report P k (All.hooks P k)) y.1)
          (send-recorded P r x.1 q reply s' live built answered)
