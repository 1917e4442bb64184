-- ===== src/Controllers/MountPoint/Keeps/Finish.antt =====
-- The clean-up, and the whole of the controller.
use mathlib.Core.Bool.{false≢true}
use netconf_operator.Base.{
  ◌≡◌, sym, ap, ◌∙◌, Option, none, some, arith, Bool, true, false, not, is_some, if◌then◌else◌,
}
use netconf_operator.Base.GoMap.{lookup}
use netconf_operator.Api.Meta.{NamespacedName}
use netconf_operator.Api.Objects.{Kind, MountPoint, device_name, any}
use netconf_operator.Runtime.{Platform, State, Error, SessionPtr, Message, Reply, Call, ◌>>=◌, pure}
use netconf_operator.Runtime.Io
use netconf_operator.Runtime.Keeps.{>>=-keeps, if-keeps, on_error-keeps}
use netconf_operator.Controllers.Common.{mountpoint_finalizer}
use netconf_operator.Controllers.Assign.{set_meta, settled}
use netconf_operator.Controllers.Template.{judged}
use netconf_operator.Controllers.Template.Keeps.{Keeping, reconcile-keeps, judged-keeps}
use netconf_operator.Controllers.MountPoint
use netconf_operator.Controllers.All
use netconf_operator.Controllers.MountPoint.Keeps.{
  Opener, Keeper, sync_rpc-keeps, cluster, logic-keeps,
}

initialized_same :
    {W : Type 0} (P : Platform W) (o : MountPoint)
    → not (MountPoint.is_initialized P Kind.mount_point o).0 ≡ false
    → (MountPoint.is_initialized P Kind.mount_point o).1 ≡ o
unfolding MountPoint.is_initialized
initialized_same P o n = ground arith

module _ {W : Type 0} (P : Platform W) (D : Call → Type 0) (I : State W → Type 0) (o : MountPoint)
    (keeper : Keeper P D I o) where
  kill-keeps : (q : SessionPtr) (s : State W) → I s → I (MountPoint.kill P o q s).1
  unfolding MountPoint.kill
  kill-keeps q s i = sync_rpc-keeps P D I o keeper.opener q _ _ s i

  forget-keeps : (q : SessionPtr) (s : State W) → I s → I (MountPoint.forget P o q s).1
  unfolding MountPoint.forget
  forget-keeps q s i =
      let i₁ = keeper.erased s i in
      let i₂ =
        keeper.opener.called (Call.remove q P.notification_stream_handler)
          (P.remove q P.notification_stream_handler s.world) _ (keeper.opener.live _ tt) i₁ in
      keeper.opener.called (Call.close_session q) _ _ (keeper.opener.live (Call.close_session q) tt)
        i₂

  killed_or_not :
      (b : Bool) (q : SessionPtr) (s : State W)
      → I s
      → I ((if b then MountPoint.kill P o q else pure (none, none)) s).1
  killed_or_not b q s i =
      if-keeps I b (MountPoint.kill P o q) (pure (none, none)) s (λ _. kill-keeps q s i) (λ _. i)

  decided-keeps :
      (b : Bool) (q : SessionPtr) (s : State W)
      → I s
      → I
          (((if b then MountPoint.kill P o q else pure (none, none)) >>= λ _.
              MountPoint.forget P o q)
            s).1
  decided-keeps b q s i =
      >>=-keeps I (if b then MountPoint.kill P o q else pure (none, none))
        (λ _. MountPoint.forget P o q) s (killed_or_not b q s i)
        (λ _ _. forget-keeps q _ (killed_or_not b q s i))

  closed-keeps :
      (q : SessionPtr) (x : Option Reply × Option Error) (s : State W)
      → I s
      → I (MountPoint.closed P o q x s).1
  unfolding MountPoint.closed
  closed-keeps q (reply, some e) s i = decided-keeps true q s i
  closed-keeps q (none, none) s i = i
  closed-keeps q (some reply, none) s i = decided-keeps (is_some reply.errors) q s i

  end_session-keeps : (q : SessionPtr) (s : State W) → I s → I (MountPoint.end_session P o q s).1
  unfolding MountPoint.end_session
  end_session-keeps q s i =
      let m = Message.new_close_session in
      let i' = sync_rpc-keeps P D I o keeper.opener q m o.spec.timeout s i in
      >>=-keeps I (Io.sync_rpc P (some q) m o.spec.timeout) (MountPoint.closed P o q) s i'
        λ x _. closed-keeps q x _ i'

  clean_up-keeps : (s : State W) → I s → I (MountPoint.manage_clean_up_logic P o s).1
  unfolding MountPoint.manage_clean_up_logic
  clean_up-keeps s i =
      on_error-keeps I (lookup (P.text (device_name Kind.mount_point o)) s.sessions)
        (MountPoint.end_session P o) (pure none) s (λ q _. end_session-keeps q s i) (λ _. i)

  release-keeps : (s : State W) → I s → I (MountPoint.release P o s).1
  unfolding MountPoint.release
  release-keeps s i =
      let removed = set_meta o (P.remove_finalizer o.meta mountpoint_finalizer) in
      let err = (P.client_update (any Kind.mount_point removed) s.world).0 in
      let i' =
        keeper.opener.called (Call.client_update (any Kind.mount_point removed))
          (P.client_update (any Kind.mount_point removed) s.world).1 s (keeper.opener.live _ tt)
          i in
      if-keeps I (is_some err) (Io.manage_error P Kind.mount_point removed err) (pure settled) _
        (λ _. cluster P D I o keeper.opener _ _ _ tt i') (λ _. i')

  finalize-keeps : (s : State W) → I s → I (MountPoint.finalize P o s).1
  unfolding MountPoint.finalize MountPoint.cleaned_up
  finalize-keeps s i =
      if-keeps I (not (P.has_finalizer o.meta mountpoint_finalizer)) (pure settled)
        (MountPoint.manage_clean_up_logic P o >>= MountPoint.cleaned_up P o) s (λ _. i)
        (λ _.
          >>=-keeps I (MountPoint.manage_clean_up_logic P o) (MountPoint.cleaned_up P o) s
            (clean_up-keeps s i)
            λ err _.
              if-keeps I (is_some err) (Io.manage_error P Kind.mount_point o err)
                (MountPoint.release P o) _
                (λ _. cluster P D I o keeper.opener _ _ _ tt (clean_up-keeps s i))
                (λ _. release-keeps _ (clean_up-keeps s i)))

  keeping :
      (s : State W)
      → Keeping P Kind.mount_point
          (All.hooks P Kind.mount_point)
          I
          (λ _ _. Unit)
          (cluster P D I o keeper.opener)
          o
          s
  unfolding All.hooks MountPoint.is_valid
  keeping s = record {
    valid = λ i. i;
    passed = λ e i h. tt;
    reject = λ e s i. cluster P D I o keeper.opener _ _ s tt i;
    finalize = λ s i there n d. rw (initialized_same P o n) (finalize-keeps s i);
    logic = λ s i there n d. rw (initialized_same P o n) (logic-keeps P D I o keeper.opener s i);
  }

-- A reconcile of a `MountPoint` keeps what fits the mount point that it reads.
pub mount_point-keeps :
    {W : Type 0} (P : Platform W) (D : Call → Type 0) (I : State W → Type 0) (req : NamespacedName)
    (s : State W)
    → Keeper P D I (P.client_get Kind.mount_point req s.world).0.1
    → I s
    → I (All.reconcile P Kind.mount_point req s).1
mount_point-keeps P D I req s keeper i =
    let o = (P.client_get Kind.mount_point req s.world).0.1 in
    rw (All.reconcile-eq-template P Kind.mount_point req) (
      reconcile-keeps P Kind.mount_point (All.hooks P Kind.mount_point) I (λ _ _. Unit)
        (cluster P D I o keeper.opener) req s (keeping P D I o keeper _) i)

-- What follows the validation of a mount point that is not being deleted keeps what fits the
-- connection.
pub living-keeps :
    {W : Type 0} (P : Platform W) (D : Call → Type 0) (I : State W → Type 0) (o : MountPoint)
    → Opener P D I o
    → (x : Bool × Option Error) (s : State W) → P.is_being_deleted o.meta ≡ false
    → I s
    → I (judged P Kind.mount_point (All.hooks P Kind.mount_point) o x s).1
unfolding All.hooks MountPoint.is_valid
living-keeps P D I o opener x s living i =
    judged-keeps P Kind.mount_point (All.hooks P Kind.mount_point) I (λ _ _. Unit)
      (cluster P D I o opener) o s
      (record {
        valid = λ i. i;
        passed = λ e i h. tt;
        reject = λ e s i. cluster P D I o opener _ _ s tt i;
        finalize = λ s i there n d. absurd (
            false≢true (
              sym living ∙ ap (λ o. P.is_being_deleted o.meta) (sym (initialized_same P o n)) ∙ d));
        logic = λ s i there n d. rw (initialized_same P o n) (logic-keeps P D I o opener s i);
      })
      x s i (λ _ _. tt)
