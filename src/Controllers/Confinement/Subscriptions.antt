-- ===== src/Controllers/Confinement/Subscriptions.antt =====
-- The subscriptions on a session that was found.
use netconf_operator.Base.{refl, none, is_some, Option, some, pos, arith, not, ◌==◌, if◌then◌else◌}
use netconf_operator.Base.GoMap.{lookup}
use netconf_operator.Api.Objects.{Kind, any, device_name, CreateSubscription, EstablishSubscription}
use netconf_operator.Runtime.{
  Platform, State, Error, Message, Reply, SessionPtr, Call, Callback, KeptByCluster, ◌>>=◌, pure,
  deref, get_sessions, Within,
}
use netconf_operator.Runtime.Io
use netconf_operator.Runtime.Keeps.{>>=-keeps, if-keeps}
use netconf_operator.Controllers.Common.{establish_subscription_finalizer}
use netconf_operator.Controllers.Assign.{set_meta, settled}
use netconf_operator.Controllers.Confinement.Device.{Touches, cluster-Touches}
use netconf_operator.Controllers.CreateSubscription
use netconf_operator.Controllers.EstablishSubscription
use netconf_operator.Controllers.Confinement.Work.{Found, found, called, sync_rpc-Within}

module _ {W : Type 0} (P : Platform W) (q : SessionPtr) (s₀ : State W) where
  abbrev I : State W → Type 0
  I = Within (Touches (some q)) s₀

  pub create_subscription-Within :
      (o : CreateSubscription) (s : State W)
      → Found P q s₀ Kind.create_subscription o
      → I s
      → I (CreateSubscription.manage_operator_logic P o s).1
  unfolding CreateSubscription.manage_operator_logic
  create_subscription-Within o s f i = rw (found P q s₀ Kind.create_subscription o s f i) (
      ground (
        arith,
        called P q s₀
            (Call.create_notification_stream (some q) o.spec.timeout o.spec.stop_time
              o.spec.start_time o.spec.stream (Callback.on_create_subscription o))
            (P.create_notification_stream (some q) o.spec.timeout o.spec.stop_time o.spec.start_time
              o.spec.stream (Callback.on_create_subscription o) s.world).1
            s (q, refl, refl) i,
      ))

  answered-Within :
      (o : EstablishSubscription) (x : Option Reply × Option Error) (s : State W)
      → I s
      → I (EstablishSubscription.answered P o (some q) x s).1
  unfolding EstablishSubscription.answered
  answered-Within o (none, none) s i = i
  answered-Within o (none, some e) s i = i
  answered-Within o (some r, some e) s i = i
  answered-Within o (some r, none) s i = ground (
    arith,
    called P q s₀ (Call.register q r.subscription_id (Callback.on_establish_subscription o))
        (P.register q r.subscription_id (Callback.on_establish_subscription o) s.world) s refl i,
  )

  pub establish_subscription-Within :
      (o : EstablishSubscription) (s : State W)
      → Found P q s₀ Kind.establish_subscription o
      → I s
      → I (EstablishSubscription.manage_operator_logic P o s).1
  unfolding EstablishSubscription.manage_operator_logic
  establish_subscription-Within o s f i = rw (found P q s₀ Kind.establish_subscription o s f i) (
      >>=-keeps I
        (Io.sync_rpc P (some q) (Message.new_establish_subscription o.spec.xml) o.spec.timeout)
        (EstablishSubscription.answered P o (some q)) s (sync_rpc-Within P q s₀ _ _ s i)
        (λ x _. answered-Within o x _ (sync_rpc-Within P q s₀ _ _ s i)))

  end_subscription-Within :
      (o : EstablishSubscription) (s : State W)
      → I s
      → I (EstablishSubscription.end_subscription P o q s).1
  unfolding EstablishSubscription.end_subscription
  end_subscription-Within o s i =
      let id = o.status.subscription_id in
      let i' = called P q s₀ (Call.remove q id) (P.remove q id s.world) s refl i in
      let m = Message.new_rpc (EstablishSubscription.delete_subscription P id) in
      let i'' = sync_rpc-Within P q s₀ m (pos 1) _ i' in
      >>=-keeps I (Io.sync_rpc P (some q) m (pos 1))
        (λ x. if is_some x.1 then pure x.1 else pure none) _ i''
        λ x _. if-keeps I (is_some x.1) (pure x.1) (pure none) _ (λ _. i'') (λ _. i'')

  clean_up-Within :
      (o : EstablishSubscription) (s : State W)
      → Found P q s₀ Kind.establish_subscription o
      → I s
      → I (EstablishSubscription.manage_clean_up_logic P o s).1
  unfolding EstablishSubscription.manage_clean_up_logic
  clean_up-Within o s f i =
      let key = P.text (device_name Kind.establish_subscription o) in
      if-keeps I (not (o.status.subscription_id == ""))
        (get_sessions >>= λ m. deref (lookup key m) >>= EstablishSubscription.end_subscription P o)
        (pure none) s
        (λ _. rw (found P q s₀ Kind.establish_subscription o s f i) (end_subscription-Within o s i))
        (λ _. i)

  cluster_call : KeptByCluster I
  cluster_call c w s h i = called P q s₀ c w s (cluster-Touches (some q) c h) i

  release-Within :
      (o : EstablishSubscription) (s : State W) → I s → I (EstablishSubscription.release P o s).1
  unfolding EstablishSubscription.release
  release-Within o s i =
      let k = Kind.establish_subscription in
      let removed = set_meta o (P.remove_finalizer o.meta establish_subscription_finalizer) in
      let err = (P.client_update (any k removed) s.world).0 in
      let i' =
        cluster_call (Call.client_update (any k removed))
          (P.client_update (any k removed) s.world).1 s tt i in
      if-keeps I (is_some err) (Io.manage_error P k removed err) (pure settled) _
        (λ _. cluster_call _ _ _ tt i') (λ _. i')

  -- The branch of an `EstablishSubscription` that is being deleted.
  pub finalize-Within :
      (o : EstablishSubscription) (s : State W)
      → Found P q s₀ Kind.establish_subscription o
      → I s
      → I (EstablishSubscription.finalize P o s).1
  unfolding EstablishSubscription.finalize
  finalize-Within o s f i =
      if-keeps I (not (P.has_finalizer o.meta establish_subscription_finalizer)) (pure settled)
        (EstablishSubscription.manage_clean_up_logic P o >>= EstablishSubscription.cleaned_up P o) s
        (λ _. i)
        (λ _.
          >>=-keeps I (EstablishSubscription.manage_clean_up_logic P o)
            (EstablishSubscription.cleaned_up P o) s (clean_up-Within o s f i)
            λ err _.
              if-keeps I (is_some err) (Io.manage_error P Kind.establish_subscription o err)
                (EstablishSubscription.release P o) _
                (λ _. cluster_call _ _ _ tt (clean_up-Within o s f i))
                (λ _. release-Within o _ (clean_up-Within o s f i)))
