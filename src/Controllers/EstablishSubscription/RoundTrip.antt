-- ===== src/Controllers/EstablishSubscription/RoundTrip.antt =====
-- What `EstablishSubscription` registers, and what its clean-up removes.
use netconf_operator.Base.{
  ◌≡◌, ◌≢◌, ◌⊎◌, inl, inr, refl, String, Option, none, some, is_some, true, ap, List, ◌∷◌, arith,
  pos, eq_iff,
}
use netconf_operator.Base.GoMap.{lookup}
use netconf_operator.Api.Objects.{Kind, EstablishSubscription, device_name}
use netconf_operator.Runtime.{
  Platform, State, Outcome, ok, panic, Error, SessionPtr, Message, Reply, Call, Callback,
}
use netconf_operator.Controllers.Assign.{set_status, set_rpc_reply, set_subscription_id}
use netconf_operator.Controllers.EstablishSubscription

-- The answer is a refusal: an error, or a reply that lists errors.
abbrev pub IsRefusal : Option Reply × Option Error → Type 0
IsRefusal (r, some e) = Unit
IsRefusal (some reply, none) = is_some reply.errors ≡ true
IsRefusal (none, none) = ⊥

-- How the work ends on an answer, after the calls `before`: it has subscribed, it has failed, or it
-- has panicked.
abbrev pub Subscribes :
    {W : Type 0}
    → EstablishSubscription
    → SessionPtr
    → Option Reply × Option Error
    → List Call
    → Outcome (Option Error × EstablishSubscription) × State W
    → Type 0
Subscribes o q x before (r, s') =
    ((reply : Reply) × (o' : EstablishSubscription) × (x ≡ (some reply, none))
      × (reply.errors ≡ none)
      × (r ≡ ok (none, o'))
      × (o'.status.status ≡ "subscribed")
      × (o'.status.subscription_id ≡ reply.subscription_id)
      × (o'.spec ≡ o.spec)
      × (o'.meta ≡ o.meta)
      × (s'.calls
          ≡ Call.register q reply.subscription_id (Callback.on_establish_subscription o) ∷ before))
    ⊎ ((o' : EstablishSubscription) × IsRefusal x
        × (r ≡ ok (x.1, o'))
        × (o'.status.status ≡ "failed")
        × (o'.status.subscription_id ≡ o.status.subscription_id)
        × (s'.calls ≡ before))
    ⊎ ((x ≡ (none, none)) × (r ≡ panic) × (s'.calls ≡ before))

module _ {W : Type 0} (P : Platform W) (o : EstablishSubscription) (q : SessionPtr) where
  replied-Subscribes :
      (reply : Reply) (es : Option (List String)) (s : State W)
      → reply.errors ≡ es
      → Subscribes o q
          (some reply, none)
          s.calls
          (EstablishSubscription.answered P o (some q) (some reply, none) s)
  unfolding EstablishSubscription.answered
  replied-Subscribes reply none s h =
      let o' = set_subscription_id (set_status o "subscribed") reply.subscription_id in
      inl (reply, o', refl, h, ground arith, refl, refl, refl, refl, ground arith)
  replied-Subscribes reply (some es) s h =
      let o' = set_rpc_reply (set_status o "failed") reply.raw_reply in
      inr (inl (o', ap is_some h, ground arith, refl, refl, ground arith))

  answered-Subscribes :
      (x : Option Reply × Option Error) (s : State W)
      → Subscribes o q x s.calls (EstablishSubscription.answered P o (some q) x s)
  unfolding EstablishSubscription.answered
  answered-Subscribes (some reply, some e) s = inr (inl (_, tt, refl, refl, refl, refl))
  answered-Subscribes (none, some e) s = inr (inl (_, tt, refl, refl, refl, refl))
  answered-Subscribes (none, none) s = inr (inr (refl, refl, refl))
  answered-Subscribes (some reply, none) s = replied-Subscribes reply reply.errors s refl

  -- The message that asks for the subscription.
  abbrev pub asking : Message
  asking = Message.new_establish_subscription o.spec.xml

  -- On the session `q`, and with a message that its constructor accepts, `SyncRPC` is called with the
  -- message, and its answer decides the rest. A reply without errors: no error is returned, the status
  -- is `subscribed` with the id of the reply, and the only further call registers the object's
  -- callback on `q` under that id. An error, or a reply that lists errors: that error, or nil, is
  -- returned, the status is `failed` with the id of before, and no further call is made. Neither reply
  -- nor error: a panic.
  pub manage_operator_logic-Subscribes :
      (s : State W) (x : Option Reply × Option Error)
      → lookup (P.text (device_name Kind.establish_subscription o)) s.sessions ≡ some q
      → (P.new_message asking s.world).0 ≡ ok tt
      → (P.sync_rpc (some q) asking o.spec.timeout (P.new_message asking s.world).1).0 ≡ ok x
      → Subscribes o q x
          (Call.sync_rpc (some q) asking o.spec.timeout ∷ Call.new_message asking ∷ s.calls)
          (EstablishSubscription.manage_operator_logic P o s)
  unfolding EstablishSubscription.manage_operator_logic
  manage_operator_logic-Subscribes s x live built answer =
      rw (live) (rw (built) (rw (answer) (answered-Subscribes x _)))

  -- The calls of a clean-up, the latest first.
  abbrev pub unsubscribing : List Call → List Call
  unsubscribing before =
      let m =
        Message.new_rpc (EstablishSubscription.delete_subscription P o.status.subscription_id) in
      Call.sync_rpc (some q) m (pos 1)
      ∷ Call.new_message m
      ∷ Call.remove q o.status.subscription_id
      ∷ before

  -- If the status records an id, the clean-up on the session `q` removes the callback under that
  -- id, and asks the device to delete the subscription of that id, with a timeout of a second.
  pub manage_clean_up_logic-unsubscribes :
      (s : State W)
      → o.status.subscription_id ≢ ""
      → lookup (P.text (device_name Kind.establish_subscription o)) s.sessions ≡ some q
      → ((w : W)
          → (P.new_message
              (Message.new_rpc
                (EstablishSubscription.delete_subscription P o.status.subscription_id))
              w).0
            ≡ ok tt)
      → (EstablishSubscription.manage_clean_up_logic P o s).1.calls ≡ unsubscribing s.calls
  unfolding EstablishSubscription.manage_clean_up_logic
  manage_clean_up_logic-unsubscribes s recorded live builds =
      let id = o.status.subscription_id in
      ground (arith, eq_iff id "", builds (P.remove q id s.world))
