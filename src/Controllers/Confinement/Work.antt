-- ===== src/Controllers/Confinement/Work.antt =====
-- The controllers of one RPC on a session that was found, and what the others share with them.
use netconf_operator.Base.{
  ◌∷◌, ◌≡◌, refl, is_some, String, Option, some, ℤ, arith, not, if◌then◌else◌,
}
use netconf_operator.Base.GoMap.{lookup}
use netconf_operator.Api.Common.{DependsOn, is_nil}
use netconf_operator.Api.Objects.{Kind, Object, device_name, Unlock}
use netconf_operator.Runtime.{
  Platform, State, M, Error, Message, SessionPtr, Call, ◌>>=◌, pure, Within, Within-call,
  Within-sessions,
}
use netconf_operator.Runtime.Io
use netconf_operator.Runtime.Keeps.{>>=-keeps, if-keeps}
use netconf_operator.Controllers.Common.{validate_dependency}
use netconf_operator.Controllers.Common.Frame.{validate_dependency-Within}
use netconf_operator.Controllers.Confinement.Device.{Touches, cluster-Touches}
use netconf_operator.Controllers.OneRpc.{
  OneRpc, kind_of, message_of, timeout_of, send, one_rpc, send-eq-one_rpc, answer,
}
use netconf_operator.Controllers.Unlock

module _ {W : Type 0} (P : Platform W) (q : SessionPtr) (s₀ : State W) where
  abbrev pub I : State W → Type 0
  I = Within (Touches (some q)) s₀

  -- The session of the object's mount point is `q`.
  abbrev pub Found : (k : Kind) → Object k → Type 0
  Found k o = lookup (P.text (device_name k o)) s₀.sessions ≡ some q

  pub found :
      (k : Kind) (o : Object k) (s : State W)
      → Found k o
      → I s
      → lookup (P.text (device_name k o)) s.sessions ≡ some q
  found k o s f i = rw (Within-sessions (Touches (some q)) s₀ s i) f

  pub called :
      (c : Call) (w : W) (s : State W)
      → Touches (some q) c
      → I s
      → I (record s { calls = c ∷ s.calls; world = w })
  called = Within-call (Touches (some q)) s₀

  pub sync_rpc-Within :
      (m : Message) (t : ℤ) (s : State W) → I s → I (Io.sync_rpc P (some q) m t s).1
  sync_rpc-Within m t s i =
      let s' = record s {
        calls = Call.new_message m ∷ s.calls;
        world = (P.new_message m s.world).1;
      } in
      let i' = called (Call.new_message m) (P.new_message m s.world).1 s tt i in
      ground (
        arith,
        i',
        called (Call.sync_rpc (some q) m t) (P.sync_rpc (some q) m t s'.world).1 s' (q, refl, refl)
            i',
      )

  dependency :
      (namespace : String) (d : DependsOn) (s : State W)
      → I s
      → I (validate_dependency P namespace d s).1
  dependency = validate_dependency-Within P (Touches (some q)) s₀ (cluster-Touches (some q))

  -- The six controllers of one RPC.
  pub send-Within :
      (r : OneRpc) (o : Object (kind_of r)) (s : State W)
      → Found (kind_of r) o
      → I s
      → I (send P r o s).1
  unfolding one_rpc
  send-Within r o s f i =
      rw (send-eq-one_rpc P r o s, found (kind_of r) o s f i)
        (>>=-keeps I (Io.sync_rpc P (some q) (message_of r o) (timeout_of r o))
          (λ x s. (answer r o x, s)) s (sync_rpc-Within _ _ s i) (λ x _. sync_rpc-Within _ _ s i))

  -- A dependency that is checked before the work.
  pub depending-Within :
      {A : Type 0} (namespace : String) (d : DependsOn) (o : A) (next : M W (Option Error × A))
      (s : State W)
      → ((s : State W) → I s → I (next s).1)
      → I s
      → I
          ((if not (is_nil d)
              then (validate_dependency P namespace d >>= λ err.
                  if is_some err then pure (err, o) else next)
              else next)
            s).1
  depending-Within namespace d o next s h i =
      let i' = dependency namespace d s i in
      if-keeps I (not (is_nil d))
        (validate_dependency P namespace d >>= λ err. if is_some err then pure (err, o) else next)
        next s
        (λ _.
          >>=-keeps I (validate_dependency P namespace d)
            (λ err. if is_some err then pure (err, o) else next) s i'
            λ err _. if-keeps I (is_some err) (pure (err, o)) next _ (λ _. i') (λ _. h _ i'))
        (λ _. h s i)

  pub unlock-Within :
      (o : Unlock) (s : State W)
      → Found Kind.unlock o
      → I s
      → I (Unlock.manage_operator_logic P o s).1
  unfolding Unlock.manage_operator_logic send
  unlock-Within o s f i =
      depending-Within o.meta.namespace o.spec.depends_on o (Unlock.send_unlock P o) s
        (λ s i. send-Within OneRpc.unlock o s f i) i
