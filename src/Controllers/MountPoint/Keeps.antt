-- ===== src/Controllers/MountPoint/Keeps.antt =====
-- What a reconcile of a `MountPoint` keeps: a property that the calls keep, and that the changes of
-- `Sessions` at the mount point's own key keep.
pub mod Finish
use netconf_operator.Base.{
  ◌≡◌, refl, sym, ap, ◌∙◌, ◌++◌, String, Option, none, some, List, ◌∷◌, arith, true, is_some,
  is_zero, ℤ,
}
use netconf_operator.Base.Duration.{seconds}
use netconf_operator.Base.GoMap.{insert, erase}
use netconf_operator.Api.Objects.{Kind, MountPoint, device_name}
use netconf_operator.Runtime.{Platform, State, ok, Error, SessionPtr, Message, Call, KeptByCluster}
use netconf_operator.Runtime.Io
use netconf_operator.Runtime.Keeps.{>>=-keeps, if-keeps}
use netconf_operator.Controllers.MountPoint.Connect.{append_capabilities-eq-append}
use netconf_operator.Controllers.MountPoint.Greeting.{dial_call, hello_call, dial-calls}
use netconf_operator.Controllers.MountPoint

-- The calls of a mount point that are made on a session that is not nil, or on none.
abbrev pub IsOnLive : Call → Type 0
IsOnLive (Call.client_get k n) = Unit
IsOnLive (Call.client_update o) = Unit
IsOnLive (Call.manage_error o e) = Unit
IsOnLive (Call.manage_error_with_requeue o e t) = Unit
IsOnLive (Call.manage_success o) = Unit
IsOnLive (Call.dial_ssh target c) = Unit
IsOnLive (Call.dial_ssh_timeout target c t) = Unit
IsOnLive (Call.new_message m) = Unit
IsOnLive (Call.sync_rpc p m t) = is_some p ≡ true
IsOnLive (Call.remove p id) = Unit
IsOnLive (Call.close_session p) = Unit
IsOnLive c = ⊥

-- The latest two calls have opened the session `q` for the mount point: a dial, with what it asks
-- for, has returned the session, and the greeting has returned nil.
abbrev pub WasOpened : {W : Type 0} → Platform W → MountPoint → SessionPtr → List Call → Type 0
WasOpened {W} P o q calls =
    (s : State W) × (w : W) × (before : List Call) × ((MountPoint.dial P o s).0 ≡ ok (some q, none))
    × ((P.send_hello (some q) (P.default_capabilities ++ o.spec.additional_capabilities) w).0
        ≡ ok none)
    × (calls ≡ hello_call P o (some q) ∷ dial_call P o ∷ before)

-- What makes a property `I` of the state fit for the connection of the mount point `o`: the calls of
-- `D` keep it, and so does the new session under the mount point's own key. `D` holds of the calls
-- above, and of a greeting on what the dial returned.
pub record Opener {W : Type 0} (P : Platform W) (D : Call → Type 0) (I : State W → Type 0)
    (o : MountPoint) : Type 0 where
  pub live : (c : Call) → IsOnLive c → D c
  pub hello :
      (s : State W) (p : Option SessionPtr) (capabilities : List String)
      → (MountPoint.dial P o s).0 ≡ ok (p, none)
      → D (Call.send_hello p capabilities)
  pub called :
      (c : Call) (w : W) (s : State W) → D c → I s → I (record s { calls = c ∷ s.calls; world = w })
  pub inserted :
      (q : SessionPtr) (s : State W)
      → WasOpened P o q s.calls
      → I s
      → I (record s { sessions = insert (P.text (device_name Kind.mount_point o)) q s.sessions })

-- And for the clean-up, which takes the key out.
pub record Keeper {W : Type 0} (P : Platform W) (D : Call → Type 0) (I : State W → Type 0)
    (o : MountPoint) : Type 0 where
  pub opener : Opener P D I o
  pub erased :
      (s : State W)
      → I s
      → I (record s { sessions = erase (P.text (device_name Kind.mount_point o)) s.sessions })

module _ {W : Type 0} (P : Platform W) (D : Call → Type 0) (I : State W → Type 0) (o : MountPoint)
    (opener : Opener P D I o) where
  pub sync_rpc-keeps :
      (q : SessionPtr) (m : Message) (t : ℤ) (s : State W)
      → I s
      → I (Io.sync_rpc P (some q) m t s).1
  sync_rpc-keeps q m t s i =
      let s' = record s {
        calls = Call.new_message m ∷ s.calls;
        world = (P.new_message m s.world).1;
      } in
      let i' =
        opener.called (Call.new_message m) (P.new_message m s.world).1 s (opener.live _ tt) i in
      ground (
        arith,
        i',
        opener.called (Call.sync_rpc (some q) m t) (P.sync_rpc (some q) m t s'.world).1 s'
            (opener.live _ refl) i',
      )

  pub cluster : KeptByCluster I
  cluster (Call.client_get k n) w s h i =
      opener.called _ w s (opener.live (Call.client_get k n) tt) i
  cluster (Call.client_update o) w s h i =
      opener.called _ w s (opener.live (Call.client_update o) tt) i
  cluster (Call.manage_error o e) w s h i =
      opener.called _ w s (opener.live (Call.manage_error o e) tt) i
  cluster (Call.manage_error_with_requeue o e t) w s h i =
      opener.called _ w s (opener.live (Call.manage_error_with_requeue o e t) tt) i
  cluster (Call.manage_success o) w s h i =
      opener.called _ w s (opener.live (Call.manage_success o) tt) i
  cluster c w s h i = absurd h

  greeted-keeps :
      (p : Option SessionPtr) (err : Option Error) (s : State W)
      → ((q : SessionPtr) → p ≡ some q → err ≡ none → WasOpened P o q s.calls)
      → I s
      → I (MountPoint.greeted P o p err s).1
  unfolding MountPoint.greeted
  greeted-keeps p (some e) s opened i = i
  greeted-keeps none none s opened i = i
  greeted-keeps (some q) none s opened i = opener.inserted q s (opened q refl refl) i

  dial-keeps : (s : State W) → I s → I (MountPoint.dial P o s).1
  unfolding MountPoint.dial
  dial-keeps s i =
      if-keeps I (is_zero o.spec.timeout) (Io.dial_ssh P o.spec.target (MountPoint.ssh_config P o))
        (Io.dial_ssh_timeout P o.spec.target (MountPoint.ssh_config P o) (seconds o.spec.timeout)) s
        (λ _.
          opener.called _ _ s
            (opener.live (Call.dial_ssh o.spec.target (MountPoint.ssh_config P o)) tt) i)
        (λ _.
          opener.called _ _ s
            (opener.live
              (Call.dial_ssh_timeout o.spec.target (MountPoint.ssh_config P o)
                (seconds o.spec.timeout))
              tt)
            i)

  -- The greeting, in a state after the dial `s₀` and its call.
  dialed-keeps :
      (x : Option SessionPtr × Option Error) (s₀ s : State W)
      → (MountPoint.dial P o s₀).0 ≡ ok x
      → s.calls ≡ dial_call P o ∷ s₀.calls
      → I s
      → I (MountPoint.dialed P o x s).1
  unfolding MountPoint.dialed MountPoint.greet
  dialed-keeps (p, some e) s₀ s same calls i = i
  dialed-keeps (p, none) s₀ s same calls i =
      let capabilities =
        MountPoint.append_capabilities P P.default_capabilities o.spec.additional_capabilities in
      let all =
        append_capabilities-eq-append P P.default_capabilities o.spec.additional_capabilities in
      let i' =
        opener.called (Call.send_hello p capabilities) (P.send_hello p capabilities s.world).1 s
          (opener.hello s₀ p capabilities same) i in
      >>=-keeps I (Io.send_hello P p capabilities) (MountPoint.greeted P o p) s i' λ err returned.
        greeted-keeps p err _
          (λ q live nil. (
            s₀,
            s.world,
            s₀.calls,
            same ∙ ap (λ p. ok (p, none)) live,
            ap (λ c. (P.send_hello (some q) c s.world).0) (sym all)
                ∙ ap (λ p. (P.send_hello p capabilities s.world).0) (sym live)
                ∙ returned
                ∙ ap ok nil,
            ap (λ p. Call.send_hello p capabilities ∷ s.calls) live
                ∙ ap (λ c. Call.send_hello (some q) c ∷ s.calls) all
                ∙ ap (λ cs. hello_call P o (some q) ∷ cs) calls,
          ))
          i'

  pub logic-keeps : (s : State W) → I s → I (MountPoint.manage_operator_logic P o s).1
  unfolding MountPoint.manage_operator_logic
  logic-keeps s i =
      >>=-keeps I (MountPoint.dial P o) (MountPoint.dialed P o) s (dial-keeps s i)
        λ x same. dialed-keeps x s _ same (dial-calls P o s) (dial-keeps s i)
