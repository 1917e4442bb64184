-- ===== src/Controllers/MountPoint/Life.antt =====
-- A new mount point: its first two reconciles.
use netconf_operator.Base.{◌≡◌, refl, ap, ◌∙◌, true, false, Option, none, some, ◌∷◌}
use netconf_operator.Base.GoMap.{insert}
use netconf_operator.Api.Meta.{NamespacedName}
use netconf_operator.Api.Objects.{Kind, MountPoint, device_name, any}
use netconf_operator.Runtime.{Platform, State, Outcome, ok, Error, SessionPtr, Call, Reconciled}
use netconf_operator.Runtime.Io
use netconf_operator.Controllers.Common.{mountpoint_finalizer}
use netconf_operator.Controllers.Assign.{set_meta, set_status, set_capabilities, settled}
use netconf_operator.Controllers.Template.Keeps.{after_get}
use netconf_operator.Controllers.MountPoint.Connect.{dial-sessions, append_capabilities-eq-append}
use netconf_operator.Controllers.MountPoint.Greeting.{dial_call, hello_call, dial-calls}
use netconf_operator.Controllers.MountPoint
use netconf_operator.Controllers.Template
use netconf_operator.Controllers.All

module _ {W : Type 0} (P : Platform W) (req : NamespacedName) where
  -- The mount point with its finalizer.
  abbrev pub enrolled : MountPoint → MountPoint
  enrolled o = set_meta o (P.add_finalizer o.meta mountpoint_finalizer)

  abbrev pub read : State W → Option Error × MountPoint
  read s = (P.client_get Kind.mount_point req s.world).0

  abbrev pub reconciled : State W → State W
  reconciled s = (All.reconcile P Kind.mount_point req s).1

  -- What follows a read that has returned the mount point.
  abbrev rest : MountPoint → State W → Outcome Reconciled × State W
  rest o = Template.fetched P Kind.mount_point (All.hooks P Kind.mount_point) (none, o)

  reconcile-rest :
      (s : State W) (o : MountPoint)
      → read s ≡ (none, o)
      → All.reconcile P Kind.mount_point req s ≡ rest o (after_get P Kind.mount_point req s)
  unfolding Template.reconcile
  reconcile-rest s o fetched =
      ap (λ m. m s) (All.reconcile-eq-template P Kind.mount_point req)
      ∙ ap
          (λ x.
            Template.fetched P Kind.mount_point (All.hooks P Kind.mount_point) x
              (after_get P Kind.mount_point req s))
          fetched

  rest-new :
      (o : MountPoint) (s : State W)
      → P.has_finalizer o.meta mountpoint_finalizer ≡ false
      → (P.client_update (any Kind.mount_point (enrolled o)) s.world).0 ≡ none
      → rest o s ≡ (ok settled, (Io.client_update P Kind.mount_point (enrolled o) s).1)
  unfolding Template.fetched All.hooks MountPoint.is_valid MountPoint.is_initialized
  rest-new o s h stored = rw (h) (rw (stored) refl)

  rest-enrolled :
      (o : MountPoint) (s : State W)
      → P.has_finalizer o.meta mountpoint_finalizer ≡ true
      → P.is_being_deleted o.meta ≡ false
      → rest o s ≡ Template.work P Kind.mount_point (All.hooks P Kind.mount_point) o s
  unfolding Template.fetched All.hooks MountPoint.is_valid MountPoint.is_initialized
  rest-enrolled o s h living = rw (h) (rw (living) refl)

  -- The world after the dial and the greeting, and the mount point that is connected in it.
  abbrev pub answer_to_hello : MountPoint → SessionPtr → State W → Outcome (Option Error) × W
  answer_to_hello o q s =
      P.send_hello (some q)
        (MountPoint.append_capabilities P P.default_capabilities o.spec.additional_capabilities)
        (MountPoint.dial P o s).1.world

  abbrev pub connected : MountPoint → SessionPtr → State W → MountPoint
  connected o q s =
      set_capabilities (set_status o "connected")
        (P.session_capabilities q (answer_to_hello o q s).1)

  work-connected :
      (o : MountPoint) (s : State W) (q : SessionPtr)
      → (MountPoint.dial P o s).0 ≡ ok (some q, none)
      → (answer_to_hello o q s).0 ≡ ok none
      → let s' = (Template.work P Kind.mount_point (All.hooks P Kind.mount_point) o s).1 in
        (s'.sessions ≡ insert (P.text (device_name Kind.mount_point o)) q s.sessions)
        × (s'.calls
            ≡ Call.manage_success (any Kind.mount_point (connected o q s))
              ∷ hello_call P o (some q)
              ∷ dial_call P o
              ∷ s.calls)
  unfolding Template.work All.hooks MountPoint.manage_operator_logic MountPoint.dialed
      MountPoint.greet MountPoint.greeted Template.report
  work-connected o s q dialed greeted = rw (dialed) (
      rw (greeted) (
        ap (insert (P.text (device_name Kind.mount_point o)) q) (dial-sessions P o s),
        ap
              (λ c.
                Call.manage_success (any Kind.mount_point (connected o q s))
                ∷ Call.send_hello (some q) c
                ∷ (MountPoint.dial P o s).1.calls)
              (append_capabilities-eq-append P P.default_capabilities
                o.spec.additional_capabilities)
            ∙ ap
                (λ cs.
                  Call.manage_success (any Kind.mount_point (connected o q s))
                  ∷ hello_call P o (some q)
                  ∷ cs)
                (dial-calls P o s),
      ))

  -- A new mount point, without the finalizer, is connected by its second reconcile: if the update of
  -- the first is stored, the second reads what it has stored, the dial returns a session and the
  -- greeting nil, then that session stands in `Sessions` under the mount point's key, and the calls
  -- of the two have been: the read, the update with the finalizer, the read, the dial, the greeting,
  -- and the report of success for the mount point with status `connected` and the session's
  -- capabilities.
  pub reconcile-connects :
      (s : State W) (o : MountPoint) (q : SessionPtr)
      → read s ≡ (none, o)
      → P.has_finalizer o.meta mountpoint_finalizer ≡ false
      → (P.client_update
          (any Kind.mount_point (enrolled o))
          (after_get P Kind.mount_point req s).world).0
        ≡ none
      → read (reconciled s) ≡ (none, enrolled o)
      → P.has_finalizer (enrolled o).meta mountpoint_finalizer ≡ true
      → P.is_being_deleted (enrolled o).meta ≡ false
      → let s₁ = after_get P Kind.mount_point req (reconciled s) in
        (MountPoint.dial P (enrolled o) s₁).0 ≡ ok (some q, none)
        → (answer_to_hello (enrolled o) q s₁).0 ≡ ok none
        → ((reconciled (reconciled s)).sessions
            ≡ insert (P.text (device_name Kind.mount_point (enrolled o))) q s.sessions)
          × ((reconciled (reconciled s)).calls
              ≡ Call.manage_success (any Kind.mount_point (connected (enrolled o) q s₁))
                ∷ hello_call P (enrolled o) (some q)
                ∷ dial_call P (enrolled o)
                ∷ Call.client_get Kind.mount_point req
                ∷ Call.client_update (any Kind.mount_point (enrolled o))
                ∷ Call.client_get Kind.mount_point req
                ∷ s.calls)
  reconcile-connects s o q fetched new stored again has living dialed greeted =
      let s₁ = after_get P Kind.mount_point req (reconciled s) in
      let first : reconciled s
          ≡ (Io.client_update P Kind.mount_point (enrolled o)
              (after_get P Kind.mount_point req s)).1 =
        ap (λ x. x.1)
          (reconcile-rest s o fetched
            ∙ rest-new o (after_get P Kind.mount_point req s) new stored) in
      let second : reconciled (reconciled s)
          ≡ (Template.work P Kind.mount_point (All.hooks P Kind.mount_point) (enrolled o) s₁).1 =
        ap (λ x. x.1)
          (reconcile-rest (reconciled s) (enrolled o) again
            ∙ rest-enrolled (enrolled o) s₁ has living) in
      let (table, trace) = work-connected (enrolled o) s₁ q dialed greeted in
      (
        ap (λ x. x.sessions) second
            ∙ table
            ∙ ap (λ x. insert (P.text (device_name Kind.mount_point (enrolled o))) q x.sessions)
                first,
        ap (λ x. x.calls) second
            ∙ trace
            ∙ ap
                (λ x.
                  Call.manage_success (any Kind.mount_point (connected (enrolled o) q s₁))
                  ∷ hello_call P (enrolled o) (some q)
                  ∷ dial_call P (enrolled o)
                  ∷ Call.client_get Kind.mount_point req
                  ∷ x.calls)
                first,
      )
