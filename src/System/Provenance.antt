-- ===== src/System/Provenance.antt =====
-- Where the sessions in `Sessions` come from.
use netconf_operator.Base.{◌≡◌, sym, subst, ap, ◌∙◌, String, some, List, [], ◌∷◌, ◌++◌, inl, inr}
use netconf_operator.Base.GoMap.{lookup, insert, erase, lookup-erase-some, lookup-insert-some}
use netconf_operator.Api.Meta.{NamespacedName}
use netconf_operator.Api.Objects.{Kind, MountPoint, device_name}
use netconf_operator.Runtime.{Platform, State, Call, SessionPtr, FetchesByName, Within}
use netconf_operator.Controllers.Confinement.Device.{Touches}
use netconf_operator.Controllers.Confinement.OneSession.{reconcile-stays_on_session}
use netconf_operator.Controllers.MountPoint.Keeps.{WasOpened}
use netconf_operator.Controllers.MountPoint.Keeps.Finish.{mount_point-keeps}
use netconf_operator.Controllers.Notify.Delivery.{HandsOn, notify-HandsOn}
use netconf_operator.Controllers.All
use netconf_operator.System.{Step, IsReachable}
use netconf_operator.System.Safety.{is_mount_point}

module _ {W : Type 0} (P : Platform W) where
  -- Among the calls, the latest first, is the opening of the session `q` for a mount point whose key
  -- is `key`.
  pub data IsOpened (key : String) (q : SessionPtr) : List Call → Type 0 where
    opened :
        (o : MountPoint) (calls : List Call)
        → P.text (device_name Kind.mount_point o) ≡ key
        → WasOpened P o q calls
        → IsOpened key q calls
    earlier : (c : Call) {calls : List Call} → IsOpened key q calls → IsOpened key q (c ∷ calls)

  -- Every session that `Sessions` holds has been opened for a mount point of its key.
  abbrev pub HasOpened : State W → Type 0
  HasOpened s =
      (key : String) (q : SessionPtr) → lookup key s.sessions ≡ some q → IsOpened key q s.calls

  append-IsOpened :
      (key : String) (q : SessionPtr) (new old : List Call)
      → IsOpened key q old
      → IsOpened key q (new ++ old)
  append-IsOpened key q [] old h = h
  append-IsOpened key q (c ∷ new) old h = IsOpened.earlier c (append-IsOpened key q new old h)

  Within-HasOpened :
      (C : Call → Type 0) (s s' : State W) → Within C s s' → HasOpened s → HasOpened s'
  unfolding Within
  Within-HasOpened C s s' (same, (new, e, _)) h key q there =
      subst (IsOpened key q) (sym e)
        (append-IsOpened key q new s.calls (h key q (ap (lookup key) (sym same) ∙ there)))

  erased-HasOpened :
      (own : String) (s : State W)
      → HasOpened s
      → HasOpened (record s { sessions = erase own s.sessions })
  erased-HasOpened own s h key q there = h key q (lookup-erase-some key own q s.sessions there)

  inserted-HasOpened :
      (o : MountPoint) (q : SessionPtr) (s : State W)
      → WasOpened P o q s.calls
      → HasOpened s
      → HasOpened
          (record s { sessions = insert (P.text (device_name Kind.mount_point o)) q s.sessions })
  inserted-HasOpened o q s now h key q' there =
      elim (lookup-insert-some key (P.text (device_name Kind.mount_point o)) q q' s.sessions
        there) [
          | inl (own, same) ↦
              subst (λ q. IsOpened key q s.calls) same (IsOpened.opened o s.calls own now)
          | inr before ↦ h key q' before
        ]

  reconcile-HasOpened :
      FetchesByName P
      → (k : Kind) (req : NamespacedName) (s : State W) → HasOpened s
      → HasOpened (All.reconcile P k req s).1
  reconcile-HasOpened named k req s h = elim (is_mount_point k) [
    | inl same ↦
        subst (λ k. HasOpened (All.reconcile P k req s).1) (sym same)
          (mount_point-keeps P (λ _. Unit) HasOpened req s
            (record {
              opener = record {
                live = λ _ _. tt;
                hello = λ _ _ _ _. tt;
                called = λ c _ _ _ i key q there. IsOpened.earlier c (i key q there);
                inserted = inserted-HasOpened _;
              };
              erased = erased-HasOpened _;
            })
            h)
    | inr other ↦
        let l = lookup (P.text (device_name k (P.client_get k req s.world).0.1)) s.sessions in
        Within-HasOpened (Touches l) s _ (reconcile-stays_on_session P named k req s other) h
  ]

  Step-HasOpened : FetchesByName P → (s s' : State W) → Step P s s' → HasOpened s → HasOpened s'
  unfolding lookup
  Step-HasOpened named s _ (Step.reconciled k req _) h = reconcile-HasOpened named k req s h
  Step-HasOpened named s _ (Step.notified c text _) h =
      Within-HasOpened (HandsOn c text) s _ (notify-HandsOn P c text s) h
  Step-HasOpened named s _ (Step.changed w _) h = h
  Step-HasOpened named s _ (Step.restarted _) h = λ key q there. absurd cc

  IsReachable-HasOpened : FetchesByName P → (s : State W) → IsReachable P s → HasOpened s
  unfolding lookup
  IsReachable-HasOpened named _ (IsReachable.started w) = λ key q there. absurd cc
  IsReachable-HasOpened named s (IsReachable.stepped {s = s₀} reached step) =
      Step-HasOpened named s₀ s step (IsReachable-HasOpened named s₀ reached)

  -- In every state that the operator reaches, each session in `Sessions` has been opened for a mount
  -- point of its key: the session was returned without an error by a dial of that mount point's
  -- target, with its timeout, and the next call greeted it with the default capabilities and those
  -- of that mount point's spec, and returned nil. It is given that the client returns the object it
  -- was asked for.
  pub IsReachable-IsOpened :
      FetchesByName P
      → (s : State W) (key : String) (q : SessionPtr) → IsReachable P s
      → lookup key s.sessions ≡ some q
      → IsOpened key q s.calls
  IsReachable-IsOpened named s key q reached there =
      IsReachable-HasOpened named s reached key q there
