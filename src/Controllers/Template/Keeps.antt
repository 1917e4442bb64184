-- ===== src/Controllers/Template/Keeps.antt =====
-- What the shared body keeps, from what a controller's parts keep. `I` is a property of the state,
-- and `Q` what a passed validation adds for the object at hand.
use netconf_operator.Base.{
  ◌≡◌, refl, ap, ◌∙◌, Bool, true, false, Option, none, some, not, ◌∷◌, if◌then◌else◌,
}
use netconf_operator.Api.Meta.{NamespacedName}
use netconf_operator.Api.Objects.{Kind, Object, any}
use netconf_operator.Runtime.{Platform, State, pure, ok, Call, Error, KeptByCluster}
use netconf_operator.Runtime.Io
use netconf_operator.Runtime.Keeps.{>>=-keeps, if-keeps}
use netconf_operator.Controllers.Assign.{settled}
use netconf_operator.Controllers.Template.{
  Hooks, report, work, updated, enrol, proceed, judged, judge, fetched, reconcile,
}

-- The state after the read of an object.
abbrev pub after_get : {W : Type 0} → Platform W → (k : Kind) → NamespacedName → State W → State W
after_get P k req s = record s {
  calls = Call.client_get k req ∷ s.calls;
  world = (P.client_get k req s.world).1;
}

module _ {W : Type 0} (P : Platform W) (k : Kind) (h : Hooks W k) (I : State W → Type 0)
    (Q : Object k → State W → Type 0) (cluster : KeptByCluster I) where
  report-keeps : (x : Option Error × Object k) (s : State W) → I s → I (report P k h x s).1
  unfolding report
  report-keeps (some e, o) s i = cluster _ _ s tt i
  report-keeps (none, o) s i = cluster _ _ s tt i

  work-keeps :
      (o : Object k) (s : State W) → I (h.manage_operator_logic o s).1 → I (work P k h o s).1
  unfolding work
  work-keeps o s i =
      >>=-keeps I (h.manage_operator_logic o) (report P k h) s i (λ x _. report-keeps x _ i)

  updated-keeps :
      (o : Object k) (err : Option Error) (s : State W) → I s → I (updated P k h o err s).1
  unfolding updated
  updated-keeps o (some e) s i = cluster _ _ s tt i
  updated-keeps o none s i = i

  enrol-keeps : (o : Object k) (s : State W) → I s → I (enrol P k h o s).1
  unfolding enrol
  enrol-keeps o s i =
      updated-keeps o (P.client_update (any k o) s.world).0 _
        (cluster (Call.client_update (any k o)) (P.client_update (any k o) s.world).1 s tt i)

  -- The parts keep the property at the object that was read: the validation in the state `s` after
  -- the read, and the rest in any state once it has passed.
  pub record Keeping (o : Object k) (s : State W) : Type 0 where
    pub valid : I s → I (h.is_valid o s).1
    pub passed :
        (e : Option Error) → I s → (h.is_valid o s).0 ≡ ok (true, e) → Q o (h.is_valid o s).1
    pub reject : (e : Option Error) (s : State W) → I s → I (h.reject o e s).1
    pub finalize :
        (s : State W)
        → I s
        → Q o s
        → not (h.is_initialized o).0 ≡ false
        → P.is_being_deleted (h.is_initialized o).1.meta ≡ true
        → I (h.finalize (h.is_initialized o).1 s).1
    pub logic :
        (s : State W)
        → I s
        → Q o s
        → not (h.is_initialized o).0 ≡ false
        → P.is_being_deleted (h.is_initialized o).1.meta ≡ false
        → I (h.manage_operator_logic (h.is_initialized o).1 s).1

  module _ (o : Object k) (s₁ : State W) (keeping : Keeping o s₁) where
    proceed-keeps : (s : State W) → I s → Q o s → I (proceed P k h (h.is_initialized o) s).1
    unfolding proceed
    proceed-keeps s i q =
        let o' = (h.is_initialized o).1 in
        if-keeps I (not (h.is_initialized o).0) (enrol P k h o')
          (if P.is_being_deleted o'.meta then h.finalize o' else work P k h o') s
          (λ _. enrol-keeps o' s i)
          (λ n.
            if-keeps I (P.is_being_deleted o'.meta) (h.finalize o') (work P k h o') s
              (keeping.finalize s i q n) (λ d. work-keeps o' s (keeping.logic s i q n d)))

    pub judged-keeps :
        (x : Bool × Option Error) (s : State W)
        → I s
        → ((e : Option Error) → x ≡ (true, e) → Q o s)
        → I (judged P k h o x s).1
    unfolding judged
    judged-keeps (true, e) s i q = proceed-keeps s i (q e refl)
    judged-keeps (false, e) s i q = keeping.reject e s i

    judge-keeps : I s₁ → I (judge P k h o s₁).1
    unfolding judge
    judge-keeps i =
        >>=-keeps I (h.is_valid o) (judged P k h o) s₁ (keeping.valid i) λ x eq.
          judged-keeps x _ (keeping.valid i) (λ e same. keeping.passed e i (eq ∙ ap ok same))

    fetched-keeps : (err : Option Error) → I s₁ → I (fetched P k h (err, o) s₁).1
    unfolding fetched
    fetched-keeps (some e) i =
        if-keeps I (P.is_not_found e) (pure settled) (Io.manage_error P k o (some e)) s₁ (λ _. i)
          (λ _. cluster _ _ s₁ tt i)
    fetched-keeps none i = judge-keeps i

  pub reconcile-keeps :
      (req : NamespacedName) (s : State W)
      → Keeping (P.client_get k req s.world).0.1 (after_get P k req s)
      → I s
      → I (reconcile P k h req s).1
  unfolding reconcile
  reconcile-keeps req s keeping i =
      fetched-keeps (P.client_get k req s.world).0.1 (after_get P k req s) keeping
        (P.client_get k req s.world).0.0
        (cluster (Call.client_get k req) (P.client_get k req s.world).1 s tt i)
