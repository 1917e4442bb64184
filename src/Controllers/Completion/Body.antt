-- ===== src/Controllers/Completion/Body.antt =====
-- The shared body of the reconciles stops if the parts of the controller do. `Q` is what a passed
-- validation adds for the object at hand.
use netconf_operator.Base.{◌≡◌, refl, Bool, true, false, Option, none, some, not, if◌then◌else◌}
use netconf_operator.Api.Meta.{NamespacedName}
use netconf_operator.Api.Objects.{Kind, Object}
use netconf_operator.Runtime.{Platform, State, pure, Error}
use netconf_operator.Runtime.Io
use netconf_operator.Runtime.Finishes.{Finishes, Stops, >>=-Finishes, if-Finishes}
use netconf_operator.Controllers.Assign.{settled}
use netconf_operator.Controllers.Template.{
  Hooks, report, work, updated, enrol, proceed, judged, judge, fetched, reconcile,
}
use netconf_operator.Controllers.Template.Keeps.{after_get}

module _ {W : Type 0} (P : Platform W) (k : Kind) (h : Hooks W k) (X : State W → Type 0)
    (Q : Object k → State W → Type 0) where
  report-Stops : (x : Option Error × Object k) (s : State W) → Stops X (report P k h x s)
  unfolding report
  report-Stops (some e, o) s = tt
  report-Stops (none, o) s = tt

  updated-Stops : (o : Object k) (e : Option Error) (s : State W) → Stops X (updated P k h o e s)
  unfolding updated
  updated-Stops o (some e) s = tt
  updated-Stops o none s = tt

  enrol-Stops : (o : Object k) (s : State W) → Stops X (enrol P k h o s)
  unfolding enrol
  enrol-Stops o s = updated-Stops o _ _

  work-Stops :
      (o : Object k) (s : State W)
      → Stops X (h.manage_operator_logic o s)
      → Stops X (work P k h o s)
  unfolding work
  work-Stops o s d =
      >>=-Finishes X (λ _ _. Unit) (λ _ _. Unit) (h.manage_operator_logic o) (report P k h) s d
        (λ x s' _. report-Stops x s')

  -- The parts stop at the object that was read, the finalization and the work once the validation
  -- has passed.
  pub record Completing (o : Object k) (s : State W) : Type 0 where
    pub valid : Finishes X (λ x s'. x.0 ≡ true → Q o s') (h.is_valid o s)
    pub reject : (e : Option Error) (s : State W) → Stops X (h.reject o e s)
    pub finalize :
        (s : State W)
        → Q o s
        → not (h.is_initialized o).0 ≡ false
        → Stops X (h.finalize (h.is_initialized o).1 s)
    pub logic :
        (s : State W)
        → Q o s
        → not (h.is_initialized o).0 ≡ false
        → Stops X (h.manage_operator_logic (h.is_initialized o).1 s)

  module _ (o : Object k) (s₁ : State W) (completing : Completing o s₁) where
    proceed-Stops : (s : State W) → Q o s → Stops X (proceed P k h (h.is_initialized o) s)
    unfolding proceed
    proceed-Stops s q =
        let o' = (h.is_initialized o).1 in
        if-Finishes X (λ _ _. Unit) (not (h.is_initialized o).0) (enrol P k h o')
          (if P.is_being_deleted o'.meta then h.finalize o' else work P k h o') s
          (λ _. enrol-Stops o' s)
          (λ n.
            if-Finishes X (λ _ _. Unit) (P.is_being_deleted o'.meta) (h.finalize o') (work P k h o')
              s (λ _. completing.finalize s q n) (λ _. work-Stops o' s (completing.logic s q n)))

    judged-Stops :
        (x : Bool × Option Error) (s : State W)
        → (x.0 ≡ true → Q o s)
        → Stops X (judged P k h o x s)
    unfolding judged
    judged-Stops (true, e) s q = proceed-Stops s (q refl)
    judged-Stops (false, e) s q = completing.reject e s

    fetched-Stops : (err : Option Error) → Stops X (fetched P k h (err, o) s₁)
    unfolding fetched judge
    fetched-Stops (some e) =
        if-Finishes X (λ _ _. Unit) (P.is_not_found e) (pure settled)
          (Io.manage_error P k o (some e)) s₁ (λ _. tt) (λ _. tt)
    fetched-Stops none =
        >>=-Finishes X (λ x s'. x.0 ≡ true → Q o s') (λ _ _. Unit) (h.is_valid o) (judged P k h o)
          s₁ completing.valid judged-Stops

  pub reconcile-Stops :
      (req : NamespacedName) (s : State W)
      → Completing (P.client_get k req s.world).0.1 (after_get P k req s)
      → Stops X (reconcile P k h req s)
  unfolding reconcile
  reconcile-Stops req s completing =
      fetched-Stops (P.client_get k req s.world).0.1 (after_get P k req s) completing
        (P.client_get k req s.world).0.0
