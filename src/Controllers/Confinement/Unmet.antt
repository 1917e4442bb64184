-- ===== src/Controllers/Confinement/Unmet.antt =====
-- An operation that depends on another one which has not succeeded.
use mathlib.Core.Bool.{false≢true}
use netconf_operator.Base.{
  String, ◌≡◌, ◌≢◌, true, false, not, none, some, Option, arith, is_some, if◌then◌else◌, ap,
}
use netconf_operator.Api.Meta.{NamespacedName}
use netconf_operator.Api.Common.{DependsOn, is_nil}
use netconf_operator.Api.Objects.{Kind, Object, device_name}
use netconf_operator.Runtime.{
  Platform, State, M, ok, Outcome, panic, exit, Error, Within, Within-refl, Within-KeptByCluster,
  ◌>>=◌, pure, continue,
}
use netconf_operator.Controllers.Common.{check_mount_point_exists, validate_dependency}
use netconf_operator.Controllers.Common.Dependency.{
  IsMet, reports_error, validate_dependency-by-IsMet,
}
use netconf_operator.Controllers.Common.Frame.{validate_dependency-Within}
use netconf_operator.Controllers.Template.Keeps.{Keeping, after_get, reconcile-keeps}
use netconf_operator.Controllers.Confinement.Device.{Touches, cluster-Touches}
use netconf_operator.Controllers.Confinement.Validation.{valid-Within, reject-Within}
use netconf_operator.Controllers.Confinement.Deleted.{HasFinalizer, finalize-Within}
use netconf_operator.Controllers.Unlock
use netconf_operator.Controllers.EditConfig
use netconf_operator.Controllers.Commit
use netconf_operator.Controllers.All

-- The object depends on `d`.
abbrev pub Depends : (k : Kind) → Object k → DependsOn → Type 0
Depends Kind.unlock o d = o.spec.depends_on ≡ d
Depends Kind.edit_config o d = o.spec.depends_on ≡ d
Depends Kind.commit o d = o.spec.depends_on ≡ d
Depends k o d = ⊥

module _ {W : Type 0} (P : Platform W) (s₀ : State W) where
  abbrev I : State W → Type 0
  I = Within (Touches none) s₀

  check_state :
      (n : NamespacedName) (s : State W)
      → (check_mount_point_exists P n s).1 ≡ after_get P Kind.mount_point n s
  unfolding check_mount_point_exists
  check_state n s = ground arith

  -- A check that fails, and the early return behind it.
  unmet-Within :
      {A : Type 0} (namespace : String) (d : DependsOn) (o : A) (next : M W (Option Error × A))
      (s : State W)
      → is_nil d ≡ false
      → ¬ IsMet P namespace d s.world
      → I s
      → I
          ((if not (is_nil d)
              then (validate_dependency P namespace d >>= λ err.
                  if is_some err then pure (err, o) else next)
              else next)
            s).1
  unmet-Within namespace d o next s there unmet i = rw (there) (
      go (validate_dependency P namespace d s).0
        ((validate_dependency-by-IsMet P namespace d s).1 unmet)
        (validate_dependency-Within P (Touches none) s₀ (cluster-Touches none) namespace d s i))
    where
      go :
          (r : Outcome (Option Error))
          → reports_error r ≡ true
          → I (validate_dependency P namespace d s).1
          → I
              (continue r
                (λ err. if is_some err then pure (err, o) else next)
                (validate_dependency P namespace d s).1).1
      go (ok (some e)) h i = i
      go (ok none) h i = absurd (false≢true h)
      go panic h i = i
      go exit h i = i

  unlock-unmet :
      (o : Object Kind.unlock) (s : State W)
      → is_nil o.spec.depends_on ≡ false
      → ¬ IsMet P o.meta.namespace o.spec.depends_on s.world
      → I s
      → I (Unlock.manage_operator_logic P o s).1
  unfolding Unlock.manage_operator_logic
  unlock-unmet o s there unmet i =
      unmet-Within o.meta.namespace o.spec.depends_on o (Unlock.send_unlock P o) s there unmet i

  edit_config-unmet :
      (o : Object Kind.edit_config) (s : State W)
      → is_nil o.spec.depends_on ≡ false
      → ¬ IsMet P o.meta.namespace o.spec.depends_on s.world
      → I s
      → I (EditConfig.manage_operator_logic P o s).1
  unfolding EditConfig.manage_operator_logic
  edit_config-unmet o s there unmet i =
      unmet-Within o.meta.namespace o.spec.depends_on o (EditConfig.from_lock P o) s there unmet i

  -- The world in which the dependency is read, after the mount point.
  abbrev world_of : (k : Kind) → Object k → State W → W
  world_of k o s = (P.client_get Kind.mount_point (device_name k o) s.world).1

  unlock_valid-world :
      (o : Object Kind.unlock) (s : State W)
      → (Unlock.is_valid P Kind.unlock o s).1
        ≡ after_get P Kind.mount_point (device_name Kind.unlock o) s
  unfolding Unlock.is_valid check_mount_point_exists
  unlock_valid-world o s = ground arith

  edit_config_valid-world :
      (o : Object Kind.edit_config) (s : State W)
      → (EditConfig.is_valid P Kind.edit_config o s).1
        ≡ after_get P Kind.mount_point (device_name Kind.edit_config o) s
  unfolding EditConfig.is_valid check_mount_point_exists
  edit_config_valid-world o s = ground arith

  -- The validation of a `Commit` includes the check.
  commit-invalid :
      (o : Object Kind.commit) (s : State W) (e : Option Error)
      → is_nil o.spec.depends_on ≡ false
      → ¬ IsMet P o.meta.namespace o.spec.depends_on (world_of Kind.commit o s)
      → (Commit.is_valid P Kind.commit o s).0 ≢ ok (true, e)
  unfolding Commit.is_valid
  commit-invalid o s e there unmet h =
      let s' = after_get P Kind.mount_point (device_name Kind.commit o) s in
      ground (
        arith,
        check_state (device_name Kind.commit o) s,
        (validate_dependency-by-IsMet P o.meta.namespace o.spec.depends_on s').1 unmet,
      )

  -- What a passed validation leaves: a `Commit` does not pass.
  abbrev Q : (w : W) (k : Kind) → Object k → State W → Type 0
  Q w Kind.commit o s = ⊥
  Q w k o s = s.world ≡ w

  unmet-passed :
      (k : Kind) (o : Object k) (d : DependsOn) (s : State W) (e : Option Error)
      → Depends k o d
      → is_nil d ≡ false
      → ¬ IsMet P o.meta.namespace d (world_of k o s)
      → ((All.hooks P k).is_valid o s).0 ≡ ok (true, e)
      → Q (world_of k o s) k o ((All.hooks P k).is_valid o s).1
  unfolding All.hooks
  unmet-passed Kind.unlock o d s e dep there unmet h = ap (λ s. s.world) (unlock_valid-world o s)
  unmet-passed Kind.edit_config o d s e dep there unmet h =
      ap (λ s. s.world) (edit_config_valid-world o s)
  unmet-passed Kind.commit o d s e dep there unmet h =
      commit-invalid o s e (rw (dep) there) (rw (dep) unmet) h
  unmet-passed k o d s e dep there unmet h = absurd dep

  unmet-logic :
      (k : Kind) (o : Object k) (d : DependsOn) (w : W) (s : State W)
      → Depends k o d
      → is_nil d ≡ false
      → ¬ IsMet P o.meta.namespace d w
      → Q w k o s
      → I s
      → I ((All.hooks P k).manage_operator_logic ((All.hooks P k).is_initialized o).1 s).1
  unfolding All.hooks
  unmet-logic Kind.unlock o d w s dep there unmet q i =
      unlock-unmet o s (rw (dep) there) (rw (dep, q) unmet) i
  unmet-logic Kind.edit_config o d w s dep there unmet q i =
      edit_config-unmet o s (rw (dep) there) (rw (dep, q) unmet) i
  unmet-logic Kind.commit o d w s dep there unmet q i = absurd q
  unmet-logic k o d w s dep there unmet q i = absurd dep

  no_finalizer : (k : Kind) (o : Object k) (d : DependsOn) → Depends k o d → ¬ HasFinalizer k
  no_finalizer Kind.unlock o d dep h = h
  no_finalizer Kind.edit_config o d dep h = h
  no_finalizer Kind.commit o d dep h = h
  no_finalizer k o d dep h = dep

  keeping :
      (k : Kind) (o : Object k) (d : DependsOn) (s : State W)
      → Depends k o d
      → is_nil d ≡ false
      → ¬ IsMet P o.meta.namespace d (world_of k o s)
      → Keeping P k
          (All.hooks P k)
          I
          (Q (world_of k o s) k)
          (Within-KeptByCluster (Touches none) s₀ (cluster-Touches none))
          o
          s
  keeping k o d s dep there unmet = record {
    valid = λ i. valid-Within P none s₀ k o s i;
    passed = λ e i h. unmet-passed k o d s e dep there unmet h;
    reject = λ e s i. reject-Within P none s₀ k o e s i;
    finalize = λ s i q m deleted. finalize-Within P s₀ k _ s (no_finalizer k o d dep) i;
    logic = λ s' i q m alive. unmet-logic k o d (world_of k o s) s' dep there unmet q i;
  }

-- The reconcile of an `Unlock`, an `EditConfig` or a `Commit` that names a dependency which has not
-- succeeded, or is not there, or is of another kind than the three supported, reaches no device and
-- leaves `Sessions` alone. The dependency is the one in the world after the reads of the object and
-- of its mount point.
pub reconcile-waits_for_dependency :
    {W : Type 0} (P : Platform W) (k : Kind) (req : NamespacedName) (s : State W) (d : DependsOn)
    → let o = (P.client_get k req s.world).0.1 in
      Depends k o d
      → is_nil d ≡ false
      → ¬ IsMet P o.meta.namespace d
          (P.client_get Kind.mount_point (device_name k o) (P.client_get k req s.world).1).1
      → Within (Touches none) s (All.reconcile P k req s).1
reconcile-waits_for_dependency P k req s d dep there unmet =
    rw (All.reconcile-eq-template P k req) (
      let o = (P.client_get k req s.world).0.1 in
      reconcile-keeps P k (All.hooks P k) (I P s) (Q P s (world_of P s k o (after_get P k req s)) k)
        (Within-KeptByCluster (Touches none) s (cluster-Touches none)) req s
        (keeping P s k o d (after_get P k req s) dep there unmet) (Within-refl (Touches none) s))
