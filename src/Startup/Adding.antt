-- ===== src/Startup/Adding.antt =====
-- The calls of the registrations (controllers/*_controller.go).
use netconf_operator.Base.{◌≡◌, refl, if◌then◌else◌, List, [], ◌∷◌, Option, none, some, is_some}
use netconf_operator.Api.Objects.{Kind}
use netconf_operator.Runtime.{Outcome, ok, panic, exit, Error, IsEither}
use netconf_operator.Startup.Host.{
  Host, Manager, Controller, Reconciler, Setup, SetupCall, B, pure, continue, ◌>>=◌, ◌>>◌, deref,
  called,
}
use netconf_operator.Startup.Registration
use netconf_operator.Startup.Main
use netconf_operator.Startup.Trace.{controller_name, order, IsSound, Added, AllAdded}

module _ {W : Type 0} (H : Host W) where
  -- The registrations by their kind.
  unfoldable pub add : Kind → Manager → B W (Option Error)
  unfolding Registration.add_mount_point Registration.add_lock Registration.add_unlock
      Registration.add_edit_config Registration.add_get Registration.add_get_config
      Registration.add_commit Registration.add_rpc Registration.add_establish_subscription
      Registration.add_create_subscription
  add Kind.mount_point = Registration.add_mount_point H
  add Kind.lock = Registration.add_lock H
  add Kind.unlock = Registration.add_unlock H
  add Kind.edit_config = Registration.add_edit_config H
  add Kind.commit = Registration.add_commit H
  add Kind.get = Registration.add_get H
  add Kind.get_config = Registration.add_get_config H
  add Kind.rpc = Registration.add_rpc H
  add Kind.create_subscription = Registration.add_create_subscription H
  add Kind.establish_subscription = Registration.add_establish_subscription H

  abbrev Adding : Manager → Kind → Setup W → Outcome (Option Error) × Setup W → Type 0
  Adding m k s (ok e, s') = Added H m k s.world s.calls e s'.calls
  Adding m k s (panic, s') = ⊥
  Adding m k s (exit, s') = ⊥

  -- What follows the watch.
  after_watch-Adding :
      (k : Kind) (m : Manager) (r : Reconciler) (c : Controller) (e : Option Error)
      (before : List SetupCall) (w w' : W)
      → r.kind ≡ k
      → (H.new_controller (controller_name k) m r w).0 ≡ (some c, none)
      → (H.watch c k (H.new_controller (controller_name k) m r w).1).0 ≡ e
      → Adding m k
          (record { calls = before; world = w })
          ((if is_some e then pure e else pure none) (record {
            calls = SetupCall.watch c k ∷ SetupCall.new_controller (controller_name k) m r ∷ before;
            world = w';
          }))
  after_watch-Adding k m r c none before w w' same created result =
      Added.watched r c none same created result
  after_watch-Adding k m r c (some e) before w w' same created result =
      Added.watched r c (some e) same created result

  -- What follows the request for a controller.
  after_new-Adding :
      (k : Kind) (m : Manager) (r : Reconciler) (x : Option Controller × Option Error)
      (before : List SetupCall) (w : W)
      → r.kind ≡ k
      → (H.new_controller (controller_name k) m r w).0 ≡ x
      → IsEither x
      → Adding m k
          (record { calls = before; world = w })
          ((if is_some x.1 then pure x.1 else do
            c ← deref x.0
            err ← called (SetupCall.watch c k) (H.watch c k)
            if is_some err then pure err else pure none)
            (record {
              calls = SetupCall.new_controller (controller_name k) m r ∷ before;
              world = (H.new_controller (controller_name k) m r w).1;
            }))
  after_new-Adding k m r (none, none) before w same created i = absurd i
  after_new-Adding k m r (none, some e) before w same created i = Added.refused r e same created
  after_new-Adding k m r (some c, none) before w same created i =
      let w' = (H.new_controller (controller_name k) m r w).1 in
      after_watch-Adding k m r c (H.watch c k w').0 before w (H.watch c k w').1 same created refl
  after_new-Adding k m r (some c, some e) before w same created i = absurd i

  add_reconciler-Adding :
      IsSound H
      → (k : Kind) (m : Manager) (r : Reconciler) (s : Setup W) → r.kind ≡ k
      → Adding m k s (Registration.add_reconciler H (controller_name k) k m r s)
  unfolding Registration.add_reconciler
  add_reconciler-Adding sound k m r s same =
      after_new-Adding k m r (H.new_controller (controller_name k) m r s.world).0 s.calls s.world
        same refl (sound.controllers (controller_name k) m r s.world)

  -- Each registration asks for a controller of its kind.
  pub add-Adding : IsSound H → (k : Kind) (m : Manager) (s : Setup W) → Adding m k s (add k m s)
  unfolding add Registration.add_mount_point Registration.add_mount_point_reconciler
      Registration.new_mount_point_reconciler Registration.add_lock Registration.add_lock_reconciler
      Registration.new_lock_reconciler Registration.add_unlock Registration.add_unlock_reconciler
      Registration.new_unlock_reconciler Registration.add_edit_config
      Registration.add_edit_config_reconciler Registration.new_edit_config_reconciler
      Registration.add_commit Registration.add_commit_reconciler Registration.new_commit_reconciler
      Registration.add_get Registration.add_get_reconciler Registration.new_get_reconciler
      Registration.add_get_config Registration.add_get_config_reconciler
      Registration.new_get_config_reconciler Registration.add_rpc Registration.add_rpc_reconciler
      Registration.new_rpc_reconciler Registration.add_create_subscription
      Registration.add_create_subscription_reconciler
      Registration.new_create_subscription_reconciler Registration.add_establish_subscription
      Registration.add_establish_subscription_reconciler
      Registration.new_establish_subscription_reconciler
  add-Adding sound Kind.mount_point m s =
      add_reconciler-Adding sound Kind.mount_point m (Registration.new_mount_point_reconciler H m) s
        refl
  add-Adding sound Kind.lock m s =
      add_reconciler-Adding sound Kind.lock m (Registration.new_lock_reconciler H m) s refl
  add-Adding sound Kind.unlock m s =
      add_reconciler-Adding sound Kind.unlock m (Registration.new_unlock_reconciler H m) s refl
  add-Adding sound Kind.edit_config m s =
      add_reconciler-Adding sound Kind.edit_config m (Registration.new_edit_config_reconciler H m) s
        refl
  add-Adding sound Kind.commit m s =
      add_reconciler-Adding sound Kind.commit m (Registration.new_commit_reconciler H m) s refl
  add-Adding sound Kind.get m s =
      add_reconciler-Adding sound Kind.get m (Registration.new_get_reconciler H m) s refl
  add-Adding sound Kind.get_config m s =
      add_reconciler-Adding sound Kind.get_config m (Registration.new_get_config_reconciler H m) s
        refl
  add-Adding sound Kind.rpc m s =
      add_reconciler-Adding sound Kind.rpc m (Registration.new_rpc_reconciler H m) s refl
  add-Adding sound Kind.create_subscription m s =
      add_reconciler-Adding sound Kind.create_subscription m
        (Registration.new_create_subscription_reconciler H m) s refl
  add-Adding sound Kind.establish_subscription m s =
      add_reconciler-Adding sound Kind.establish_subscription m
        (Registration.new_establish_subscription_reconciler H m) s refl

  unfoldable pub add_all : List Kind → Manager → B W (Unit {0})
  add_all [] m = pure tt
  add_all (k ∷ ks) m = add k m >> add_all ks m

  pub register-eq-add_all : (m : Manager) → Main.register H m ≡ add_all order m
  unfolding Main.register add_all add
  register-eq-add_all m = refl

  abbrev pub AddingAll :
      Manager → List Kind → List SetupCall → Outcome (Unit {0}) × Setup W → Type 0
  AddingAll m ks before (ok e, s) = AllAdded H m ks before s.calls
  AddingAll m ks before (panic, s) = ⊥
  AddingAll m ks before (exit, s) = ⊥

  rest-AddingAll :
      (m : Manager) (k : Kind) (ks : List Kind) (s : Setup W) (x : Outcome (Option Error) × Setup W)
      → Adding m k s x
      → ((s' : Setup W) → AddingAll m ks s'.calls (add_all ks m s'))
      → AddingAll m (k ∷ ks) s.calls (continue x.0 (λ _. add_all ks m) x.1)
  rest-AddingAll m k ks s (ok e, s') d h = rest (add_all ks m s') (h s')
    where
      rest :
          (y : Outcome (Unit {0}) × Setup W)
          → AddingAll m ks s'.calls y
          → AddingAll m (k ∷ ks) s.calls y
      rest (ok u, s'') i = AllAdded.next s.world e d i
      rest (panic, s'') i = absurd i
      rest (exit, s'') i = absurd i
  rest-AddingAll m k ks s (panic, s') d h = absurd d
  rest-AddingAll m k ks s (exit, s') d h = absurd d

  pub add_all-AddingAll :
      IsSound H
      → (ks : List Kind) (m : Manager) (s : Setup W) → AddingAll m ks s.calls (add_all ks m s)
  unfolding add_all
  add_all-AddingAll sound [] m s = AllAdded.nothing s.calls
  add_all-AddingAll sound (k ∷ ks) m s =
      rest-AddingAll m k ks s (add k m s) (add-Adding sound k m s) (add_all-AddingAll sound ks m)
