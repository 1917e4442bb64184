-- ===== src/Startup/Calls.antt =====
-- The calls of `main` (main.go).
use netconf_operator.Base.{
  ◌≡◌, refl, sym, ap, subst, if◌then◌else◌, Bool, true, false, List, ◌∷◌, Option, none, some,
  is_some, ◌⊎◌, inl, inr,
}
use netconf_operator.Runtime.{Outcome, ok, panic, exit, Error, IsEither}
use netconf_operator.Startup.Host.{
  Host, Manager, Flags, Setup, SetupCall, B, pure, continue, ◌>>=◌, called, exits,
}
use netconf_operator.Startup.Main.{options_of, default_flags}
use netconf_operator.Startup.Main
use netconf_operator.Startup.Trace.{order, IsSound, Served, Started}
use netconf_operator.Startup.Adding.{add_all, register-eq-add_all, AddingAll, add_all-AddingAll}

module _ {W : Type 0} (H : Host W) where
  by_cases :
      {A : Type 0} (C : Outcome A × Setup W → Type 0) (b : Bool) (x y : B W A) (s : Setup W)
      → (b ≡ true → C (x s))
      → (b ≡ false → C (y s))
      → C ((if b then x else y) s)
  by_cases C true x y s h k = h refl
  by_cases C false x y s h k = k refl

  abbrev Serving : W → List SetupCall → Outcome (Unit {0}) × Setup W → Type 0
  Serving w before (r, s) = Served H w before r s.calls

  serve-Serving : (s : Setup W) → Serving s.world s.calls (Main.serve H s)
  unfolding Main.serve Main.ready Main.run
  serve-Serving s =
      let C = Serving s.world s.calls in
      let healthz =
        called (SetupCall.add_healthz_check "healthz") (H.add_healthz_check "healthz") s in
      let readyz =
        called (SetupCall.add_readyz_check "readyz") (H.add_readyz_check "readyz") healthz.1 in
      let started = called SetupCall.start H.start readyz.1 in
      by_cases C (is_some (H.add_healthz_check "healthz" s.world).0) exits (Main.ready H) healthz.1
        Served.not_healthy
        λ healthy.
          by_cases C (is_some (H.add_readyz_check "readyz" healthz.1.world).0) exits (Main.run H)
            readyz.1 (Served.not_ready healthy)
            λ readied.
              by_cases C (is_some (H.start readyz.1.world).0) exits (pure tt) started.1
                (λ failed. Served.ran exit healthy readied (rw (failed) refl))
                (λ ended. Served.ran (ok tt) healthy readied (rw (ended) refl))

  abbrev Starting : Flags → W → List SetupCall → Outcome (Unit {0}) × Setup W → Type 0
  Starting f w before (r, s) = Started H f w before r s.calls

  module _ (f : Flags) (w : W) (before : List SetupCall)
      (config : (H.get_config_or_die w).0 ≡ ok tt) where
    registered-Starting :
        (m : Manager) (x : Outcome (Unit {0}) × Setup W)
        → (H.new_manager (options_of f) (H.get_config_or_die w).1).0 ≡ (some m, none)
        → AddingAll H m order
            (SetupCall.new_manager (options_of f) ∷ SetupCall.get_config_or_die ∷ before)
            x
        → Starting f w before (continue x.0 (λ _. Main.serve H) x.1)
    registered-Starting m (ok u, s) manager h =
        Started.served m s.world config manager h (serve-Serving s)
    registered-Starting m (panic, s) manager h = absurd h
    registered-Starting m (exit, s) manager h = absurd h

    managed-Starting :
        IsSound H
        → (x : Option Manager × Option Error) (w' : W)
        → (H.new_manager (options_of f) (H.get_config_or_die w).1).0 ≡ x
        → IsEither x
        → Starting f w before (
            Main.managed H x (record {
              calls = SetupCall.new_manager (options_of f) ∷ SetupCall.get_config_or_die ∷ before;
              world = w';
            }))
    unfolding Main.managed
    managed-Starting sound (none, none) w' same i = absurd i
    managed-Starting sound (none, some e) w' same i =
        Started.no_manager config (ap (λ x. is_some x.1) same)
    managed-Starting sound (some m, none) w' same i =
        let s : Setup W = record {
          calls = SetupCall.new_manager (options_of f) ∷ SetupCall.get_config_or_die ∷ before;
          world = w';
        } in
        subst
          (λ register.
            Starting f w before (continue (register s).0 (λ _. Main.serve H) (register s).1))
          (sym (register-eq-add_all H m))
          (registered-Starting m (add_all H order m s) same (add_all-AddingAll H sound order m s))
    managed-Starting sound (some m, some e) w' same i = absurd i

  configured-Starting :
      IsSound H
      → (f : Flags) (w : W) (r : Outcome (Unit {0})) (before : List SetupCall)
      → (H.get_config_or_die w).0 ≡ r
      → (r ≡ ok tt) ⊎ (r ≡ exit)
      → Starting f w before (
          continue r
            (λ _.
              called (SetupCall.new_manager (options_of f)) (H.new_manager (options_of f))
              >>= Main.managed H)
            (record {
              calls = SetupCall.get_config_or_die ∷ before;
              world = (H.get_config_or_die w).1;
            }))
  configured-Starting sound f w (ok u) before same i =
      let w' = (H.get_config_or_die w).1 in
      managed-Starting f w before same sound (H.new_manager (options_of f) w').0
        (H.new_manager (options_of f) w').1 refl (sound.managers (options_of f) w')
  configured-Starting sound f w panic before same (inl h) = absurd cc
  configured-Starting sound f w panic before same (inr h) = absurd cc
  configured-Starting sound f w exit before same i = Started.no_config same

  -- A start asks for the configuration, which ends the process if there is none, and for a manager
  -- with the options that the flags give, and exits if that returns an error. Else it registers the
  -- ten controllers in their order: each is asked for under its name, and if it is returned, watches
  -- the kind that its reconciler reconciles. Whatever errors these return, it adds the health check, and exits if
  -- that returns an error; else the ready check, and exits if that returns an error; else it runs
  -- the manager, and exits if the run returns an error, and returns if it returns nil. It is given
  -- that a call that returns a pointer and an error returns one of them, and that the configuration
  -- is returned or ends the process.
  pub main-Started :
      IsSound H
      → (s : Setup W)
      → let (f, w) = H.parse default_flags s.world in
        Started H f w s.calls (Main.main H s).0 (Main.main H s).1.calls
  unfolding Main.main
  main-Started sound s =
      let (f, w) = H.parse default_flags s.world in
      configured-Starting sound f w (H.get_config_or_die w).0 s.calls refl (sound.config w)
