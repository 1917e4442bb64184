-- ===== src/Tests/Starts.antt =====
-- A start of the process, and the registration that fails on it.
use netconf_operator.Base.{
  ◌≡◌, refl, String, ◌==◌, [], Bool, true, false, Option, none, some, inl, if◌then◌else◌,
}
use netconf_operator.Api.Objects.{Kind}
use netconf_operator.Runtime.{ok, Error, foreign, IsEither}
use netconf_operator.Startup.Host.{Host, Setup, Controller}
use netconf_operator.Startup.Main
use netconf_operator.Startup.Trace.{IsSound, Started}
use netconf_operator.Startup.Calls.{main-Started}
use netconf_operator.Startup.Names.{asked, main-asked}

-- A manager that has no controller for locks.
abbrev controller_in : String → Option Controller × Option Error
controller_in name = if name == "lock" then (none, some (foreign 1)) else (some 3, none)

abbrev host : Host (Unit {0})
host = record {
  add_client_go_to_scheme = λ w. (none, w);
  add_netconf_to_scheme = λ w. (none, w);
  parse = λ f w. (f, w);
  get_config_or_die = λ w. (ok tt, w);
  new_manager = λ o w. ((some 1, none), w);
  get_client = λ m. 10;
  get_scheme = λ m. 11;
  get_config = λ m. 12;
  get_event_recorder_for = λ m name. 13;
  get_api_reader = λ m. 14;
  new_controller = λ name m r w. (controller_in name, w);
  watch = λ c k w. (none, w);
  add_healthz_check = λ name w. (none, w);
  add_readyz_check = λ name w. (none, w);
  start = λ w. (none, w);
}

controller_in-IsEither : (name : String) → IsEither (controller_in name)
controller_in-IsEither name = go (name == "lock")
  where
    go :
        (b : Bool)
        → IsEither {A = Controller} (if b then (none, some (foreign 1)) else (some 3, none))
    go true = tt
    go false = tt

host-IsSound : IsSound host
host-IsSound = record {
  config = λ w. inl refl;
  managers = λ o w. tt;
  controllers = λ name m r w. controller_in-IsEither name;
}

abbrev before : Setup (Unit {0})
before = record { calls = []; world = tt }

main-Started_example :
    Started host Main.default_flags tt before.calls
      (Main.main host before).0
      (Main.main host before).1.calls
main-Started_example = main-Started host host-IsSound before

-- The error is dropped, and the manager runs.
runs : (Main.main host before).0 ≡ ok tt
unfolding Main.main
runs = refl

main-asked_example : asked "lock" (Main.main host before).1.calls ≡ 1
main-asked_example = main-asked host host-IsSound before Kind.lock runs
