-- ===== src/Startup/Names.antt =====
-- The names of the controllers (controllers/common.go) in a start (main.go).
use netconf_operator.Base.{
  ◌≡◌, refl, ap, ◌∙◌, String, ◌==◌, Bool, true, false, List, [], ◌∷◌, Option, ℕ, suc,
}
use netconf_operator.Api.Objects.{Kind}
use netconf_operator.Runtime.{Outcome, ok, Error}
use netconf_operator.Startup.Host.{Host, Manager, Flags, Setup, SetupCall}
use netconf_operator.Startup.Main
use netconf_operator.Startup.Trace.{
  controller_name, order, IsSound, Added, AllAdded, Served, Started,
}
use netconf_operator.Startup.Calls.{main-Started}

-- A request for a controller of the name.
abbrev asks : String → SetupCall → Bool
asks name (SetupCall.new_controller n m r) = name == n
asks name c = false

abbrev plus_if : Bool → ℕ → ℕ
plus_if true n = suc n
plus_if false n = n

abbrev pub asked : String → List SetupCall → ℕ
asked name [] = 0
asked name (c ∷ cs) = plus_if (asks name c) (asked name cs)

abbrev asked_by : String → List Kind → ℕ → ℕ
asked_by name [] n = n
asked_by name (k ∷ ks) n = asked_by name ks (plus_if (name == controller_name k) n)

Added-asked :
    {W : Type 0} (H : Host W) (w : W) (name : String) (m : Manager) (k : Kind)
    (before calls : List SetupCall) (e : Option Error)
    → Added H m k w before e calls
    → asked name calls ≡ plus_if (name == controller_name k) (asked name before)
Added-asked H w name m k before _ _ (Added.refused r e same created) = refl
Added-asked H w name m k before _ _ (Added.watched r c e same created result) = refl

AllAdded-asked :
    {W : Type 0} (H : Host W) (name : String) (m : Manager) (ks : List Kind)
    (before after : List SetupCall)
    → AllAdded H m ks before after
    → asked name after ≡ asked_by name ks (asked name before)
AllAdded-asked H name m [] before _ (AllAdded.nothing _) = refl
AllAdded-asked H name m (k ∷ ks) before after (AllAdded.next {calls = calls} w e d rest) =
    AllAdded-asked H name m ks calls after rest
    ∙ ap (asked_by name ks) (Added-asked H w name m k before calls e d)

Served-asked :
    {W : Type 0} (H : Host W) (w : W) (name : String) (before after : List SetupCall)
    (r : Outcome (Unit {0}))
    → Served H w before r after
    → asked name after ≡ asked name before
Served-asked H w name before _ _ (Served.not_healthy h) = refl
Served-asked H w name before _ _ (Served.not_ready h n) = refl
Served-asked H w name before _ _ (Served.ran r h n i) = refl

-- The ten names differ.
order-asked_by : (k : Kind) (n : ℕ) → asked_by (controller_name k) order n ≡ suc n
order-asked_by Kind.mount_point n = refl
order-asked_by Kind.lock n = refl
order-asked_by Kind.unlock n = refl
order-asked_by Kind.edit_config n = refl
order-asked_by Kind.commit n = refl
order-asked_by Kind.get n = refl
order-asked_by Kind.get_config n = refl
order-asked_by Kind.rpc n = refl
order-asked_by Kind.create_subscription n = refl
order-asked_by Kind.establish_subscription n = refl

Started-asked :
    {W : Type 0} (H : Host W) (f : Flags) (w : W) (before after : List SetupCall)
    (r : Outcome (Unit {0})) (k : Kind)
    → Started H f w before r after
    → r ≡ ok tt
    → asked (controller_name k) after ≡ suc (asked (controller_name k) before)
Started-asked H f w before _ _ k (Started.no_config died) h = absurd cc
Started-asked H f w before _ _ k (Started.no_manager config failed) h = absurd cc
Started-asked H f w before after r k
      (Started.served m w' {calls = calls} config manager added served) h =
    Served-asked H w' (controller_name k) calls after r served
    ∙ AllAdded-asked H (controller_name k) m order _ calls added
    ∙ order-asked_by k (asked (controller_name k) before)

-- A start that runs the manager to its end has asked for exactly one controller under the name of
-- each of the ten kinds.
pub main-asked :
    {W : Type 0} (H : Host W)
    → IsSound H
    → (s : Setup W) (k : Kind) → (Main.main H s).0 ≡ ok tt
    → asked (controller_name k) (Main.main H s).1.calls ≡ suc (asked (controller_name k) s.calls)
main-asked H sound s k h =
    Started-asked H (H.parse Main.default_flags s.world).0 (H.parse Main.default_flags s.world).1
      s.calls (Main.main H s).1.calls (Main.main H s).0 k (main-Started H sound s) h
