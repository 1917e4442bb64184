-- ===== src/Controllers/MountPoint/OwnKey.antt =====
-- The keys of `Sessions` that a mount point changes.
use netconf_operator.Base.{◌≡◌, ◌≢◌, refl, String, ◌∙◌}
use netconf_operator.Base.GoMap.{lookup, lookup-insert_other, lookup-erase_other}
use netconf_operator.Api.Meta.{NamespacedName}
use netconf_operator.Api.Objects.{Kind, device_name}
use netconf_operator.Runtime.{Platform, State}
use netconf_operator.Controllers.MountPoint.Keeps.Finish.{mount_point-keeps}
use netconf_operator.Controllers.All

-- A reconcile of a `MountPoint`, however it ends, leaves the session of every other mount point in
-- `Sessions` as it was.
pub reconcile-keeps_others :
    {W : Type 0} (P : Platform W) (req : NamespacedName) (s : State W) (key : String)
    → P.text (device_name Kind.mount_point (P.client_get Kind.mount_point req s.world).0.1) ≢ key
    → lookup key (All.reconcile P Kind.mount_point req s).1.sessions ≡ lookup key s.sessions
reconcile-keeps_others P req s key ne =
    let own =
      P.text (device_name Kind.mount_point (P.client_get Kind.mount_point req s.world).0.1) in
    mount_point-keeps P (λ _. Unit) (λ s'. lookup key s'.sessions ≡ lookup key s.sessions) req s
      (record {
        opener = record {
          live = λ _ _. tt;
          hello = λ _ _ _ _. tt;
          called = λ _ _ _ _ i. i;
          inserted = λ q s' _ i. lookup-insert_other key own q s'.sessions ne ∙ i;
        };
        erased = λ s' i. lookup-erase_other key own s'.sessions ne ∙ i;
      })
      refl
