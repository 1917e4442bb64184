-- ===== src/Controllers/Common/Lookup.antt =====
-- `CheckMountPointExists`, and the session that the controllers look up behind it.
use netconf_operator.Base.{◌≡◌, true, is_some, arith}
use netconf_operator.Base.GoMap.{lookup}
use netconf_operator.Api.Meta.{NamespacedName}
use netconf_operator.Api.Objects.{Kind, get_namespaced_name}
use netconf_operator.Runtime.{Platform, State, ok, FetchesByName}
use netconf_operator.Controllers.Common.{check_mount_point_exists}

-- If the check answers true for a name, the sessions hold one under the name's key.
pub check_mount_point_exists-finds :
    {W : Type 0} (P : Platform W)
    → FetchesByName P
    → (n : NamespacedName) (s : State W) → (check_mount_point_exists P n s).0 ≡ ok true
    → is_some (lookup (P.text n) s.sessions) ≡ true
unfolding check_mount_point_exists get_namespaced_name
check_mount_point_exists-finds P named n s h = ground (arith, named Kind.mount_point n s.world)
