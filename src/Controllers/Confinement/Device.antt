-- ===== src/Controllers/Confinement/Device.antt =====
-- The calls that touch no device but one.
use netconf_operator.Base.{◌≡◌, Option, some}
use netconf_operator.Runtime.{SessionPtr, Call, IsClusterCall}

-- The calls that reach no device and no broker, and those to the one session `l`, which is not nil.
abbrev pub Touches : Option SessionPtr → Call → Type 0
Touches l (Call.sync_rpc p m t) = (q : SessionPtr) × (l ≡ some q) × (p ≡ some q)
Touches l (Call.create_notification_stream p t a b c f) =
    (q : SessionPtr) × (l ≡ some q) × (p ≡ some q)
Touches l (Call.register q id f) = l ≡ some q
Touches l (Call.remove q id) = l ≡ some q
Touches l (Call.client_get k n) = Unit
Touches l (Call.client_update o) = Unit
Touches l (Call.manage_error o e) = Unit
Touches l (Call.manage_error_with_requeue o e t) = Unit
Touches l (Call.manage_success o) = Unit
Touches l (Call.new_message m) = Unit
Touches l (Call.unmarshal text) = Unit
Touches l c = ⊥

pub cluster-Touches : (l : Option SessionPtr) (c : Call) → IsClusterCall c → Touches l c
cluster-Touches l (Call.client_get k n) h = tt
cluster-Touches l (Call.client_update o) h = tt
cluster-Touches l (Call.manage_error o e) h = tt
cluster-Touches l (Call.manage_error_with_requeue o e t) h = tt
cluster-Touches l (Call.manage_success o) h = tt
cluster-Touches l c h = absurd h
