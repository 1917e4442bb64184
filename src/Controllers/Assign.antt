-- ===== src/Controllers/Assign.antt =====
-- Assignments to the status that a resource embeds, `obj.Status = …` and the like, and the results
-- and tests that the controllers share.
use netconf_operator.Base.{String, Bool, true, Option, none, is_some, List, if◌then◌else◌}
use netconf_operator.Api.Meta.{ObjectMeta}
use netconf_operator.Api.Objects.{Resource}
use netconf_operator.Runtime.{◌>>=◌, M, pure, deref, Error, Reply, Reconciled}

module _ {S : Type 0} where
  abbrev pub set_status : Resource S → String → Resource S
  set_status obj v = let r = obj.status in record obj { status = record r { status = v } }

  abbrev pub set_rpc_reply : Resource S → String → Resource S
  set_rpc_reply obj v = let r = obj.status in record obj { status = record r { rpc_reply = v } }

  abbrev pub set_capabilities : Resource S → List String → Resource S
  set_capabilities obj v =
      let r = obj.status in record obj { status = record r { capabilities = v } }

  abbrev pub set_subscription_id : Resource S → String → Resource S
  set_subscription_id obj v =
      let r = obj.status in record obj { status = record r { subscription_id = v } }

  abbrev pub set_meta : Resource S → ObjectMeta → Resource S
  set_meta obj m = record obj { meta = m }

-- `ctrl.Result{}, nil`
abbrev pub settled : Reconciled
settled = record { requeue_after = 0; err = none }

-- `err != nil || reply.Errors != nil`: the reply is dereferenced only if `err` is nil.
abbrev pub has_failed : {W : Type 0} → Option Reply → Option Error → M W Bool
has_failed reply err =
    if is_some err then pure true else do r ← deref reply; pure (is_some r.errors)
