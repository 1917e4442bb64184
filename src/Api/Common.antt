-- ===== src/Api/Common.antt =====
-- api/v1/common_types.go
use netconf_operator.Base.{String, Bool, ◌||◌, ◌==◌, List, ℤ}
use netconf_operator.Api.Meta.{Condition}

-- What `dependsOn` names: the kind and the name of another operation.
pub record DependsOn : Type 0 where
  pub kind : String
  pub name : String

-- `len(s) == 0` of a string is `s == ""`.
unfoldable pub is_nil : DependsOn → Bool
is_nil d = d.kind == "" || d.name == ""

pub record KafkaSink : Type 0 where
  pub enabled : Bool
  pub topic : String
  pub transport_type : String
  pub broker : String
  pub partition : ℤ

-- `RPCStatus`, which every resource embeds.
pub record RpcStatus : Type 0 where
  pub conditions : List Condition
  pub status : String
  pub rpc_reply : String
  pub capabilities : List String
  pub subscription_id : String

unfoldable pub get_conditions : RpcStatus → List Condition
get_conditions obj = obj.conditions

unfoldable pub set_conditions : RpcStatus → List Condition → RpcStatus
set_conditions obj reconcile_status = record obj { conditions = reconcile_status }
