-- ===== src/Api/Meta.antt =====
-- The Kubernetes metadata (k8s.io/apimachinery) that the operator hands over or reads: a name, the
-- object's header and a status condition. The operations on them are the platform's.
use netconf_operator.Base.{String, List, Option, ℕ}

pub record NamespacedName : Type 0 where
  pub namespace : String
  pub name : String

-- The fields of `metav1.ObjectMeta` that the controllers and the finalizer helpers go by.
pub record ObjectMeta : Type 0 where
  pub namespace : String
  pub name : String
  pub finalizers : List String
  -- The Unix time, or nil.
  pub deletion_timestamp : Option ℕ

-- `metav1.Condition`
pub record Condition : Type 0 where
  pub kind : String
  pub status : String
  pub reason : String
  pub message : String
