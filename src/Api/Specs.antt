-- ===== src/Api/Specs.antt =====
-- The specs of the ten resources (api/v1/*_types.go). A Go `int32` is a `ℤ`.
use netconf_operator.Base.{String, Bool, List, ℤ}
use netconf_operator.Api.Common.{DependsOn, KafkaSink}

pub record MountPointSpec : Type 0 where
  pub target : String
  pub username : String
  pub password : String
  pub timeout : ℤ
  pub additional_capabilities : List String

pub record LockSpec : Type 0 where
  pub mount_point : String
  pub timeout : ℤ
  pub target : String

pub record UnlockSpec : Type 0 where
  pub mount_point : String
  pub timeout : ℤ
  pub target : String
  pub depends_on : DependsOn

pub record CommitSpec : Type 0 where
  pub mount_point : String
  pub timeout : ℤ
  pub depends_on : DependsOn

pub record EditConfigSpec : Type 0 where
  pub mount_point : String
  pub timeout : ℤ
  pub operation : String
  pub target : String
  pub xml : String
  pub depends_on : DependsOn
  pub lock : Bool
  pub commit : Bool
  pub unlock : Bool

pub record GetSpec : Type 0 where
  pub mount_point : String
  pub timeout : ℤ
  pub filter_type : String
  pub filter_xml : String

pub record GetConfigSpec : Type 0 where
  pub mount_point : String
  pub timeout : ℤ
  pub target : String

pub record RpcSpec : Type 0 where
  pub mount_point : String
  pub timeout : ℤ
  pub xml : String

pub record CreateSubscriptionSpec : Type 0 where
  pub mount_point : String
  pub timeout : ℤ
  pub stream : String
  pub start_time : String
  pub stop_time : String
  pub kafka_sink : KafkaSink

pub record EstablishSubscriptionSpec : Type 0 where
  pub mount_point : String
  pub timeout : ℤ
  pub xml : String
  pub kafka_sink : KafkaSink
