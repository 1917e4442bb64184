-- ===== src/Api/Copies/Lock.antt =====
-- The deep copies of `Lock`, `LockList` and `LockSpec` (api/v1/zz_generated.deepcopy.go).
use netconf_operator.Base.{Option}
use netconf_operator.Api.Specs.{LockSpec}
use netconf_operator.Api.Copies.Memory.{Address, Raw, RawList, Heap, Mem, pure}
use netconf_operator.Api.Copies.Shared.{
  Copies, Pointing, deep_copy_by, deep_copy_object_by, object_deep_copy_into,
}
use netconf_operator.Api.Copies.Shared

unfoldable pub spec_deep_copy_into : LockSpec → Mem (Heap LockSpec) LockSpec
spec_deep_copy_into i = pure i

unfoldable pub spec_deep_copy : Option Address → Mem (Pointing LockSpec LockSpec) (Option Address)
unfolding deep_copy_by spec_deep_copy_into
spec_deep_copy = deep_copy_by spec_deep_copy_into

module _ (C : Copies) where
  unfoldable pub deep_copy_into : Raw LockSpec → Mem (Heap LockSpec) (Raw LockSpec)
  unfolding object_deep_copy_into
  deep_copy_into = object_deep_copy_into C pure

  unfoldable pub deep_copy :
      Option Address → Mem (Pointing LockSpec (Raw LockSpec)) (Option Address)
  unfolding deep_copy_by deep_copy_into
  deep_copy = deep_copy_by deep_copy_into

  unfoldable pub deep_copy_object :
      Option Address → Mem (Pointing LockSpec (Raw LockSpec)) (Option Address)
  unfolding deep_copy_object_by deep_copy_into
  deep_copy_object = deep_copy_object_by deep_copy_into

  unfoldable pub list_deep_copy_into : RawList → Mem (Heap LockSpec) (RawList)
  unfolding Shared.list_deep_copy_into deep_copy_into
  list_deep_copy_into = Shared.list_deep_copy_into C deep_copy_into

  unfoldable pub list_deep_copy :
      Option Address → Mem (Pointing LockSpec (RawList)) (Option Address)
  unfolding deep_copy_by list_deep_copy_into
  list_deep_copy = deep_copy_by list_deep_copy_into

  unfoldable pub list_deep_copy_object :
      Option Address → Mem (Pointing LockSpec (RawList)) (Option Address)
  unfolding deep_copy_object_by list_deep_copy_into
  list_deep_copy_object = deep_copy_object_by list_deep_copy_into
