-- ===== src/Api/Copies/MountPoint.antt =====
-- The deep copies of `MountPoint`, `MountPointList` and `MountPointSpec` (api/v1/zz_generated.deepcopy.go).
use netconf_operator.Base.{Option}
use netconf_operator.Api.Copies.Memory.{
  Address, Raw, RawList, Heap, Mem, pure, RawMountPointSpec, ◌>>=◌,
}
use netconf_operator.Api.Copies.Shared.{
  Copies, Pointing, deep_copy_by, deep_copy_object_by, object_deep_copy_into, copy_strings,
}
use netconf_operator.Api.Copies.Shared

unfoldable pub spec_deep_copy_into :
    RawMountPointSpec → Mem (Heap RawMountPointSpec) RawMountPointSpec
unfolding copy_strings
spec_deep_copy_into i = do
  additional_capabilities ← copy_strings i.additional_capabilities
  pure (record i { additional_capabilities = additional_capabilities })

unfoldable pub spec_deep_copy :
    Option Address → Mem (Pointing RawMountPointSpec RawMountPointSpec) (Option Address)
unfolding deep_copy_by spec_deep_copy_into
spec_deep_copy = deep_copy_by spec_deep_copy_into

module _ (C : Copies) where
  unfoldable pub deep_copy_into :
      Raw RawMountPointSpec → Mem (Heap RawMountPointSpec) (Raw RawMountPointSpec)
  unfolding object_deep_copy_into spec_deep_copy_into
  deep_copy_into = object_deep_copy_into C spec_deep_copy_into

  unfoldable pub deep_copy :
      Option Address → Mem (Pointing RawMountPointSpec (Raw RawMountPointSpec)) (Option Address)
  unfolding deep_copy_by deep_copy_into
  deep_copy = deep_copy_by deep_copy_into

  unfoldable pub deep_copy_object :
      Option Address → Mem (Pointing RawMountPointSpec (Raw RawMountPointSpec)) (Option Address)
  unfolding deep_copy_object_by deep_copy_into
  deep_copy_object = deep_copy_object_by deep_copy_into

  unfoldable pub list_deep_copy_into : RawList → Mem (Heap RawMountPointSpec) (RawList)
  unfolding Shared.list_deep_copy_into deep_copy_into
  list_deep_copy_into = Shared.list_deep_copy_into C deep_copy_into

  unfoldable pub list_deep_copy :
      Option Address → Mem (Pointing RawMountPointSpec (RawList)) (Option Address)
  unfolding deep_copy_by list_deep_copy_into
  list_deep_copy = deep_copy_by list_deep_copy_into

  unfoldable pub list_deep_copy_object :
      Option Address → Mem (Pointing RawMountPointSpec (RawList)) (Option Address)
  unfolding deep_copy_object_by list_deep_copy_into
  list_deep_copy_object = deep_copy_object_by list_deep_copy_into
