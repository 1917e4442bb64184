-- ===== src/Api/Copies/EditConfig.antt =====
-- The deep copies of `EditConfig`, `EditConfigList` and `EditConfigSpec` (api/v1/zz_generated.deepcopy.go).
use netconf_operator.Base.{Option}
use netconf_operator.Api.Specs.{EditConfigSpec}
use netconf_operator.Api.Copies.Memory.{Address, Raw, RawList, Heap, Mem, pure}
use netconf_operator.Api.Copies.Shared.{
  Copies, Pointing, deep_copy_by, deep_copy_object_by, object_deep_copy_into,
}
use netconf_operator.Api.Copies.Shared

unfoldable pub spec_deep_copy_into : EditConfigSpec → Mem (Heap EditConfigSpec) EditConfigSpec
spec_deep_copy_into i = pure (record i { depends_on = i.depends_on })

unfoldable pub spec_deep_copy :
    Option Address → Mem (Pointing EditConfigSpec EditConfigSpec) (Option Address)
unfolding deep_copy_by spec_deep_copy_into
spec_deep_copy = deep_copy_by spec_deep_copy_into

module _ (C : Copies) where
  unfoldable pub deep_copy_into :
      Raw EditConfigSpec → Mem (Heap EditConfigSpec) (Raw EditConfigSpec)
  unfolding object_deep_copy_into
  deep_copy_into = object_deep_copy_into C pure

  unfoldable pub deep_copy :
      Option Address → Mem (Pointing EditConfigSpec (Raw EditConfigSpec)) (Option Address)
  unfolding deep_copy_by deep_copy_into
  deep_copy = deep_copy_by deep_copy_into

  unfoldable pub deep_copy_object :
      Option Address → Mem (Pointing EditConfigSpec (Raw EditConfigSpec)) (Option Address)
  unfolding deep_copy_object_by deep_copy_into
  deep_copy_object = deep_copy_object_by deep_copy_into

  unfoldable pub list_deep_copy_into : RawList → Mem (Heap EditConfigSpec) (RawList)
  unfolding Shared.list_deep_copy_into deep_copy_into
  list_deep_copy_into = Shared.list_deep_copy_into C deep_copy_into

  unfoldable pub list_deep_copy :
      Option Address → Mem (Pointing EditConfigSpec (RawList)) (Option Address)
  unfolding deep_copy_by list_deep_copy_into
  list_deep_copy = deep_copy_by list_deep_copy_into

  unfoldable pub list_deep_copy_object :
      Option Address → Mem (Pointing EditConfigSpec (RawList)) (Option Address)
  unfolding deep_copy_object_by list_deep_copy_into
  list_deep_copy_object = deep_copy_object_by list_deep_copy_into
