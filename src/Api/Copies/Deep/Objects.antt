-- ===== src/Api/Copies/Deep/Objects.antt =====
-- The copies of the statuses, the specs and the resources.
use netconf_operator.Base.{◌≡◌, ap, String, Option, ℤ, ℕ}
use netconf_operator.Api.Meta.{Condition}
use netconf_operator.Api.Copies.Memory.{
  TypeMeta, Raw, RawObjectMeta, RawListMeta, RawStatus, RawMountPointSpec, Heap, Mem, pure, ◌>>=◌,
}
use netconf_operator.Api.Copies.Shared.{
  Copies, copy_strings, copy_conditions, rpc_status_deep_copy_into, object_deep_copy_into,
}
use netconf_operator.Api.Copies.Deep.{Shape, IsDeepCopy}
use netconf_operator.Api.Copies.Deep.Shapes.{
  strings_shape, conditions_shape, maps_shape, numbers_shape, copy_strings-IsDeepCopy,
  copy_conditions-IsDeepCopy, pair, pair-IsDeepCopy, part,
}

module _ {S : Type 0} where
  abbrev pub object_meta_shape : Shape S RawObjectMeta
  object_meta_shape =
      part {R = String × String × Option ℕ} (pair strings_shape (pair maps_shape maps_shape))
        (λ m. (m.finalizers, (m.labels, m.annotations)))
        (λ m. (m.namespace, m.name, m.deletion_timestamp))

  abbrev pub list_meta_shape : Shape S RawListMeta
  list_meta_shape =
      part {R = String × String} numbers_shape (λ m. m.remaining_item_count)
        (λ m. (m.resource_version, m.continue_token))

-- The copies of the other packages' types are deep copies.
pub record IsFaithful (C : Copies) : Type 1 where
  pub object_meta :
      (S : Type 0) (h : Heap S) (m : RawObjectMeta)
      → object_meta_shape.lies h m
      → IsDeepCopy object_meta_shape h m (C.object_meta S m h)
  pub list_meta :
      (S : Type 0) (h : Heap S) (m : RawListMeta)
      → list_meta_shape.lies h m
      → IsDeepCopy list_meta_shape h m (C.list_meta S m h)
  pub condition : (c : Condition) → C.condition c ≡ c

module _ {S : Type 0} where
  abbrev pub status_shape : Shape S RawStatus
  status_shape =
      part {R = String × String × String} (pair conditions_shape strings_shape)
        (λ s. (s.conditions, s.capabilities)) (λ s. (s.status, s.rpc_reply, s.subscription_id))

  abbrev pub mount_point_spec_shape : Shape S RawMountPointSpec
  mount_point_spec_shape =
      part {R = String × String × String × ℤ} strings_shape (λ s. s.additional_capabilities)
        (λ s. (s.target, s.username, s.password, s.timeout))

  abbrev pub object_shape : Shape S S → Shape S (Raw S)
  object_shape spec =
      part {R = TypeMeta} (pair object_meta_shape (pair spec status_shape))
        (λ o. (o.meta, (o.spec, o.status))) (λ o. o.type_meta)

  module _ (C : Copies) (faithful : IsFaithful C) where
    pub rpc_status-IsDeepCopy :
        (h : Heap S) (s : RawStatus)
        → status_shape.lies h s
        → IsDeepCopy status_shape h s (rpc_status_deep_copy_into C s h)
    unfolding rpc_status_deep_copy_into
    rpc_status-IsDeepCopy h s l =
        let (grows, same, lies, fresh) =
          pair-IsDeepCopy conditions_shape strings_shape (copy_conditions C) copy_strings h
            s.conditions s.capabilities l
            (copy_conditions-IsDeepCopy C faithful.condition h s.conditions l.0)
            (copy_strings-IsDeepCopy _ s.capabilities) in
        (grows, ap (λ x. (x, (s.status, s.rpc_reply, s.subscription_id))) same, lies, fresh)

    pub object-IsDeepCopy :
        (spec : Shape S S) (copy_spec : S → Mem (Heap S) S) (h : Heap S) (o : Raw S)
        → ((h : Heap S) (s : S) → spec.lies h s → IsDeepCopy spec h s (copy_spec s h))
        → (object_shape spec).lies h o
        → IsDeepCopy (object_shape spec) h o (object_deep_copy_into C copy_spec o h)
    unfolding object_deep_copy_into
    object-IsDeepCopy spec copy_spec h o deep l =
        let copy_rest : S × RawStatus → Mem (Heap S) (S × RawStatus) =
          λ t. copy_spec t.0 >>= λ s. rpc_status_deep_copy_into C t.1 >>= λ r. pure (s, r) in
        let (grows, same, lies, fresh) =
          pair-IsDeepCopy object_meta_shape (pair spec status_shape) (C.object_meta S) copy_rest h
            o.meta (o.spec, o.status) l (faithful.object_meta S h o.meta l.0)
            (λ l'.
              let h' = (C.object_meta S o.meta h).1 in
              pair-IsDeepCopy spec status_shape copy_spec (rpc_status_deep_copy_into C) h' o.spec
                o.status l' (deep h' o.spec l'.0) (rpc_status-IsDeepCopy _ o.status)) in
        (grows, ap (λ x. (x, o.type_meta)) same, lies, fresh)
