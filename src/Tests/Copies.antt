-- ===== src/Tests/Copies.antt =====
-- A mount point with five arrays and maps, copied.
use netconf_operator.Base.{◌≡◌, refl, ap, suc, [], ◌∷◌, none, some, pos, arith}
use netconf_operator.Api.Objects.{Kind}
use netconf_operator.Api.Copies.Memory.{
  Address, Slice, Raw, RawObjectMeta, RawListMeta, RawMountPointSpec, Heap, Mem, ◌>>=◌, pure, write,
  write_self, write_other,
}
use netconf_operator.Api.Copies.Shared.{Copies, copy_strings}
use netconf_operator.Api.Copies.Deep.{Grows-refl, IsDeepCopy}
use netconf_operator.Api.Copies.Deep.Shapes.{
  strings_shape, maps_shape, numbers_shape, copy_strings-IsDeepCopy, pair, pair-IsDeepCopy,
}
use netconf_operator.Api.Copies.Deep.Objects.{IsFaithful, object_meta_shape, list_meta_shape}
use netconf_operator.Api.Copies.Deep.Pointers.{IsCopied}
use netconf_operator.Api.Copies.Deep.Kinds.{Copied, shape_of, deep_copy, deep_copy_object}
use netconf_operator.Api.Copies.Deep.Whole.{deep_copy-IsCopied}

-- A library that copies the arrays, the maps and the number of its types.
module _ {S : Type 0} where
  copy_map : Slice → Mem (Heap S) Slice
  copy_map none h = (none, h)
  copy_map (some a) h =
      (some h.next, record h { next = suc h.next; maps = write h.next (h.maps a) h.maps })

  copy_map-IsDeepCopy :
      (h : Heap S) (s : Slice) → maps_shape.lies h s → IsDeepCopy maps_shape h s (copy_map s h)
  unfolding copy_map
  copy_map-IsDeepCopy h none l = (Grows-refl h, refl, tt, tt)
  copy_map-IsDeepCopy h (some a) l = (
    record {
      more = ground arith;
      maps = λ b l. write_other h.next b (h.maps a) h.maps (λ e. ground (arith, e, l));
      strings = λ a l. refl;
      conditions = λ a l. refl;
      items = λ a l. refl;
      numbers = λ a l. refl;
    },
    ap some (write_self h.next (h.maps a) h.maps),
    ground arith,
    ground arith,
  )

  copy_number : Slice → Mem (Heap S) Slice
  copy_number none h = (none, h)
  copy_number (some a) h =
      (some h.next, record h { next = suc h.next; numbers = write h.next (h.numbers a) h.numbers })

  copy_number-IsDeepCopy :
      (h : Heap S) (s : Slice)
      → numbers_shape.lies h s
      → IsDeepCopy numbers_shape h s (copy_number s h)
  unfolding copy_number
  copy_number-IsDeepCopy h none l = (Grows-refl h, refl, tt, tt)
  copy_number-IsDeepCopy h (some a) l = (
    record {
      more = ground arith;
      numbers = λ b l. write_other h.next b (h.numbers a) h.numbers (λ e. ground (arith, e, l));
      strings = λ a l. refl;
      conditions = λ a l. refl;
      items = λ a l. refl;
      maps = λ a l. refl;
    },
    ap some (write_self h.next (h.numbers a) h.numbers),
    ground arith,
    ground arith,
  )

  copy_maps : Slice × Slice → Mem (Heap S) (Slice × Slice)
  copy_maps t = copy_map t.0 >>= λ l. copy_map t.1 >>= λ a. pure (l, a)

  copy_object_meta : RawObjectMeta → Mem (Heap S) RawObjectMeta
  copy_object_meta m = copy_strings m.finalizers >>= λ f.
      copy_maps (m.labels, m.annotations) >>= λ t.
      pure (record m { finalizers = f; labels = t.0; annotations = t.1 })

  copy_object_meta-IsDeepCopy :
      (h : Heap S) (m : RawObjectMeta)
      → object_meta_shape.lies h m
      → IsDeepCopy object_meta_shape h m (copy_object_meta m h)
  unfolding copy_object_meta copy_maps
  copy_object_meta-IsDeepCopy h m l =
      let (grows, same, lies, fresh) =
        pair-IsDeepCopy strings_shape (pair maps_shape maps_shape) copy_strings copy_maps h
          m.finalizers (m.labels, m.annotations) l (copy_strings-IsDeepCopy h m.finalizers l.0)
          (λ l'.
            let h' = (copy_strings m.finalizers h).1 in
            pair-IsDeepCopy maps_shape maps_shape copy_map copy_map h' m.labels m.annotations l'
              (copy_map-IsDeepCopy h' m.labels l'.0) (copy_map-IsDeepCopy _ m.annotations)) in
      (grows, ap (λ x. (x, (m.namespace, m.name, m.deletion_timestamp))) same, lies, fresh)

  copy_list_meta : RawListMeta → Mem (Heap S) RawListMeta
  copy_list_meta m =
      copy_number m.remaining_item_count >>= λ c. pure (record m { remaining_item_count = c })

  copy_list_meta-IsDeepCopy :
      (h : Heap S) (m : RawListMeta)
      → list_meta_shape.lies h m
      → IsDeepCopy list_meta_shape h m (copy_list_meta m h)
  unfolding copy_list_meta
  copy_list_meta-IsDeepCopy h m l =
      let (grows, same, lies, fresh) = copy_number-IsDeepCopy h m.remaining_item_count l in
      (grows, ap (λ x. (x, (m.resource_version, m.continue_token))) same, lies, fresh)

abbrev copies : Copies
copies = record {
  object_meta = λ S m. copy_object_meta m;
  list_meta = λ S m. copy_list_meta m;
  condition = λ c. c;
}

copies-IsFaithful : IsFaithful copies
copies-IsFaithful = record {
  object_meta = λ S h m l. copy_object_meta-IsDeepCopy h m l;
  list_meta = λ S h m l. copy_list_meta-IsDeepCopy h m l;
  condition = λ c. refl;
}

abbrev router : Raw RawMountPointSpec
router = record {
  type_meta = record { kind = "MountPoint"; api_version = "netconf.openshift-telco.io/v1" };
  meta = record {
    namespace = "lab";
    name = "router";
    labels = some 4;
    annotations = some 5;
    finalizers = some 3;
    deletion_timestamp = none;
  };
  spec = record {
    target = "10.0.0.1:830";
    username = "admin";
    password = "secret";
    timeout = pos 10;
    additional_capabilities = some 1;
  };
  status = record {
    conditions = none;
    status = "connected";
    rpc_reply = "";
    capabilities = some 2;
    subscription_id = "";
  };
}

-- The object is at 0, its arrays at 1 to 3, and its maps at 4 and 5.
abbrev heap : Heap RawMountPointSpec
heap = record {
  next = 6;
  strings = λ a. "urn:a" ∷ [];
  conditions = λ a. [];
  items = λ a. [];
  maps = λ a. ("site", "lab") ∷ [];
  numbers = λ a. pos 0;
}

abbrev store : Address → Raw RawMountPointSpec
store a = router

deep_copy-IsCopied_example :
    IsCopied
      (shape_of (Copied.object Kind.mount_point))
      heap
      store
      0
      (deep_copy copies (Copied.object Kind.mount_point) (some 0) (heap, store))
    × (deep_copy_object copies (Copied.object Kind.mount_point) (some 0) (heap, store)
        ≡ deep_copy copies (Copied.object Kind.mount_point) (some 0) (heap, store))
deep_copy-IsCopied_example =
    deep_copy-IsCopied copies copies-IsFaithful (Copied.object Kind.mount_point) heap store 0
      (ground arith)
      ((ground arith, (ground arith, ground arith)), (ground arith, (tt, ground arith)))
