-- ===== src/Api/Copies/Deep/Whole.antt =====
-- The deep copies of all resources and of their lists.
use netconf_operator.Base.{◌≡◌, refl, ap, some, ◌<◌}
use netconf_operator.Api.Objects.{Kind}
use netconf_operator.Api.Copies.Memory.{Address, Raw, RawList, RawSpec, Heap, pure}
use netconf_operator.Api.Copies.Shared.{
  Copies, list_deep_copy_into, deep_copy_by, deep_copy_object_by,
}
use netconf_operator.Api.Copies.Deep.{Grows-refl, IsDeepCopy}
use netconf_operator.Api.Copies.Deep.Shapes.{plain, copy_strings-IsDeepCopy}
use netconf_operator.Api.Copies.Deep.Objects.{
  IsFaithful, mount_point_spec_shape, object_shape, object-IsDeepCopy,
}
use netconf_operator.Api.Copies.Deep.Lists.{IgnoresItems, list-IsDeepCopy}
use netconf_operator.Api.Copies.Deep.Pointers.{
  IsCopied, deep_copy_by-IsCopied, deep_copy_object_by-same,
}
use netconf_operator.Api.Copies.MountPoint
use netconf_operator.Api.Copies.Lock
use netconf_operator.Api.Copies.Unlock
use netconf_operator.Api.Copies.EditConfig
use netconf_operator.Api.Copies.Commit
use netconf_operator.Api.Copies.Get
use netconf_operator.Api.Copies.GetConfig
use netconf_operator.Api.Copies.Rpc
use netconf_operator.Api.Copies.CreateSubscription
use netconf_operator.Api.Copies.EstablishSubscription
use netconf_operator.Api.Copies.Deep.Kinds.{
  Copied, kind_of, spec_shape, RawOf, shape_of, deep_copy_into, deep_copy, deep_copy_object,
}

module _ (C : Copies) where
  plain-IsDeepCopy : {S : Type 0} (h : Heap S) (s : S) → IsDeepCopy (plain S) h s (s, h)
  plain-IsDeepCopy h s = (Grows-refl h, refl, tt, tt)

  mount_point_spec-IsDeepCopy :
      (h : Heap (RawSpec Kind.mount_point)) (s : RawSpec Kind.mount_point)
      → mount_point_spec_shape.lies h s
      → IsDeepCopy mount_point_spec_shape h s (MountPoint.spec_deep_copy_into s h)
  unfolding MountPoint.spec_deep_copy_into
  mount_point_spec-IsDeepCopy h s l =
      let (grows, same, lies, fresh) = copy_strings-IsDeepCopy h s.additional_capabilities l in
      (grows, ap (λ x. (x, (s.target, s.username, s.password, s.timeout))) same, lies, fresh)

  into-IsDeepCopy :
      IsFaithful C
      → (k : Kind) (h : Heap (RawSpec k)) (o : Raw (RawSpec k))
      → (object_shape (spec_shape k)).lies h o
      → IsDeepCopy (object_shape (spec_shape k)) h o (deep_copy_into C k o h)
  unfolding MountPoint.deep_copy_into Lock.deep_copy_into Unlock.deep_copy_into
      EditConfig.deep_copy_into Commit.deep_copy_into Get.deep_copy_into GetConfig.deep_copy_into
      Rpc.deep_copy_into CreateSubscription.deep_copy_into EstablishSubscription.deep_copy_into
      MountPoint.spec_deep_copy_into
  into-IsDeepCopy faithful Kind.mount_point h o l =
      object-IsDeepCopy C faithful mount_point_spec_shape MountPoint.spec_deep_copy_into h o
        mount_point_spec-IsDeepCopy l
  into-IsDeepCopy faithful Kind.lock h o l =
      object-IsDeepCopy C faithful (plain (RawSpec Kind.lock)) pure h o
        (λ h s _. plain-IsDeepCopy h s) l
  into-IsDeepCopy faithful Kind.unlock h o l =
      object-IsDeepCopy C faithful (plain (RawSpec Kind.unlock)) pure h o
        (λ h s _. plain-IsDeepCopy h s) l
  into-IsDeepCopy faithful Kind.edit_config h o l =
      object-IsDeepCopy C faithful (plain (RawSpec Kind.edit_config)) pure h o
        (λ h s _. plain-IsDeepCopy h s) l
  into-IsDeepCopy faithful Kind.commit h o l =
      object-IsDeepCopy C faithful (plain (RawSpec Kind.commit)) pure h o
        (λ h s _. plain-IsDeepCopy h s) l
  into-IsDeepCopy faithful Kind.get h o l =
      object-IsDeepCopy C faithful (plain (RawSpec Kind.get)) pure h o
        (λ h s _. plain-IsDeepCopy h s) l
  into-IsDeepCopy faithful Kind.get_config h o l =
      object-IsDeepCopy C faithful (plain (RawSpec Kind.get_config)) pure h o
        (λ h s _. plain-IsDeepCopy h s) l
  into-IsDeepCopy faithful Kind.rpc h o l =
      object-IsDeepCopy C faithful (plain (RawSpec Kind.rpc)) pure h o
        (λ h s _. plain-IsDeepCopy h s) l
  into-IsDeepCopy faithful Kind.create_subscription h o l =
      object-IsDeepCopy C faithful (plain (RawSpec Kind.create_subscription)) pure h o
        (λ h s _. plain-IsDeepCopy h s) l
  into-IsDeepCopy faithful Kind.establish_subscription h o l =
      object-IsDeepCopy C faithful (plain (RawSpec Kind.establish_subscription)) pure h o
        (λ h s _. plain-IsDeepCopy h s) l

  ignores : (k : Kind) → IgnoresItems (object_shape (spec_shape k))
  ignores Kind.mount_point = record {
    view = λ h b ys o. refl;
    lies = λ h b ys o l. l;
    fresh = λ n h b ys o f. f;
  }
  ignores Kind.lock = record {
    view = λ h b ys o. refl;
    lies = λ h b ys o l. l;
    fresh = λ n h b ys o f. f;
  }
  ignores Kind.unlock = record {
    view = λ h b ys o. refl;
    lies = λ h b ys o l. l;
    fresh = λ n h b ys o f. f;
  }
  ignores Kind.edit_config = record {
    view = λ h b ys o. refl;
    lies = λ h b ys o l. l;
    fresh = λ n h b ys o f. f;
  }
  ignores Kind.commit = record {
    view = λ h b ys o. refl;
    lies = λ h b ys o l. l;
    fresh = λ n h b ys o f. f;
  }
  ignores Kind.get = record {
    view = λ h b ys o. refl;
    lies = λ h b ys o l. l;
    fresh = λ n h b ys o f. f;
  }
  ignores Kind.get_config = record {
    view = λ h b ys o. refl;
    lies = λ h b ys o l. l;
    fresh = λ n h b ys o f. f;
  }
  ignores Kind.rpc = record {
    view = λ h b ys o. refl;
    lies = λ h b ys o l. l;
    fresh = λ n h b ys o f. f;
  }
  ignores Kind.create_subscription = record {
    view = λ h b ys o. refl;
    lies = λ h b ys o l. l;
    fresh = λ n h b ys o f. f;
  }
  ignores Kind.establish_subscription = record {
    view = λ h b ys o. refl;
    lies = λ h b ys o l. l;
    fresh = λ n h b ys o f. f;
  }

  object-IsCopied :
      IsFaithful C
      → (k : Kind) (h : Heap (RawSpec k)) (store : Address → Raw (RawSpec k)) (p : Address)
      → p < h.next
      → (object_shape (spec_shape k)).lies h (store p)
      → IsCopied
          (object_shape (spec_shape k))
          h
          store
          p
          (deep_copy_by (deep_copy_into C k) (some p) (h, store))
        × (deep_copy_object_by (deep_copy_into C k) (some p) (h, store)
            ≡ deep_copy_by (deep_copy_into C k) (some p) (h, store))
  object-IsCopied faithful k h store p taken l = (
    deep_copy_by-IsCopied (object_shape (spec_shape k)) (deep_copy_into C k)
        (into-IsDeepCopy faithful k) h store p taken l,
    deep_copy_object_by-same (object_shape (spec_shape k)) (deep_copy_into C k) (some p) (h, store),
  )

  list-IsCopied :
      IsFaithful C
      → (k : Kind) (h : Heap (RawSpec k)) (store : Address → RawList) (p : Address) → p < h.next
      → (shape_of (Copied.list k)).lies h (store p)
      → IsCopied
          (shape_of (Copied.list k))
          h
          store
          p
          (deep_copy_by (list_deep_copy_into C (deep_copy_into C k)) (some p) (h, store))
        × (deep_copy_object_by (list_deep_copy_into C (deep_copy_into C k)) (some p) (h, store)
            ≡ deep_copy_by (list_deep_copy_into C (deep_copy_into C k)) (some p) (h, store))
  list-IsCopied faithful k h store p taken l =
      let sh = object_shape (spec_shape k) in
      let into = list_deep_copy_into C (deep_copy_into C k) in
      (
        deep_copy_by-IsCopied (shape_of (Copied.list k)) into
            (list-IsDeepCopy sh C faithful (ignores k) (deep_copy_into C k)
              (into-IsDeepCopy faithful k))
            h store p taken l,
        deep_copy_object_by-same (shape_of (Copied.list k)) into (some p) (h, store),
      )

  -- `DeepCopy` of a resource or a list of any kind, through a pointer that is not nil, returns a new
  -- pointer to a deep copy: it stands for the same value, and its arrays and maps, those of its
  -- metadata included, are all new, so that none is shared with the original, which stays where it is
  -- and stands for what it did. `DeepCopyObject` does the same. It is given that the value to copy lies
  -- in memory, that the copies of `ObjectMeta` and `ListMeta` are deep copies, and that the copy of a
  -- condition gives what it is given.
  pub deep_copy-IsCopied :
      IsFaithful C
      → (c : Copied) (h : Heap (RawSpec (kind_of c))) (store : Address → RawOf c) (p : Address)
      → p < h.next
      → (shape_of c).lies h (store p)
      → IsCopied (shape_of c) h store p (deep_copy C c (some p) (h, store))
        × (deep_copy_object C c (some p) (h, store) ≡ deep_copy C c (some p) (h, store))
  unfolding MountPoint.deep_copy MountPoint.deep_copy_object MountPoint.list_deep_copy
      MountPoint.list_deep_copy_object Lock.deep_copy Lock.deep_copy_object Lock.list_deep_copy
      Lock.list_deep_copy_object Unlock.deep_copy Unlock.deep_copy_object Unlock.list_deep_copy
      Unlock.list_deep_copy_object EditConfig.deep_copy EditConfig.deep_copy_object
      EditConfig.list_deep_copy EditConfig.list_deep_copy_object Commit.deep_copy
      Commit.deep_copy_object Commit.list_deep_copy Commit.list_deep_copy_object Get.deep_copy
      Get.deep_copy_object Get.list_deep_copy Get.list_deep_copy_object GetConfig.deep_copy
      GetConfig.deep_copy_object GetConfig.list_deep_copy GetConfig.list_deep_copy_object
      Rpc.deep_copy Rpc.deep_copy_object Rpc.list_deep_copy Rpc.list_deep_copy_object
      CreateSubscription.deep_copy CreateSubscription.deep_copy_object
      CreateSubscription.list_deep_copy CreateSubscription.list_deep_copy_object
      EstablishSubscription.deep_copy EstablishSubscription.deep_copy_object
      EstablishSubscription.list_deep_copy EstablishSubscription.list_deep_copy_object
  deep_copy-IsCopied faithful (Copied.object Kind.mount_point) h store p taken l =
      object-IsCopied faithful Kind.mount_point h store p taken l
  deep_copy-IsCopied faithful (Copied.object Kind.lock) h store p taken l =
      object-IsCopied faithful Kind.lock h store p taken l
  deep_copy-IsCopied faithful (Copied.object Kind.unlock) h store p taken l =
      object-IsCopied faithful Kind.unlock h store p taken l
  deep_copy-IsCopied faithful (Copied.object Kind.edit_config) h store p taken l =
      object-IsCopied faithful Kind.edit_config h store p taken l
  deep_copy-IsCopied faithful (Copied.object Kind.commit) h store p taken l =
      object-IsCopied faithful Kind.commit h store p taken l
  deep_copy-IsCopied faithful (Copied.object Kind.get) h store p taken l =
      object-IsCopied faithful Kind.get h store p taken l
  deep_copy-IsCopied faithful (Copied.object Kind.get_config) h store p taken l =
      object-IsCopied faithful Kind.get_config h store p taken l
  deep_copy-IsCopied faithful (Copied.object Kind.rpc) h store p taken l =
      object-IsCopied faithful Kind.rpc h store p taken l
  deep_copy-IsCopied faithful (Copied.object Kind.create_subscription) h store p taken l =
      object-IsCopied faithful Kind.create_subscription h store p taken l
  deep_copy-IsCopied faithful (Copied.object Kind.establish_subscription) h store p taken l =
      object-IsCopied faithful Kind.establish_subscription h store p taken l
  deep_copy-IsCopied faithful (Copied.list Kind.mount_point) h store p taken l =
      list-IsCopied faithful Kind.mount_point h store p taken l
  deep_copy-IsCopied faithful (Copied.list Kind.lock) h store p taken l =
      list-IsCopied faithful Kind.lock h store p taken l
  deep_copy-IsCopied faithful (Copied.list Kind.unlock) h store p taken l =
      list-IsCopied faithful Kind.unlock h store p taken l
  deep_copy-IsCopied faithful (Copied.list Kind.edit_config) h store p taken l =
      list-IsCopied faithful Kind.edit_config h store p taken l
  deep_copy-IsCopied faithful (Copied.list Kind.commit) h store p taken l =
      list-IsCopied faithful Kind.commit h store p taken l
  deep_copy-IsCopied faithful (Copied.list Kind.get) h store p taken l =
      list-IsCopied faithful Kind.get h store p taken l
  deep_copy-IsCopied faithful (Copied.list Kind.get_config) h store p taken l =
      list-IsCopied faithful Kind.get_config h store p taken l
  deep_copy-IsCopied faithful (Copied.list Kind.rpc) h store p taken l =
      list-IsCopied faithful Kind.rpc h store p taken l
  deep_copy-IsCopied faithful (Copied.list Kind.create_subscription) h store p taken l =
      list-IsCopied faithful Kind.create_subscription h store p taken l
  deep_copy-IsCopied faithful (Copied.list Kind.establish_subscription) h store p taken l =
      list-IsCopied faithful Kind.establish_subscription h store p taken l
