-- ===== src/Api/Copies/Shared.antt =====
-- What the deep copies of all types share (api/v1/zz_generated.deepcopy.go), and the functions of the
-- types that the resources share. The copies of the types of other packages are a parameter.
use netconf_operator.Base.{List, [], ◌∷◌, Option, none, some, suc}
use netconf_operator.Api.Meta.{Condition}
use netconf_operator.Api.Common.{DependsOn, KafkaSink}
use netconf_operator.Api.Copies.Memory.{
  Address, Slice, RawObjectMeta, RawListMeta, RawStatus, Raw, RawList, Heap, Mem, ◌>>=◌, pure,
  write, make_strings, make_conditions, make_empty, fill_items,
}

-- `DeepCopyInto` of `metav1.ObjectMeta` and `metav1.ListMeta`, which take memory of their own, and of
-- `metav1.Condition`, which holds no pointer: what it writes.
pub record Copies : Type 1 where
  pub object_meta : (S : Type 0) → RawObjectMeta → Mem (Heap S) RawObjectMeta
  pub list_meta : (S : Type 0) → RawListMeta → Mem (Heap S) RawListMeta
  pub condition : Condition → Condition

-- The memory, and what the pointers to values of a type `T` point to.
abbrev pub Pointing : Type 0 → Type 0 → Type 0
Pointing S T = Heap S × (Address → T)

module _ {S T : Type 0} where
  -- The nil check, `out := new(T)`, and `in.DeepCopyInto(out)`.
  unfoldable pub deep_copy_by :
      (T → Mem (Heap S) T) → Option Address → Mem (Pointing S T) (Option Address)
  deep_copy_by into none m = (none, m)
  deep_copy_by into (some p) (h, store) =
      let out = h.next in
      let (v, h') = into (store p) (record h { next = suc h.next }) in
      (some out, (h', write out v store))

  unfoldable pub deep_copy_object_by :
      (T → Mem (Heap S) T) → Option Address → Mem (Pointing S T) (Option Address)
  unfolding deep_copy_by
  deep_copy_object_by into p = do
    c ← deep_copy_by into p
    elim c [ some c ↦ pure (some c) | none ↦ pure none ]

module _ {S : Type 0} where
  -- `if in.F != nil { *out = make([]string, len(*in)); copy(*out, *in) }`
  unfoldable pub copy_strings : Slice → Mem (Heap S) Slice
  unfolding make_strings
  copy_strings none h = (none, h)
  copy_strings (some a) h = (make_strings (h.strings a) >>= λ b. pure (some b)) h

  unfoldable pub copy_each :
      (Raw S → Mem (Heap S) (Raw S)) → List (Raw S) → Mem (Heap S) (List (Raw S))
  copy_each into [] = pure []
  copy_each into (x ∷ xs) = do y ← into x; ys ← copy_each into xs; pure (y ∷ ys)

  -- `make`, and then a deep copy into each place of the array.
  unfoldable pub copy_items : (Raw S → Mem (Heap S) (Raw S)) → Slice → Mem (Heap S) Slice
  unfolding copy_each make_empty fill_items
  copy_items into none h = (none, h)
  copy_items into (some a) h =
      (make_empty >>= λ b.
      copy_each into (h.items a) >>= λ xs. fill_items b xs >>= λ _. pure (some b))
        h

module _ (C : Copies) where
  unfoldable pub copy_all : List Condition → List Condition
  copy_all [] = []
  copy_all (c ∷ cs) = C.condition c ∷ copy_all cs

module _ {S : Type 0} where
  unfoldable pub depends_on_deep_copy_into : DependsOn → Mem (Heap S) DependsOn
  depends_on_deep_copy_into i = pure i

  unfoldable pub depends_on_deep_copy : Option Address → Mem (Pointing S DependsOn) (Option Address)
  unfolding deep_copy_by depends_on_deep_copy_into
  depends_on_deep_copy = deep_copy_by depends_on_deep_copy_into

  unfoldable pub kafka_sink_deep_copy_into : KafkaSink → Mem (Heap S) KafkaSink
  kafka_sink_deep_copy_into i = pure i

  unfoldable pub kafka_sink_deep_copy : Option Address → Mem (Pointing S KafkaSink) (Option Address)
  unfolding deep_copy_by kafka_sink_deep_copy_into
  kafka_sink_deep_copy = deep_copy_by kafka_sink_deep_copy_into

module _ (C : Copies) {S : Type 0} where
  unfoldable pub copy_conditions : Slice → Mem (Heap S) Slice
  unfolding make_conditions copy_all
  copy_conditions none h = (none, h)
  copy_conditions (some a) h =
      (make_conditions (copy_all C (h.conditions a)) >>= λ b. pure (some b)) h

  unfoldable pub rpc_status_deep_copy_into : RawStatus → Mem (Heap S) RawStatus
  unfolding copy_conditions copy_strings
  rpc_status_deep_copy_into i = do
    conditions ← copy_conditions i.conditions
    capabilities ← copy_strings i.capabilities
    pure (record i { conditions = conditions; capabilities = capabilities })

  unfoldable pub rpc_status_deep_copy : Option Address → Mem (Pointing S RawStatus) (Option Address)
  unfolding deep_copy_by rpc_status_deep_copy_into
  rpc_status_deep_copy = deep_copy_by rpc_status_deep_copy_into

  -- The `DeepCopyInto` of a resource, over what it does with the spec.
  unfoldable pub object_deep_copy_into : (S → Mem (Heap S) S) → Raw S → Mem (Heap S) (Raw S)
  unfolding rpc_status_deep_copy_into
  object_deep_copy_into copy_spec i = do
    meta ← C.object_meta S i.meta
    spec ← copy_spec i.spec
    status ← rpc_status_deep_copy_into i.status
    pure (record { type_meta = i.type_meta; meta = meta; spec = spec; status = status })

  -- The `DeepCopyInto` of a list, over that of its resources.
  unfoldable pub list_deep_copy_into :
      (Raw S → Mem (Heap S) (Raw S)) → RawList → Mem (Heap S) (RawList)
  unfolding copy_items
  list_deep_copy_into into i = do
    meta ← C.list_meta S i.meta
    items ← copy_items into i.items
    pure (record { type_meta = i.type_meta; meta = meta; items = items })
