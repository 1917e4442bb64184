-- ===== src/Api/Copies/Memory.antt =====
-- Memory as the deep copies see it: a slice is nil or the address of its array, a map nil or its
-- address, and an object is behind a pointer. Each type has its own cells, over one counter of addresses.
use native.Mathlib.Decide.{ℕ_discrete}
use netconf_operator.Base.{◌≡◌, ◌≢◌, refl, String, List, Option, ℕ, suc, ℤ}
use netconf_operator.Api.Meta.{Condition}
use netconf_operator.Api.Objects.{Kind, Spec}

abbrev pub Address : Type 0
Address = ℕ

abbrev pub Slice : Type 0
Slice = Option Address

-- `metav1.TypeMeta`
pub record TypeMeta : Type 0 where
  pub kind : String
  pub api_version : String

-- `RPCStatus` in memory.
pub record RawStatus : Type 0 where
  pub conditions : Slice
  pub status : String
  pub rpc_reply : String
  pub capabilities : Slice
  pub subscription_id : String

-- `MountPointSpec` in memory; the other specs hold no pointer.
pub record RawMountPointSpec : Type 0 where
  pub target : String
  pub username : String
  pub password : String
  pub timeout : ℤ
  pub additional_capabilities : Slice

abbrev pub RawSpec : Kind → Type 0
RawSpec Kind.mount_point = RawMountPointSpec
RawSpec k = Spec k

-- `metav1.ObjectMeta` in memory: what the controllers and the finalizer helpers go by, and the labels
-- and annotations, which are maps.
pub record RawObjectMeta : Type 0 where
  pub namespace : String
  pub name : String
  pub labels : Slice
  pub annotations : Slice
  pub finalizers : Slice
  pub deletion_timestamp : Option ℕ

-- `metav1.ListMeta` in memory. The count is behind a pointer.
pub record RawListMeta : Type 0 where
  pub resource_version : String
  pub continue_token : String
  pub remaining_item_count : Slice

-- A resource, and a list of resources.
pub record Raw (S : Type 0) : Type 0 where
  pub type_meta : TypeMeta
  pub meta : RawObjectMeta
  pub spec : S
  pub status : RawStatus

pub record RawList : Type 0 where
  pub type_meta : TypeMeta
  pub meta : RawListMeta
  pub items : Slice

-- The arrays of the slices, the maps, and the numbers behind pointers. `next` is the first address that is free.
pub record Heap (S : Type 0) : Type 0 where
  pub next : Address
  pub strings : Address → List String
  pub conditions : Address → List Condition
  pub items : Address → List (Raw S)
  pub maps : Address → List (String × String)
  pub numbers : Address → ℤ

abbrev pub Mem : Type 0 → Type 0 → Type 0
Mem H A = H → A × H

infixl 5 ◌>>=◌
abbrev pub ◌>>=◌ : {H A B : Type 0} → Mem H A → (A → Mem H B) → Mem H B
◌>>=◌ m f h = let (a, h') = m h in f a h'

abbrev pub pure : {H A : Type 0} → A → Mem H A
pure a h = (a, h)

abbrev choose : {A : Type 0} {V : Type 0} → Dec A → V → V → V
choose (yes a) v w = v
choose (no n) v w = w

choose-yes : {A V : Type 0} (d : Dec A) (v w : V) → A → choose d v w ≡ v
choose-yes (yes a) v w h = refl
choose-yes (no n) v w h = absurd (n h)

choose-no : {A V : Type 0} (d : Dec A) (v w : V) → (A → ⊥) → choose d v w ≡ w
choose-no (yes a) v w h = absurd (h a)
choose-no (no n) v w h = refl

unfoldable pub write : {V : Type 0} → Address → V → (Address → V) → Address → V
write a v f b = choose (ℕ_discrete a b) v (f b)

pub write_self : {V : Type 0} (a : Address) (v : V) (f : Address → V) → write a v f a ≡ v
unfolding write
write_self a v f = choose-yes (ℕ_discrete a a) v (f a) refl

pub write_other :
    {V : Type 0} (a b : Address) (v : V) (f : Address → V) → a ≢ b → write a v f b ≡ f b
unfolding write
write_other a b v f ne = choose-no (ℕ_discrete a b) v (f b) ne

-- `make` and what is put into the array.
module _ {S : Type 0} where
  unfoldable pub make_strings : List String → Mem (Heap S) Address
  make_strings xs h = (h.next, record h { next = suc h.next; strings = write h.next xs h.strings })

  unfoldable pub make_conditions : List Condition → Mem (Heap S) Address
  make_conditions xs h =
      (h.next, record h { next = suc h.next; conditions = write h.next xs h.conditions })

  -- `make` of an array that is filled later.
  unfoldable pub make_empty : Mem (Heap S) Address
  make_empty h = (h.next, record h { next = suc h.next })

  unfoldable pub fill_items : Address → List (Raw S) → Mem (Heap S) (Unit {0})
  fill_items a xs h = (tt, record h { items = write a xs h.items })
