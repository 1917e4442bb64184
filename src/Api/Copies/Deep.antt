-- ===== src/Api/Copies/Deep.antt =====
-- What a deep copy is (api/v1/zz_generated.deepcopy.go), and how it follows the shape of a type.
pub mod Shapes
pub mod Objects
pub mod Lists
pub mod Pointers
pub mod Kinds
pub mod Whole
use netconf_operator.Base.{◌≡◌, refl, ◌∙◌, String, List, arith, ◌<◌, ◌≤◌}
use netconf_operator.Api.Meta.{Condition}
use netconf_operator.Api.Copies.Memory.{Address, Heap, write_other, make_strings, make_conditions}

-- From `h` to `h'` addresses have been taken, and the arrays of `h` are as they were.
pub record Grows {S : Type 0} (h h' : Heap S) : Type 0 where
  pub more : h.next ≤ h'.next
  pub strings : (a : Address) → a < h.next → h'.strings a ≡ h.strings a
  pub conditions : (a : Address) → a < h.next → h'.conditions a ≡ h.conditions a
  pub items : (a : Address) → a < h.next → h'.items a ≡ h.items a
  pub maps : (a : Address) → a < h.next → h'.maps a ≡ h.maps a
  pub numbers : (a : Address) → a < h.next → h'.numbers a ≡ h.numbers a

module _ {S : Type 0} where
  pub Grows-refl : (h : Heap S) → Grows h h
  Grows-refl h = record {
    more = ground arith;
    strings = λ a l. refl;
    conditions = λ a l. refl;
    items = λ a l. refl;
    maps = λ a l. refl;
    numbers = λ a l. refl;
  }

  pub Grows-trans : (h h' h'' : Heap S) → Grows h h' → Grows h' h'' → Grows h h''
  Grows-trans h h' h'' g g' = record {
    more = ground (arith, g.more, g'.more);
    strings = λ a l. g'.strings a (ground (arith, g.more)) ∙ g.strings a l;
    conditions = λ a l. g'.conditions a (ground (arith, g.more)) ∙ g.conditions a l;
    items = λ a l. g'.items a (ground (arith, g.more)) ∙ g.items a l;
    maps = λ a l. g'.maps a (ground (arith, g.more)) ∙ g.maps a l;
    numbers = λ a l. g'.numbers a (ground (arith, g.more)) ∙ g.numbers a l;
  }

  pub make_strings-Grows : (xs : List String) (h : Heap S) → Grows h (make_strings xs h).1
  unfolding make_strings
  make_strings-Grows xs h = record {
    more = ground arith;
    strings = λ a l. write_other h.next a xs h.strings (λ e. ground (arith, e, l));
    conditions = λ a l. refl;
    items = λ a l. refl;
    maps = λ a l. refl;
    numbers = λ a l. refl;
  }

  pub make_conditions-Grows : (xs : List Condition) (h : Heap S) → Grows h (make_conditions xs h).1
  unfolding make_conditions
  make_conditions-Grows xs h = record {
    more = ground arith;
    strings = λ a l. refl;
    conditions = λ a l. write_other h.next a xs h.conditions (λ e. ground (arith, e, l));
    items = λ a l. refl;
    maps = λ a l. refl;
    numbers = λ a l. refl;
  }

-- How a type lies in memory: what a value stands for, that its addresses are taken, and that they
-- are not below an address.
pub record Shape (S T : Type 0) : Type 1 where
  pub View : Type 0
  pub view : Heap S → T → View
  pub lies : Heap S → T → Type 0
  pub fresh : Address → Heap S → T → Type 0
  pub view-Grows : (h h' : Heap S) (t : T) → Grows h h' → lies h t → view h' t ≡ view h t
  pub lies-Grows : (h h' : Heap S) (t : T) → Grows h h' → lies h t → lies h' t
  pub fresh-Grows :
      (n : Address) (h h' : Heap S) (t : T) → Grows h h' → lies h t → fresh n h t → fresh n h' t
  pub fresh-weaken : (n m : Address) (h : Heap S) (t : T) → n ≤ m → fresh m h t → fresh n h t

-- The copy of `t` in the heap `h`: the heap only grows, the copy stands for the same value, its
-- addresses are taken, and they are all new.
abbrev pub IsDeepCopy : {S T : Type 0} → Shape S T → Heap S → T → T × Heap S → Type 0
IsDeepCopy sh h t (t', h') =
    Grows h h' × (sh.view h' t' ≡ sh.view h t) × sh.lies h' t' × sh.fresh h.next h' t'
