-- ===== src/Api/Copies/Deep/Lists.antt =====
-- The copies of the lists of resources.
use netconf_operator.Base.{
  ◌≡◌, refl, sym, ap, subst, ◌∙◌, List, [], ◌∷◌, Option, none, some, suc, arith, ◌<◌, ◌≤◌,
}
use netconf_operator.Api.Copies.Memory.{
  Address, Slice, TypeMeta, Raw, RawList, Heap, Mem, write, write_self, write_other,
}
use netconf_operator.Api.Copies.Shared.{Copies, copy_each, copy_items, list_deep_copy_into}
use netconf_operator.Api.Copies.Deep.{Grows, Grows-refl, Grows-trans, Shape, IsDeepCopy}
use netconf_operator.Api.Copies.Deep.Shapes.{pair, pair-IsDeepCopy, part}
use netconf_operator.Api.Copies.Deep.Objects.{IsFaithful, list_meta_shape}

module _ {S T : Type 0} (sh : Shape S T) where
  abbrev pub view_each : Heap S → List T → List sh.View
  view_each h [] = []
  view_each h (x ∷ xs) = sh.view h x ∷ view_each h xs

  abbrev pub LieAll : Heap S → List T → Type 0
  LieAll h [] = Unit
  LieAll h (x ∷ xs) = sh.lies h x × LieAll h xs

  abbrev pub AreFresh : Address → Heap S → List T → Type 0
  AreFresh n h [] = Unit
  AreFresh n h (x ∷ xs) = sh.fresh n h x × AreFresh n h xs

  pub view_each-Grows :
      (h h' : Heap S) (xs : List T) → Grows h h' → LieAll h xs → view_each h' xs ≡ view_each h xs
  view_each-Grows h h' [] g l = refl
  view_each-Grows h h' (x ∷ xs) g (l, ls) =
      rw (sh.view-Grows h h' x g l, view_each-Grows h h' xs g ls) refl

  pub LieAll-Grows : (h h' : Heap S) (xs : List T) → Grows h h' → LieAll h xs → LieAll h' xs
  LieAll-Grows h h' [] g l = tt
  LieAll-Grows h h' (x ∷ xs) g (l, ls) = (sh.lies-Grows h h' x g l, LieAll-Grows h h' xs g ls)

  pub AreFresh-Grows :
      (n : Address) (h h' : Heap S) (xs : List T)
      → Grows h h'
      → LieAll h xs
      → AreFresh n h xs
      → AreFresh n h' xs
  AreFresh-Grows n h h' [] g l f = tt
  AreFresh-Grows n h h' (x ∷ xs) g (l, ls) (f, fs) =
      (sh.fresh-Grows n h h' x g l f, AreFresh-Grows n h h' xs g ls fs)

  pub AreFresh-weaken :
      (n m : Address) (h : Heap S) (xs : List T) → n ≤ m → AreFresh m h xs → AreFresh n h xs
  AreFresh-weaken n m h [] le f = tt
  AreFresh-weaken n m h (x ∷ xs) le (f, fs) =
      (sh.fresh-weaken n m h x le f, AreFresh-weaken n m h xs le fs)

  abbrev pub each : Shape S (List T)
  each = record {
    View = List sh.View;
    view = view_each;
    lies = LieAll;
    fresh = AreFresh;
    view-Grows = view_each-Grows;
    lies-Grows = LieAll-Grows;
    fresh-Grows = AreFresh-Grows;
    fresh-weaken = AreFresh-weaken;
  }

module _ {S : Type 0} (sh : Shape S (Raw S)) where
  copy_each-IsDeepCopy :
      (into : Raw S → Mem (Heap S) (Raw S))
      → ((h : Heap S) (o : Raw S) → sh.lies h o → IsDeepCopy sh h o (into o h))
      → (h : Heap S) (xs : List (Raw S)) → LieAll sh h xs
      → IsDeepCopy (each sh) h xs (copy_each into xs h)
  unfolding copy_each
  copy_each-IsDeepCopy into deep h [] l = (Grows-refl h, refl, tt, tt)
  copy_each-IsDeepCopy into deep h (x ∷ xs) l =
      let (grows, same, lies, fresh) =
        pair-IsDeepCopy sh (each sh) into (copy_each into) h x xs l (deep h x l.0)
          (copy_each-IsDeepCopy into deep (into x h).1 xs) in
      (grows, ap (λ p. p.0 ∷ p.1) same, lies, fresh)

  -- The slice of the resources of a list.
  abbrev pub view_items : Heap S → Slice → Option (List sh.View)
  view_items h none = none
  view_items h (some a) = some (view_each sh h (h.items a))

  abbrev pub LieIn : Heap S → Slice → Type 0
  LieIn h none = Unit
  LieIn h (some a) = (a < h.next) × LieAll sh h (h.items a)

  abbrev pub IsFresh : Address → Heap S → Slice → Type 0
  IsFresh n h none = Unit
  IsFresh n h (some a) = (n ≤ a) × AreFresh sh n h (h.items a)

  pub view_items-Grows :
      (h h' : Heap S) (s : Slice) → Grows h h' → LieIn h s → view_items h' s ≡ view_items h s
  view_items-Grows h h' none g l = refl
  view_items-Grows h h' (some a) g (taken, l) =
      rw (g.items a taken) (ap some (view_each-Grows sh h h' (h.items a) g l))

  pub LieIn-Grows : (h h' : Heap S) (s : Slice) → Grows h h' → LieIn h s → LieIn h' s
  LieIn-Grows h h' none g l = tt
  LieIn-Grows h h' (some a) g (taken, l) =
      (ground (arith, g.more), rw (g.items a taken) (LieAll-Grows sh h h' (h.items a) g l))

  pub IsFresh-Grows :
      (n : Address) (h h' : Heap S) (s : Slice)
      → Grows h h'
      → LieIn h s
      → IsFresh n h s
      → IsFresh n h' s
  IsFresh-Grows n h h' none g l f = tt
  IsFresh-Grows n h h' (some a) g (taken, l) (le, f) =
      (le, rw (g.items a taken) (AreFresh-Grows sh n h h' (h.items a) g l f))

  pub IsFresh-weaken :
      (n m : Address) (h : Heap S) (s : Slice) → n ≤ m → IsFresh m h s → IsFresh n h s
  IsFresh-weaken n m h none le f = tt
  IsFresh-weaken n m h (some a) le (le', f) =
      (ground arith, AreFresh-weaken sh n m h (h.items a) le f)

  abbrev pub items_shape : Shape S Slice
  items_shape = record {
    View = Option (List sh.View);
    view = view_items;
    lies = LieIn;
    fresh = IsFresh;
    view-Grows = view_items-Grows;
    lies-Grows = LieIn-Grows;
    fresh-Grows = IsFresh-Grows;
    fresh-weaken = IsFresh-weaken;
  }

  -- A resource is looked at without the arrays of resources.
  abbrev with_items : Heap S → Address → List (Raw S) → Heap S
  with_items h b ys = record h { items = write b ys h.items }

  pub record IgnoresItems : Type 0 where
    pub view :
        (h : Heap S) (b : Address) (ys : List (Raw S)) (o : Raw S)
        → sh.view (record h { items = write b ys h.items }) o ≡ sh.view h o
    pub lies :
        (h : Heap S) (b : Address) (ys : List (Raw S)) (o : Raw S)
        → sh.lies h o
        → sh.lies (record h { items = write b ys h.items }) o
    pub fresh :
        (n : Address) (h : Heap S) (b : Address) (ys : List (Raw S)) (o : Raw S)
        → sh.fresh n h o
        → sh.fresh n (record h { items = write b ys h.items }) o

  module _ (ignores : IgnoresItems) (h : Heap S) (b : Address) (ys : List (Raw S)) where
    filled-view : (xs : List (Raw S)) → view_each sh (with_items h b ys) xs ≡ view_each sh h xs
    filled-view [] = refl
    filled-view (x ∷ xs) = rw (ignores.view h b ys x, filled-view xs) refl

    filled-LieAll : (xs : List (Raw S)) → LieAll sh h xs → LieAll sh (with_items h b ys) xs
    filled-LieAll [] l = tt
    filled-LieAll (x ∷ xs) (l, ls) = (ignores.lies h b ys x l, filled-LieAll xs ls)

    filled-AreFresh :
        (n : Address) (xs : List (Raw S))
        → AreFresh sh n h xs
        → AreFresh sh n (with_items h b ys) xs
    filled-AreFresh n [] f = tt
    filled-AreFresh n (x ∷ xs) (f, fs) = (ignores.fresh n h b ys x f, filled-AreFresh n xs fs)

  pub copy_items-IsDeepCopy :
      IgnoresItems
      → (into : Raw S → Mem (Heap S) (Raw S))
      → ((h : Heap S) (o : Raw S) → sh.lies h o → IsDeepCopy sh h o (into o h))
      → (h : Heap S) (s : Slice) → LieIn h s
      → IsDeepCopy items_shape h s (copy_items into s h)
  unfolding copy_items
  copy_items-IsDeepCopy ignores into deep h none l = (Grows-refl h, refl, tt, tt)
  copy_items-IsDeepCopy ignores into deep h (some a) (taken, l) =
      let b = h.next in
      let h₁ : Heap S = record h { next = suc h.next } in
      let first : Grows h h₁ = record {
        more = ground arith;
        strings = λ a l. refl;
        conditions = λ a l. refl;
        items = λ a l. refl;
        maps = λ a l. refl;
        numbers = λ a l. refl;
      } in
      let (grows, same, lies, fresh) =
        copy_each-IsDeepCopy into deep h₁ (h.items a) (LieAll-Grows sh h h₁ (h.items a) first l) in
      let ys = (copy_each into (h.items a) h₁).0 in
      let h₂ = (copy_each into (h.items a) h₁).1 in
      let both = Grows-trans h h₁ h₂ first grows in
      let put : write b ys h₂.items b ≡ ys = write_self b ys h₂.items in
      (
        record {
          more = both.more;
          strings = both.strings;
          conditions = both.conditions;
          items = λ c l. write_other b c ys h₂.items (λ e. ground (arith, e, l)) ∙ both.items c l;
          maps = both.maps;
          numbers = both.numbers;
        },
        ap (λ xs. some (view_each sh (with_items h₂ b ys) xs)) put
            ∙ ap some (
                filled-view ignores h₂ b ys ys
                ∙ same
                ∙ view_each-Grows sh h h₁ (h.items a) first l),
        (
          ground (arith, grows.more),
          subst (LieAll sh (with_items h₂ b ys)) (sym put) (filled-LieAll ignores h₂ b ys ys lies),
        ),
        (
          ground arith,
          subst (AreFresh sh b (with_items h₂ b ys)) (sym put) (
              filled-AreFresh ignores h₂ b ys b ys
                (AreFresh-weaken sh b h₁.next h₂ ys (ground arith) fresh)),
        ),
      )

  abbrev pub list_shape : Shape S RawList
  list_shape =
      part {R = TypeMeta} (pair list_meta_shape items_shape) (λ l. (l.meta, l.items))
        (λ l. l.type_meta)

  pub list-IsDeepCopy :
      (C : Copies)
      → IsFaithful C
      → IgnoresItems
      → (into : Raw S → Mem (Heap S) (Raw S))
      → ((h : Heap S) (o : Raw S) → sh.lies h o → IsDeepCopy sh h o (into o h))
      → (h : Heap S) (l : RawList) → list_shape.lies h l
      → IsDeepCopy list_shape h l (list_deep_copy_into C into l h)
  unfolding list_deep_copy_into
  list-IsDeepCopy C faithful ignores into deep h l lie =
      let (grows, same, lies, fresh) =
        pair-IsDeepCopy list_meta_shape items_shape (C.list_meta S) (copy_items into) h l.meta
          l.items lie (faithful.list_meta S h l.meta lie.0)
          (copy_items-IsDeepCopy ignores into deep (C.list_meta S l.meta h).1 l.items) in
      (grows, ap (λ x. (x, l.type_meta)) same, lies, fresh)
