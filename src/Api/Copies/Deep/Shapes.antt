-- ===== src/Api/Copies/Deep/Shapes.antt =====
-- The shapes of the types, and the copies of their parts.
use netconf_operator.Base.{
  ◌≡◌, refl, ap, ◌∙◌, String, List, [], ◌∷◌, Option, none, some, arith, ◌<◌, ◌≤◌, ℤ,
}
use netconf_operator.Api.Meta.{Condition}
use netconf_operator.Api.Copies.Memory.{Address, Slice, Heap, Mem, write_self, pure, ◌>>=◌}
use netconf_operator.Api.Copies.Shared.{Copies, copy_strings, copy_conditions, copy_all}
use netconf_operator.Api.Copies.Deep.{
  Grows-refl, Grows-trans, make_strings-Grows, make_conditions-Grows, Shape, IsDeepCopy,
}

abbrev pub sees : {A : Type 0} → (Address → A) → Slice → Option A
sees cells none = none
sees cells (some a) = some (cells a)

abbrev pub IsBelow : Address → Slice → Type 0
IsBelow n none = Unit
IsBelow n (some a) = a < n

abbrev pub IsFrom : Address → Slice → Type 0
IsFrom n none = Unit
IsFrom n (some a) = n ≤ a

pub sees-same :
    {A : Type 0} (f g : Address → A) (n : Address) (s : Slice)
    → ((a : Address) → a < n → g a ≡ f a)
    → IsBelow n s
    → sees g s ≡ sees f s
sees-same f g n none same l = refl
sees-same f g n (some a) same l = ap some (same a l)

pub IsBelow-weaken : (n m : Address) (s : Slice) → n ≤ m → IsBelow n s → IsBelow m s
IsBelow-weaken n m none le l = tt
IsBelow-weaken n m (some a) le l = ground arith

pub IsFrom-weaken : (n m : Address) (s : Slice) → n ≤ m → IsFrom m s → IsFrom n s
IsFrom-weaken n m none le l = tt
IsFrom-weaken n m (some a) le l = ground arith

copy_all-same :
    (C : Copies)
    → ((c : Condition) → C.condition c ≡ c)
    → (cs : List Condition) → copy_all C cs ≡ cs
unfolding copy_all
copy_all-same C same [] = refl
copy_all-same C same (c ∷ cs) = rw (same c, copy_all-same C same cs) refl

module _ {S : Type 0} where
  -- A type without pointers.
  abbrev pub plain : (T : Type 0) → Shape S T
  plain T = record {
    View = T;
    view = λ h t. t;
    lies = λ h t. Unit;
    fresh = λ n h t. Unit;
    view-Grows = λ h h' t g l. refl;
    lies-Grows = λ h h' t g l. tt;
    fresh-Grows = λ n h h' t g l f. tt;
    fresh-weaken = λ n m h t le f. tt;
  }

  -- A slice of strings, and one of conditions.
  abbrev pub strings_shape : Shape S Slice
  strings_shape = record {
    View = Option (List String);
    view = λ h s. sees h.strings s;
    lies = λ h s. IsBelow h.next s;
    fresh = λ n h s. IsFrom n s;
    view-Grows = λ h h' s g l. sees-same h.strings h'.strings h.next s g.strings l;
    lies-Grows = λ h h' s g l. IsBelow-weaken h.next h'.next s g.more l;
    fresh-Grows = λ n h h' s g l f. f;
    fresh-weaken = λ n m h s le f. IsFrom-weaken n m s le f;
  }

  abbrev pub conditions_shape : Shape S Slice
  conditions_shape = record {
    View = Option (List Condition);
    view = λ h s. sees h.conditions s;
    lies = λ h s. IsBelow h.next s;
    fresh = λ n h s. IsFrom n s;
    view-Grows = λ h h' s g l. sees-same h.conditions h'.conditions h.next s g.conditions l;
    lies-Grows = λ h h' s g l. IsBelow-weaken h.next h'.next s g.more l;
    fresh-Grows = λ n h h' s g l f. f;
    fresh-weaken = λ n m h s le f. IsFrom-weaken n m s le f;
  }

  -- A map of strings, and a number behind a pointer.
  abbrev pub maps_shape : Shape S Slice
  maps_shape = record {
    View = Option (List (String × String));
    view = λ h s. sees h.maps s;
    lies = λ h s. IsBelow h.next s;
    fresh = λ n h s. IsFrom n s;
    view-Grows = λ h h' s g l. sees-same h.maps h'.maps h.next s g.maps l;
    lies-Grows = λ h h' s g l. IsBelow-weaken h.next h'.next s g.more l;
    fresh-Grows = λ n h h' s g l f. f;
    fresh-weaken = λ n m h s le f. IsFrom-weaken n m s le f;
  }

  abbrev pub numbers_shape : Shape S Slice
  numbers_shape = record {
    View = Option ℤ;
    view = λ h s. sees h.numbers s;
    lies = λ h s. IsBelow h.next s;
    fresh = λ n h s. IsFrom n s;
    view-Grows = λ h h' s g l. sees-same h.numbers h'.numbers h.next s g.numbers l;
    lies-Grows = λ h h' s g l. IsBelow-weaken h.next h'.next s g.more l;
    fresh-Grows = λ n h h' s g l f. f;
    fresh-weaken = λ n m h s le f. IsFrom-weaken n m s le f;
  }

  pub copy_strings-IsDeepCopy :
      (h : Heap S) (s : Slice)
      → strings_shape.lies h s
      → IsDeepCopy strings_shape h s (copy_strings s h)
  unfolding copy_strings
  copy_strings-IsDeepCopy h none l = (Grows-refl h, refl, tt, tt)
  copy_strings-IsDeepCopy h (some a) l = (
    make_strings-Grows (h.strings a) h,
    ap some (write_self h.next (h.strings a) h.strings),
    ground arith,
    ground arith,
  )

  pub copy_conditions-IsDeepCopy :
      (C : Copies)
      → ((c : Condition) → C.condition c ≡ c)
      → (h : Heap S) (s : Slice) → conditions_shape.lies h s
      → IsDeepCopy conditions_shape h s (copy_conditions C s h)
  unfolding copy_conditions
  copy_conditions-IsDeepCopy C same h none l = (Grows-refl h, refl, tt, tt)
  copy_conditions-IsDeepCopy C same h (some a) l = (
    make_conditions-Grows (copy_all C (h.conditions a)) h,
    ap some (
        write_self h.next (copy_all C (h.conditions a)) h.conditions
        ∙ copy_all-same C same (h.conditions a)),
    ground arith,
    ground arith,
  )

  -- Two parts, of which the second is copied after the first.
  abbrev pub pair : {A B : Type 0} → Shape S A → Shape S B → Shape S (A × B)
  pair f g = record {
    View = f.View × g.View;
    view = λ h t. (f.view h t.0, g.view h t.1);
    lies = λ h t. f.lies h t.0 × g.lies h t.1;
    fresh = λ n h t. f.fresh n h t.0 × g.fresh n h t.1;
    view-Grows = λ h h' t w l.
        ap (λ x. (x, g.view h' t.1)) (f.view-Grows h h' t.0 w l.0)
        ∙ ap (λ y. (f.view h t.0, y)) (g.view-Grows h h' t.1 w l.1);
    lies-Grows = λ h h' t w l. (f.lies-Grows h h' t.0 w l.0, g.lies-Grows h h' t.1 w l.1);
    fresh-Grows =
        λ n h h' t w l x. (f.fresh-Grows n h h' t.0 w l.0 x.0, g.fresh-Grows n h h' t.1 w l.1 x.1);
    fresh-weaken =
        λ n m h t le x. (f.fresh-weaken n m h t.0 le x.0, g.fresh-weaken n m h t.1 le x.1);
  }

  pub pair-IsDeepCopy :
      {A B : Type 0} (f : Shape S A) (g : Shape S B) (copy_a : A → Mem (Heap S) A)
      (copy_b : B → Mem (Heap S) B) (h : Heap S) (a : A) (b : B)
      → (pair f g).lies h (a, b)
      → IsDeepCopy f h a (copy_a a h)
      → (g.lies (copy_a a h).1 b → IsDeepCopy g (copy_a a h).1 b (copy_b b (copy_a a h).1))
      → IsDeepCopy (pair f g) h (a, b) ((copy_a a >>= λ a'. copy_b b >>= λ b'. pure (a', b')) h)
  pair-IsDeepCopy f g copy_a copy_b h a b (la, lb) (grows, same, lies, fresh) next =
      let h₁ = (copy_a a h).1 in
      let (grows', same', lies', fresh') = next (g.lies-Grows h h₁ b grows lb) in
      let h₂ = (copy_b b h₁).1 in
      (
        Grows-trans h h₁ h₂ grows grows',
        ap (λ x. (x, g.view h₂ (copy_b b h₁).0)) (f.view-Grows h₁ h₂ _ grows' lies ∙ same)
            ∙ ap (λ y. (f.view h a, y)) (same' ∙ g.view-Grows h h₁ b grows lb),
        (f.lies-Grows h₁ h₂ _ grows' lies, lies'),
        (
          f.fresh-Grows h.next h₁ h₂ _ grows' lies fresh,
          g.fresh-weaken h.next h₁.next h₂ _ grows.more fresh',
        ),
      )

  -- A type with a part that lies in memory, and the rest, which does not.
  abbrev pub part : {A T R : Type 0} → Shape S A → (T → A) → (T → R) → Shape S T
  part {R} f get rest = record {
    View = f.View × R;
    view = λ h t. (f.view h (get t), rest t);
    lies = λ h t. f.lies h (get t);
    fresh = λ n h t. f.fresh n h (get t);
    view-Grows = λ h h' t w l. ap (λ x. (x, rest t)) (f.view-Grows h h' (get t) w l);
    lies-Grows = λ h h' t w l. f.lies-Grows h h' (get t) w l;
    fresh-Grows = λ n h h' t w l x. f.fresh-Grows n h h' (get t) w l x;
    fresh-weaken = λ n m h t le x. f.fresh-weaken n m h (get t) le x;
  }
