-- ===== src/Api/Copies/Deep/Pointers.antt =====
-- `DeepCopy` behind a pointer.
use netconf_operator.Base.{◌≡◌, refl, sym, ap, subst, ◌∙◌, Option, none, some, suc, arith, ◌<◌, ◌≤◌}
use netconf_operator.Api.Copies.Memory.{Address, Heap, Mem, write, write_self, write_other}
use netconf_operator.Api.Copies.Shared.{Pointing, deep_copy_by, deep_copy_object_by}
use netconf_operator.Api.Copies.Deep.{Grows, Grows-trans, Shape, IsDeepCopy}

module _ {S T : Type 0} (sh : Shape S T) where
  -- A copy of what `p` points to: a new pointer, to a deep copy, while `p` points to what it did,
  -- and that stands for the same value as before.
  abbrev pub IsCopied : Heap S → (Address → T) → Address → Option Address × Pointing S T → Type 0
  IsCopied h store p (out, (h', store')) =
      (c : Address) × (out ≡ some c)
      × (h.next ≤ c)
      × IsDeepCopy sh h (store p) (store' c, h')
      × (store' p ≡ store p)
      × (sh.view h' (store p) ≡ sh.view h (store p))

  pub deep_copy_by-IsCopied :
      (into : T → Mem (Heap S) T)
      → ((h : Heap S) (t : T) → sh.lies h t → IsDeepCopy sh h t (into t h))
      → (h : Heap S) (store : Address → T) (p : Address) → p < h.next
      → sh.lies h (store p)
      → IsCopied h store p (deep_copy_by into (some p) (h, store))
  unfolding deep_copy_by
  deep_copy_by-IsCopied into deep h store p taken l =
      let t = store p in
      let h₁ : Heap S = record h { next = suc h.next } in
      let first : Grows h h₁ = record {
        more = ground arith;
        strings = λ a l. refl;
        conditions = λ a l. refl;
        items = λ a l. refl;
        maps = λ a l. refl;
        numbers = λ a l. refl;
      } in
      let (grows, same, lies, fresh) = deep h₁ t (sh.lies-Grows h h₁ t first l) in
      let v = (into t h₁).0 in
      let h₂ = (into t h₁).1 in
      let put : write h.next v store h.next ≡ v = write_self h.next v store in
      let both = Grows-trans h h₁ h₂ first grows in
      (
        h.next,
        refl,
        ground arith,
        (
          both,
          ap (sh.view h₂) put ∙ same ∙ sh.view-Grows h h₁ t first l,
          subst (sh.lies h₂) (sym put) lies,
          subst (sh.fresh h.next h₂) (sym put)
              (sh.fresh-weaken h.next h₁.next h₂ v (ground arith) fresh),
        ),
        write_other h.next p v store (λ e. ground (arith, e, taken)),
        sh.view-Grows h h₂ t both l,
      )

  -- `DeepCopyObject` is `DeepCopy`.
  pub deep_copy_object_by-same :
      (into : T → Mem (Heap S) T) (p : Option Address) (m : Pointing S T)
      → deep_copy_object_by into p m ≡ deep_copy_by into p m
  unfolding deep_copy_object_by deep_copy_by
  deep_copy_object_by-same into none m = refl
  deep_copy_object_by-same into (some p) m = refl
