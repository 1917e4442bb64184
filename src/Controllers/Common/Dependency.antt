-- ===== src/Controllers/Common/Dependency.antt =====
-- `validateDependency` against what it is to find out.
use mathlib.Core.Bool.{false≢true}
use netconf_operator.Base.{
  ◌⊎◌, sym, ap, ◌∙◌, Bool, ◌≡◌, refl, String, Option, none, some, ◌==◌, eq_iff, arith, Bool-cases,
  inl, inr, true, false,
}
use netconf_operator.Api.Meta.{NamespacedName}
use netconf_operator.Api.Common.{DependsOn}
use netconf_operator.Api.Objects.{Kind, Object}
use netconf_operator.Runtime.{Platform, State, Outcome, ok, Error}
use netconf_operator.Controllers.Common.{validate_instance, validate_dependency}

-- The kinds that an operation may depend on, with their names.
abbrev pub IsSupported : Kind → String → Type 0
IsSupported Kind.commit name = name ≡ "Commit"
IsSupported Kind.edit_config name = name ≡ "EditConfig"
IsSupported Kind.lock name = name ≡ "Lock"
IsSupported k name = ⊥

abbrev pub reports_error : Outcome (Option Error) → Bool
reports_error (ok (some e)) = true
reports_error r = false

module _ {W : Type 0} (P : Platform W) where
  abbrev dependency_name : String → DependsOn → NamespacedName
  dependency_name namespace d = record { namespace = namespace; name = d.name }

  -- The dependency, read in this world, is there and has succeeded.
  abbrev pub HasSucceeded : Kind → String → DependsOn → W → Type 0
  HasSucceeded k namespace d w =
      let (err, o) = (P.client_get k (dependency_name namespace d) w).0 in
      (err ≡ none) × (o.status.status ≡ "success")

  abbrev pub IsMet : String → DependsOn → W → Type 0
  IsMet namespace d w = (k : Kind) × IsSupported k d.kind × HasSucceeded k namespace d w

  validate_instance-succeeded :
      (k : Kind) (namespace : String) (d : DependsOn) (s : State W)
      → HasSucceeded k namespace d s.world
      → (validate_instance P k namespace d s).0 ≡ ok none
  unfolding validate_instance
  validate_instance-succeeded k namespace d s (e, h) =
      let o = (P.client_get k (dependency_name namespace d) s.world).0.1 in
      ground (arith, eq_iff o.status.status "success")

  validate_instance-failing :
      (k : Kind) (namespace : String) (d : DependsOn) (s : State W)
      → ¬ HasSucceeded k namespace d s.world
      → reports_error (validate_instance P k namespace d s).0 ≡ true
  unfolding validate_instance
  validate_instance-failing k namespace d s n =
      let (err, o) = (P.client_get k (dependency_name namespace d) s.world).0 in
      ground (arith, eq_iff o.status.status "success")

  validate_dependency-supported :
      (k : Kind) (namespace : String) (d : DependsOn) (s : State W)
      → IsSupported k d.kind
      → validate_dependency P namespace d s ≡ validate_instance P k namespace d s
  unfolding validate_dependency
  validate_dependency-supported Kind.commit namespace d s h = rw (h) refl
  validate_dependency-supported Kind.edit_config namespace d s h = rw (h) refl
  validate_dependency-supported Kind.lock namespace d s h = rw (h) refl
  validate_dependency-supported Kind.mount_point namespace d s h = absurd h
  validate_dependency-supported Kind.unlock namespace d s h = absurd h
  validate_dependency-supported Kind.get namespace d s h = absurd h
  validate_dependency-supported Kind.get_config namespace d s h = absurd h
  validate_dependency-supported Kind.rpc namespace d s h = absurd h
  validate_dependency-supported Kind.create_subscription namespace d s h = absurd h
  validate_dependency-supported Kind.establish_subscription namespace d s h = absurd h

  failing :
      (k : Kind) (namespace : String) (d : DependsOn) (s : State W)
      → IsSupported k d.kind
      → ¬ IsMet namespace d s.world
      → reports_error (validate_dependency P namespace d s).0 ≡ true
  failing k namespace d s named n =
      rw (validate_dependency-supported k namespace d s named)
        (validate_instance-failing k namespace d s (λ h. n (k, named, h)))

  unsupported :
      (namespace : String) (d : DependsOn) (s : State W)
      → (d.kind == "Commit") ≡ false
      → (d.kind == "EditConfig") ≡ false
      → (d.kind == "Lock") ≡ false
      → reports_error (validate_dependency P namespace d s).0 ≡ true
  unfolding validate_dependency
  unsupported namespace d s a b c = ground arith

  pub validate_dependency-by-IsMet :
      (namespace : String) (d : DependsOn) (s : State W)
      → (IsMet namespace d s.world → (validate_dependency P namespace d s).0 ≡ ok none)
        × (¬ IsMet namespace d s.world
            → reports_error (validate_dependency P namespace d s).0 ≡ true)
  validate_dependency-by-IsMet namespace d s = (
    (λ (k, named, h).
        rw (validate_dependency-supported k namespace d s named)
          (validate_instance-succeeded k namespace d s h)),
    λ n. elim (Bool-cases (d.kind == "Commit")) [
      | inl a ↦ failing Kind.commit namespace d s ((eq_iff d.kind "Commit").0 a) n
      | inr a ↦ elim (Bool-cases (d.kind == "EditConfig")) [
        | inl b ↦ failing Kind.edit_config namespace d s ((eq_iff d.kind "EditConfig").0 b) n
        | inr b ↦ elim (Bool-cases (d.kind == "Lock")) [
          | inl c ↦ failing Kind.lock namespace d s ((eq_iff d.kind "Lock").0 c) n
          | inr c ↦ unsupported namespace d s a b c
        ]
      ]
    ],
  )

  succeeded_or_not :
      (k : Kind) (namespace : String) (d : DependsOn) (w : W)
      → HasSucceeded k namespace d w ⊎ (¬ HasSucceeded k namespace d w)
  succeeded_or_not k namespace d w = by_parts (P.client_get k (dependency_name namespace d) w).0
    where
      by_parts :
          (x : Option Error × Object k)
          → ((x.0 ≡ none) × (x.1.status.status ≡ "success"))
            ⊎ (¬ ((x.0 ≡ none) × (x.1.status.status ≡ "success")))
      by_parts (some e, o) = inr (λ (h, _). cc)
      by_parts (none, o) = elim (Bool-cases (o.status.status == "success")) [
        | inl y ↦ inl (refl, (eq_iff o.status.status "success").0 y)
        | inr n ↦ inr (λ (_, h). false≢true (sym n ∙ (eq_iff o.status.status "success").1 h))
      ]

  -- A dependency is met, or it is not.
  IsMet-or_not :
      (namespace : String) (d : DependsOn) (s : State W)
      → IsMet namespace d s.world ⊎ (reports_error (validate_dependency P namespace d s).0 ≡ true)
  IsMet-or_not namespace d s = elim (Bool-cases (d.kind == "Commit")) [
    | inl a ↦ of_kind Kind.commit ((eq_iff d.kind "Commit").0 a)
    | inr a ↦ elim (Bool-cases (d.kind == "EditConfig")) [
      | inl b ↦ of_kind Kind.edit_config ((eq_iff d.kind "EditConfig").0 b)
      | inr b ↦ elim (Bool-cases (d.kind == "Lock")) [
        | inl c ↦ of_kind Kind.lock ((eq_iff d.kind "Lock").0 c)
        | inr c ↦ inr (unsupported namespace d s a b c)
      ]
    ]
  ]
    where
      of_kind :
          (k : Kind)
          → IsSupported k d.kind
          → IsMet namespace d s.world
            ⊎ (reports_error (validate_dependency P namespace d s).0 ≡ true)
      of_kind k named = elim (succeeded_or_not k namespace d s.world) [
        | inl h ↦ inl (k, named, h)
        | inr n ↦ inr (
            rw (validate_dependency-supported k namespace d s named)
              (validate_instance-failing k namespace d s n))
      ]

  -- The check of a dependency always returns. It returns nil, and then the dependency is a `Commit`,
  -- an `EditConfig` or a `Lock` that is found under its name in the namespace with status `success`;
  -- or it returns an error, and then there is no such dependency.
  pub validate_dependency-decides :
      (namespace : String) (d : DependsOn) (s : State W)
      → (IsMet namespace d s.world × ((validate_dependency P namespace d s).0 ≡ ok none))
        ⊎ ((¬ IsMet namespace d s.world)
            × (reports_error (validate_dependency P namespace d s).0 ≡ true))
  validate_dependency-decides namespace d s = elim (IsMet-or_not namespace d s) [
    | inl h ↦ inl (h, (validate_dependency-by-IsMet namespace d s).0 h)
    | inr e ↦ inr (
      λ h.
          false≢true
            (ap reports_error (sym ((validate_dependency-by-IsMet namespace d s).0 h)) ∙ e),
      e,
    )
  ]
