-- ===== src/Base/GoMap.antt =====
-- Go's `map[string]V` as an association list: `m[k]` with its presence flag, `m[k] = v` and
-- `delete(m, k)`.
use Prim.Native.String.{String}
use mathlib.Core.Path.{◌≡◌, refl}
use mathlib.Core.Option.{Option, none, some}
use mathlib.Core.List.{List, [], ◌∷◌}
use native.Mathlib.Omega.{arith}
use text.Mathlib.Text.{◌==◌}
use text.Mathlib.TextEquality.{eq_iff}
use mathlib.Core.Logic.{◌≢◌, ◌⊎◌}
use netconf_operator.Base.Cond.{if◌then◌else◌}

abbrev pub GoMap : Type 0 → Type 0
GoMap V = List (String × V)

module _ {V : Type 0} where
  unfoldable pub lookup : String → GoMap V → Option V
  lookup k [] = none
  lookup k ((j, v) ∷ m) = if j == k then some v else lookup k m

  unfoldable pub insert : String → V → GoMap V → GoMap V
  insert k v [] = (k, v) ∷ []
  insert k v ((j, w) ∷ m) = if j == k then (k, v) ∷ m else (j, w) ∷ insert k v m

  -- Every entry of the key goes; a map that `insert` built has at most one.
  unfoldable pub erase : String → GoMap V → GoMap V
  erase k [] = []
  erase k ((j, w) ∷ m) = let rest = erase k m in if j == k then rest else (j, w) ∷ rest

  pub lookup-insert :
      (j k : String) (v : V) (m : GoMap V)
      → lookup j (insert k v m) ≡ (if k == j then some v else lookup j m)
  unfolding lookup insert
  lookup-insert j k v [] = refl
  lookup-insert j k v ((i, w) ∷ m) =
      ground (arith, eq_iff k j, eq_iff i k, eq_iff i j, lookup-insert j k v m)

  pub lookup-erase :
      (j k : String) (m : GoMap V) → lookup j (erase k m) ≡ (if k == j then none else lookup j m)
  unfolding lookup erase
  lookup-erase j k [] = ground arith
  lookup-erase j k ((i, w) ∷ m) =
      ground (arith, eq_iff k j, eq_iff i k, eq_iff i j, lookup-erase j k m)

  pub lookup-insert_other :
      (j k : String) (v : V) (m : GoMap V) → k ≢ j → lookup j (insert k v m) ≡ lookup j m
  lookup-insert_other j k v m ne = ground (arith, lookup-insert j k v m, eq_iff k j)

  pub lookup-erase_other : (j k : String) (m : GoMap V) → k ≢ j → lookup j (erase k m) ≡ lookup j m
  lookup-erase_other j k m ne = ground (arith, lookup-erase j k m, eq_iff k j)

  -- What a map holds after a change it has held before, or the change has put it there.
  pub lookup-erase-some :
      (j k : String) (v : V) (m : GoMap V) → lookup j (erase k m) ≡ some v → lookup j m ≡ some v
  lookup-erase-some j k v m there = ground (arith, lookup-erase j k m)

  pub lookup-insert-some :
      (j k : String) (v w : V) (m : GoMap V)
      → lookup j (insert k v m) ≡ some w
      → ((k ≡ j) × (v ≡ w)) ⊎ (lookup j m ≡ some w)
  lookup-insert-some j k v w m there = ground (arith, lookup-insert j k v m, eq_iff k j)
