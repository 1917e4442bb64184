-- ===== src/Base/Rune.antt =====
-- Go's `string(rune(n))` for an `int` n: the text of one character, or U+FFFD where the 32-bit
-- number is no character.
use Prim.Native.Nat.{ℕ, ◌-◌, ◌%◌, ◌^◌, compare, Ordering}
use Prim.Native.Char.{char, IsLt}
use Prim.Native.String.{String}
use mathlib.Core.Option.{Option, none, some}
use netconf_operator.Base.Cond.{if◌then◌else◌}
use netconf_operator.Base.Duration.{ℤ, pos, negsuc, ltb}

-- The library's definition of a scalar value, over the three comparisons that it makes.
abbrev BothLt : Ordering → Ordering → Type 0
BothLt Ordering.lt o = IsLt o
BothLt Ordering.eq _ = ⊥
BothLt Ordering.gt _ = ⊥

abbrev IsScalar : Ordering → Ordering → Ordering → Type 0
IsScalar Ordering.lt _ _ = Unit
IsScalar Ordering.eq o p = BothLt o p
IsScalar Ordering.gt o p = BothLt o p

decide_both : (o p : Ordering) → Option (BothLt o p)
decide_both Ordering.lt Ordering.lt = some tt
decide_both Ordering.lt _ = none
decide_both _ _ = none

decide_scalar : (a b c : Ordering) → Option (IsScalar a b c)
unfolding decide_both
decide_scalar Ordering.lt b c = some tt
decide_scalar Ordering.eq b c = decide_both b c
decide_scalar Ordering.gt b c = decide_both b c

replacement : String
replacement = "�"

of_code : ℕ → String
unfolding decide_scalar replacement
of_code n = elim (decide_scalar (compare n 55296) (compare 57343 n) (compare n 1114112)) [
  | some p ↦ String.◌∷◌ (char n p) String.[]
  | none ↦ replacement
]

unfoldable pub rune_text : ℤ → String
unfolding of_code
rune_text (pos n) = let r = n % 2 ^ 32 in if ltb r (2 ^ 31) then of_code r else replacement
rune_text (negsuc n) =
    let r = 2 ^ 32 - 1 - n % 2 ^ 32 in if ltb r (2 ^ 31) then of_code r else replacement
