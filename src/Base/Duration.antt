-- ===== src/Base/Duration.antt =====
-- Go's signed integers, and `time.Duration(t) * time.Second` on its 64 bits.
use Prim.Native.Nat.{ℕ, zero, suc, ◌+◌, ◌-◌, ◌*◌, ◌%◌, ◌^◌, ◌<◌, compare, Ordering}
use mathlib.Core.Path.{◌≡◌}
use mathlib.Core.Bool.{Bool, true, false}
use native.Mathlib.Omega.{arith}
use netconf_operator.Base.Cond.{if◌then◌else◌}

-- `negsuc n` is -(n + 1).
pub data ℤ : Type 0 where
  pos : ℕ → ℤ
  negsuc : ℕ → ℤ

abbrev pub is_zero : ℤ → Bool
is_zero (pos zero) = true
is_zero (pos (suc n)) = false
is_zero (negsuc n) = false

abbrev pub ltb : ℕ → ℕ → Bool
ltb a b = elim (compare a b) [ Ordering.lt ↦ true | _ ↦ false ]

-- The 64-bit two's complement number that an integer wraps round to.
unfoldable pub to_int64 : ℤ → ℤ
to_int64 (pos n) = let r = n % 2 ^ 64 in if ltb r (2 ^ 63) then pos r else negsuc (2 ^ 64 - 1 - r)
to_int64 (negsuc n) =
    let r = n % 2 ^ 64 in if ltb r (2 ^ 63) then negsuc r else pos (2 ^ 64 - 1 - r)

-- The product with a positive number `k`, not wrapped.
abbrev pub scale : ℕ → ℤ → ℤ
scale k (pos n) = pos (n * k)
scale k (negsuc n) = negsuc (n * k + k - 1)

-- Nanoseconds in a second: `time.Second`.
abbrev pub second : ℕ
second = 1000000000

-- `time.Duration(t) * time.Second`
unfoldable pub seconds : ℤ → ℤ
unfolding to_int64
seconds t = to_int64 (scale second t)

-- The values of an `int32`.
abbrev pub IsInt32 : ℤ → Type 0
IsInt32 (pos n) = n < 2 ^ 31
IsInt32 (negsuc n) = n < 2 ^ 31

-- In the range of an `int32` the product of the seconds with a billion does not wrap.
pub seconds-eq-scale : (t : ℤ) → IsInt32 t → seconds t ≡ scale second t
unfolding seconds
seconds-eq-scale (pos n) h = ground arith
seconds-eq-scale (negsuc n) h = ground arith
