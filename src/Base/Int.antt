-- ===== src/Base/Int.antt =====
-- Go's signed integers as integers over the native numbers: `negsuc n` is -(n + 1).
use Prim.Native.Nat.{ℕ, ◌-◌, ◌^◌, ◌%◌}
use mathlib.Core.Bool.{Bool, false}
use kroxy.Base.Tests.{ltb, leb, ◌==◌, if◌then◌else◌}

pub data ℤ : Type 0 where
  pos : ℕ → ℤ
  negsuc : ℕ → ℤ

-- The two's complement reading of the low `w` bits of a number, as in `int16(x)`.
abbrev pub to_signed : ℕ → ℕ → ℤ
to_signed w x = let r = x % 2 ^ w in if ltb r (2 ^ (w - 1)) then pos r else negsuc (2 ^ w - r - 1)

-- The bit pattern of a w-bit integer, as in `uint32(x)`.
abbrev pub to_unsigned : ℕ → ℤ → ℕ
to_unsigned w (pos n) = n % 2 ^ w
to_unsigned w (negsuc n) = 2 ^ w - n % 2 ^ w - 1

-- Comparison with a constant that is not negative: `x == k`, `x >= k`.
abbrev pub eq_num : ℤ → ℕ → Bool
eq_num (pos n) k = n == k
eq_num (negsuc n) k = false

abbrev pub ge_num : ℤ → ℕ → Bool
ge_num (pos n) k = leb k n
ge_num (negsuc n) k = false

-- `a == b`
abbrev pub eq_int : ℤ → ℤ → Bool
eq_int (pos a) (pos b) = a == b
eq_int (negsuc a) (negsuc b) = a == b
eq_int _ _ = false
