-- ===== src/Base/Words.antt =====
-- Machine words as native numbers: a w-bit value is below 2 ^ w, and its wrap is written out.
use Prim.Native.Nat.{ℕ, ◌-◌, ◌*◌, ◌%◌, ◌^◌, bit_and}
use mathlib.Core.Bool.{Bool, not}
use cs7000p_bootloader.Base.Tests.{◌==◌}

abbrev pub u8 : ℕ → ℕ
u8 n = n % 2 ^ 8

abbrev pub u16 : ℕ → ℕ
u16 n = n % 2 ^ 16

abbrev pub u32 : ℕ → ℕ
u32 n = n % 2 ^ 32

-- `~x` on a `uint32_t`.
unfoldable pub not32 : ℕ → ℕ
not32 x = 2 ^ 32 - 1 - x

-- `x << k`, before it is cut to its type's width.
infixl 60 ◌<<<◌
unfoldable pub ◌<<<◌ : ℕ → ℕ → ℕ
x <<< k = x * 2 ^ k

-- `(x & mask) != 0`, which is also `x & mask` as a truth value.
unfoldable pub any_set : ℕ → ℕ → Bool
any_set x mask = not (bit_and x mask == 0)
