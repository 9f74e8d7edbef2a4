-- ===== src/Base/Fields.antt =====
-- Fields of a word: masks of low digits, and values shifted up.
use Prim.Native.Nat.{
  ℕ, zero, suc, ◌+◌, ◌-◌, ◌*◌, ◌/◌, ◌%◌, ◌^◌, ◌≤◌, ◌<◌, bit_and, bit_or, bit_or-bitwise,
}
use mathlib.Core.Path.{◌≡◌, refl}
use mathlib.Core.Bool.{false, ◌&&◌}
use native.Mathlib.Nat.{pow-suc, pow-le-pow_right, suc-add, mul-one, zero-add}
use native.Mathlib.Omega.{arith}
use cs7000p_bootloader.Base.Tests.{ltb}
use cs7000p_bootloader.Base.Words.{◌<<<◌}
use cs7000p_bootloader.Base.Bits.{
  bit, bit_above, bit-bit_and, bit-ones, bit-<<<, and_halves, or_halves, and_zero_below, double,
  half_double,
}

-- `x & 7` is the remainder by 8.
pub bit_and_seven : (x : ℕ) → bit_and x 7 ≡ x % 8
bit_and_seven x = omega (
  arith,
  and_halves x 7,
  and_halves (x / 2) 3,
  and_halves (x / 2 / 2) 1,
  and_zero_below (x / 2 / 2 / 2) (x / 2 / 2 / 2) (omega arith),
)

-- `x << p` fits w + p bits if `x` fits w.
pub bit_in_field : (p w x i : ℕ) → x < 2 ^ w → p + w ≤ i → bit (x <<< p) i ≡ false
bit_in_field p w x i h q = rw bit-<<< (ground (arith, bit_above w (i - p) x h))

or_zero_below : (n a : ℕ) → a ≤ n → bit_or a 0 ≡ a
or_zero_below n zero h = refl
or_zero_below zero (suc a) h = absurd (omega arith)
or_zero_below (suc n) (suc a) h =
    omega (arith, or_halves (suc a) 0, or_zero_below n (suc a / 2) (omega arith))

or_comm_below : (n a b : ℕ) → a ≤ n → bit_or a b ≡ bit_or b a
or_comm_below n zero b h = omega (arith, bit_or-bitwise 0 b, or_zero_below b b (omega arith))
or_comm_below zero (suc a) b h = absurd (omega arith)
or_comm_below (suc n) (suc a) b h = omega (
  arith,
  or_halves (suc a) b,
  or_halves b (suc a),
  or_comm_below n (suc a / 2) (b / 2) (omega arith),
)

pub bit_or_comm : (a b : ℕ) → bit_or a b ≡ bit_or b a
bit_or_comm a b = or_comm_below a a b (omega arith)

-- `x | (y << p)` is a sum if `x` fits `p` bits.
pub or-<<< : (p x y : ℕ) → x < 2 ^ p → bit_or x (y <<< p) ≡ x + y * 2 ^ p
unfolding ◌<<<◌
or-<<< zero x y h =
    let e : x ≡ 0 = omega arith in rw (e, mul-one) (omega (arith, bit_or-bitwise 0 y))
or-<<< (suc p) x y h = ground (
  arith,
  or_halves x (y * 2 ^ suc p),
  double y p,
  half_double y p,
  pow-suc 2 p,
  or-<<< p (x / 2) y,
)

-- `x & 0xff` is the lowest byte.
pub bit_and_byte : (x : ℕ) → bit_and x 0xff ≡ x % 2 ^ 8
bit_and_byte x = omega (
  arith,
  and_halves x 255,
  and_halves (x / 2) 127,
  and_halves (x / 2 / 2) 63,
  and_halves (x / 2 / 2 / 2) 31,
  and_halves (x / 2 / 2 / 2 / 2) 15,
  bit_and_seven (x / 2 / 2 / 2 / 2 / 2),
)

pub bit-u8 : (x i : ℕ) → bit (x % 2 ^ 8) i ≡ (bit x i && ltb i 8)
bit-u8 x i = rw (← bit_and_byte x, bit-bit_and, bit-ones 8 i)

-- A shifted value fits the word that its field fits.
pub <<<-lt : (p w x : ℕ) → x < 2 ^ w → x <<< p < 2 ^ (p + w)
unfolding ◌<<<◌
<<<-lt zero w x h = rw (mul-one, zero-add) h
<<<-lt (suc p) w x h = omega (arith, double x p, suc-add p w, pow_shift p w, <<<-lt p w x h)
  where
    pow_shift : (p w : ℕ) → 2 ^ (suc p + w) ≡ 2 ^ (p + w) * 2
    pow_shift p w = rw suc-add (pow-suc 2 (p + w))

pub <<<-fits : (p w x : ℕ) → x < 2 ^ w → p + w ≤ 32 → x <<< p < 2 ^ 32
<<<-fits p w x h fits = omega (arith, <<<-lt p w x h, pow-le-pow_right {n = 2} (omega arith) fits)

-- `x & 0x0f` is the lowest four bits.
pub bit_and_nibble : (x : ℕ) → bit_and x 0x0f ≡ x % 2 ^ 4
bit_and_nibble x = omega (arith, and_halves x 15, bit_and_seven (x / 2))

and_below : (n a b : ℕ) → b ≤ n → bit_and a b ≤ b
and_below zero a zero h = omega (arith, and_zero_below a a (omega arith))
and_below zero a (suc b) h = absurd (omega arith)
and_below (suc n) a b h = omega (arith, and_halves a b, and_below n (a / 2) (b / 2) (omega arith))

-- A mask bounds what is left of a value.
pub bit_and-le : (a b : ℕ) → bit_and a b ≤ b
bit_and-le a b = and_below b a b (omega arith)

pub bit_or-lt : (w a b : ℕ) → a < 2 ^ w → b < 2 ^ w → bit_or a b < 2 ^ w
bit_or-lt zero a b ha hb = let z : a ≡ 0 = omega arith in rw z (omega (arith, bit_or-bitwise 0 b))
bit_or-lt (suc w) a b ha hb = ground (
  arith,
  or_halves a b,
  pow-suc 2 w,
  bit_or-lt w (a / 2) (b / 2) (omega (arith, pow-suc 2 w)) (omega (arith, pow-suc 2 w)),
)
