-- ===== src/Base/Bits.antt =====
-- A number as its binary digits: what `|`, `&`, `~` and `<<` do to each of them.
use Prim.Native.Nat.{ℕ, zero, suc, ◌+◌, ◌-◌, ◌*◌, ◌/◌, ◌%◌, ◌^◌, ◌≤◌, ◌<◌, min, max}
use Prim.Native.Nat.{bit_and, bit_or, digits, bit_and-bitwise, bit_or-bitwise}
use mathlib.Core.Path.{◌≡◌, refl}
use mathlib.Core.Bool.{Bool, false, not, ◌&&◌, ◌||◌}
use native.Mathlib.Nat.{pow-suc, one-le-pow, mul-one, suc-sub-suc}
use native.Mathlib.Omega.{arith}
use mathlib.Core.Logic.{inl, inr}
use cs7000p_bootloader.Base.Tests.{◌==◌, ltb, Bool-cases, ltb→lt}
use cs7000p_bootloader.Base.Words.{not32, ◌<<<◌, any_set}

-- Digit `i` of `x`.
unfoldable pub bit : ℕ → ℕ → Bool
bit x zero = x % 2 == 1
bit x (suc i) = bit (x / 2) i

-- The native operations stand for a recursion on digits with fuel; any fuel that is enough serves.
module _ (z : ℕ → ℕ) (f : ℕ → ℕ → ℕ) where
  zero-digits : (n b : ℕ) → digits z f n 0 b ≡ z b
  zero-digits zero b = refl
  zero-digits (suc n) b = refl

  fuel_free : (n a b k : ℕ) → a ≤ n → a ≤ k → digits z f n a b ≡ digits z f k a b
  fuel_free n zero b k p q = rw (zero-digits n b, zero-digits k b)
  fuel_free zero (suc a) b k p q = absurd (omega arith)
  fuel_free (suc n) (suc a) b zero p q = absurd (omega arith)
  fuel_free (suc n) (suc a) b (suc k) p q =
      rw (fuel_free n (suc a / 2) (b / 2) k (omega arith) (omega arith))

  -- One digit of the recursion, with the fuel that the operations start from.
  digits_step :
      (a b : ℕ)
      → digits z f (suc a) (suc a) b
        ≡ digits z f (suc a / 2) (suc a / 2) (b / 2) * 2 + f (suc a % 2) (b % 2)
  digits_step a b =
      omega (arith, fuel_free a (suc a / 2) (b / 2) (suc a / 2) (omega arith) (omega arith))

pub or_halves : (a b : ℕ) → bit_or a b ≡ bit_or (a / 2) (b / 2) * 2 + max (a % 2) (b % 2)
or_halves zero b = simp bit_or-bitwise (omega arith)
or_halves (suc a) b = simp bit_or-bitwise (digits_step (λ y. y) max a b)

pub and_halves : (a b : ℕ) → bit_and a b ≡ bit_and (a / 2) (b / 2) * 2 + min (a % 2) (b % 2)
and_halves zero b = simp bit_and-bitwise (omega arith)
and_halves (suc a) b = simp bit_and-bitwise (digits_step (λ y. 0) min a b)

-- `|` and `&` work digit by digit.
pub bit-bit_or : (i a b : ℕ) → bit (bit_or a b) i ≡ (bit a i || bit b i)
unfolding bit
bit-bit_or zero a b = ground (arith, or_halves a b)
bit-bit_or (suc i) a b =
    let half : bit_or a b / 2 ≡ bit_or (a / 2) (b / 2) = omega (arith, or_halves a b) in
    rw half (bit-bit_or i (a / 2) (b / 2))

pub bit-bit_and : (i a b : ℕ) → bit (bit_and a b) i ≡ (bit a i && bit b i)
unfolding bit
bit-bit_and zero a b = ground (arith, and_halves a b)
bit-bit_and (suc i) a b =
    let half : bit_and a b / 2 ≡ bit_and (a / 2) (b / 2) = omega (arith, and_halves a b) in
    rw half (bit-bit_and i (a / 2) (b / 2))

pub bit-complement : (w i x : ℕ) → x < 2 ^ w → i < w → bit (2 ^ w - 1 - x) i ≡ not (bit x i)
unfolding bit
bit-complement zero i x h p = absurd (omega arith)
bit-complement (suc w) zero x h p = ground (arith, pow-suc 2 w)
bit-complement (suc w) (suc i) x h p =
    let half : (2 ^ suc w - 1 - x) / 2 ≡ 2 ^ w - 1 - x / 2 = omega (arith, pow-suc 2 w) in
    rw half (bit-complement w i (x / 2) (omega (arith, pow-suc 2 w)) (omega arith))

-- A number below 2 ^ w has no digit from `w` on.
pub bit_above : (w i x : ℕ) → x < 2 ^ w → w ≤ i → bit x i ≡ false
unfolding bit
bit_above zero zero x h p = ground arith
bit_above zero (suc i) x h p = bit_above zero i (x / 2) (omega arith) (omega arith)
bit_above (suc w) zero x h p = absurd (omega arith)
bit_above (suc w) (suc i) x h p = bit_above w i (x / 2) (omega (arith, pow-suc 2 w)) (omega arith)

pub bit-not32 : (x i : ℕ) → x < 2 ^ 32 → i < 32 → bit (not32 x) i ≡ not (bit x i)
unfolding not32
bit-not32 x i h p = bit-complement 32 i x h p

-- `v & ~mask` clears the digits of the mask and keeps the others.
pub bit-clear :
    (v mask i : ℕ)
    → v < 2 ^ 32
    → mask < 2 ^ 32
    → bit (bit_and v (not32 mask)) i ≡ (bit v i && not (bit mask i))
bit-clear v mask i hv hm = elim (Bool-cases (ltb i 32)) [
  | inl p ↦ rw (bit-bit_and i v (not32 mask), bit-not32 mask i hm (omega (arith, ltb→lt i 32)))
  | inr p ↦ rw (bit-bit_and i v (not32 mask), bit_above 32 i v hv (ground arith))
]

pub double : (v p : ℕ) → v * 2 ^ suc p ≡ v * 2 ^ p * 2
double v p = rw pow-suc (omega arith)

pub half_double : (v p : ℕ) → v * 2 ^ suc p / 2 ≡ v * 2 ^ p
half_double v p = omega (arith, double v p)

-- `v << p` moves the digits up by `p`.
pub bit-<<< : (p j v : ℕ) → bit (v <<< p) j ≡ (not (ltb j p) && bit v (j - p))
unfolding bit ◌<<<◌
bit-<<< zero zero v = ground arith
bit-<<< zero (suc j) v = ground (arith, mul-one v)
bit-<<< (suc p) zero v = ground (arith, double v p)
bit-<<< (suc p) (suc j) v = rw (half_double v p, bit-<<< p j v) (ground (arith, suc-sub-suc j p))

bit-one : (i : ℕ) → bit 1 i ≡ (i == 0)
unfolding bit
bit-one zero = refl
bit-one (suc i) = ground (arith, bit_above 0 i 0)

-- `1 << p` has the one digit `p`.
pub bit-one_<<< : (p j : ℕ) → bit (1 <<< p) j ≡ (j == p)
bit-one_<<< p j = ground (arith, bit-<<< p j 1, bit-one (j - p))

-- A number is its digits.
pub bit_ext : (w a b : ℕ) → a < 2 ^ w → b < 2 ^ w → ((i : ℕ) → bit a i ≡ bit b i) → a ≡ b
unfolding bit
bit_ext zero a b ha hb same = omega arith
bit_ext (suc w) a b ha hb same = ground (
  arith,
  same 0,
  bit_ext w (a / 2) (b / 2) (omega (arith, pow-suc 2 w)) (omega (arith, pow-suc 2 w))
      (λ i. same (suc i)),
)

pub and_zero_below : (n a : ℕ) → a ≤ n → bit_and a 0 ≡ 0
and_zero_below n zero h = refl
and_zero_below zero (suc a) h = absurd (omega arith)
and_zero_below (suc n) (suc a) h =
    omega (arith, and_halves (suc a) 0, and_zero_below n (suc a / 2) (omega arith))

-- The test `(x & (1 << p)) != 0` reads the digit `p`.
pub any_set-bit : (p x : ℕ) → any_set x (1 <<< p) ≡ bit x p
unfolding any_set bit ◌<<<◌
any_set-bit zero x = ground (arith, and_halves x 1, and_zero_below (x / 2) (x / 2) (omega arith))
any_set-bit (suc p) x =
    ground (arith, and_halves x (1 * 2 ^ suc p), double 1 p, half_double 1 p, any_set-bit p (x / 2))

-- A mask of `w` ones.
pub bit-ones : (w i : ℕ) → bit (2 ^ w - 1) i ≡ ltb i w
bit-ones w i = elim (Bool-cases (ltb i w)) [
  | inl p ↦
      ground
        (arith, bit-complement w i 0 (one-le-pow w 2 (omega arith)) (ltb→lt i w p), bit_above 0 i 0)
  | inr p ↦ ground (arith, bit_above w i (2 ^ w - 1), one-le-pow w 2 (omega arith))
]
