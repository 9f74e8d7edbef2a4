-- ===== src/Gpio/Chain.antt =====
-- The device that src/gpio.c drives with three lines: a chain of shift registers with a latch, as its
-- lines and its outputs follow from the accesses.
use cs7000p_bootloader.Base.{
  ℕ, ◌+◌, ◌≡◌, refl, Bool, true, false, not, ◌&&◌, List, [], ◌∷◌, ◌++◌, bit, bit-one_<<<, ◌<<<◌,
  ◌==◌, if◌then◌else◌,
}
use cs7000p_bootloader.Bus.{Access, bsrr, gpioe}

-- A shift register: the levels of its clock, data and strobe lines, the bits that it has shifted in,
-- latest first, and those that its outputs hold.
pub record Chain : Type 0 where
  pub clk : Bool
  pub dat : Bool
  pub str : Bool
  pub shifted : List Bool
  pub latched : List Bool

-- The level of pin `k` after a write of `v` to BSRR: bit `k` sets it, bit `k + 16` clears it.
unfoldable pub level : (k v : ℕ) → Bool → Bool
level k v old = if bit v k then true else if bit v (k + 16) then false else old

-- A bit is shifted in when the clock rises, and the outputs take the bits when the strobe rises.
abbrev pub lines : (clk dat str : Bool) → Chain → Chain
lines clk dat str c =
    let shifted' = if clk && not c.clk then dat ∷ c.shifted else c.shifted in
    record {
      clk = clk;
      dat = dat;
      str = str;
      shifted = shifted';
      latched = if str && not c.str then shifted' else c.latched;
    }

-- The clock is pin 7 of port E, the data line 9, the strobe 8.
unfoldable pub on_access : Access → Chain → Chain
on_access (bsrr gpioe v) c = lines (level 7 v c.clk) (level 9 v c.dat) (level 8 v c.str) c
on_access _ c = c

unfoldable pub receive : List Access → Chain → Chain
receive [] c = c
receive (a ∷ as') c = receive as' (on_access a c)

pub receive-append :
    (as' bs : List Access) (c : Chain) → receive (as' ++ bs) c ≡ receive bs (receive as' c)
unfolding receive
receive-append [] bs c = refl
receive-append (a ∷ as') bs c = receive-append as' bs (on_access a c)

-- A write with the one bit `j`.
pub level-one :
    (k j : ℕ) (old : Bool)
    → level k (1 <<< j) old ≡ (if k == j then true else if (k + 16) == j then false else old)
unfolding level
level-one k j old = simp bit-one_<<< refl

pub on_access-one :
    (j : ℕ) (c : Chain)
    → let level' : ℕ → Bool → Bool =
        λ k old. if k == j then true else if (k + 16) == j then false else old in
      on_access (bsrr gpioe (1 <<< j)) c
      ≡ lines (level' 7 c.clk) (level' 9 c.dat) (level' 8 c.str) c
unfolding on_access
on_access-one j c = simp level-one refl

pub no_rise : (b : Bool) (x y : List Bool) → (if b && not b then x else y) ≡ y
no_rise true x y = refl
no_rise false x y = refl
