-- ===== src/Gpio/Shown.antt =====
-- The outputs of the chain of shift registers while they are those that the program reads.
use cs7000p_bootloader.Base.{
  ℕ, zero, suc, ◌+◌, ◌<◌, ◌≡◌, refl, ap, sym, ◌∙◌, Bool, false, List, [], ◌∷◌, arith, take, get_or,
  get_or-take, ◌==◌, ◌<<<◌,
}
use cs7000p_bootloader.Bus.{
  Port, gpioa, gpiob, gpioc, gpiod, gpioe, gpioh, Access, bsrr, set_pin, clear_pin,
}
use cs7000p_bootloader.Gpio.{ShiftReg, shift_reg_modify, shift_reg_read}
use cs7000p_bootloader.Gpio.Dev.{Board, access}
use cs7000p_bootloader.Gpio.Outputs.{IsShiftReg, modify-IsShiftReg}
use cs7000p_bootloader.Gpio.Chain.{
  Chain, on_access, receive, receive-append, on_access-one, no_rise,
}
use cs7000p_bootloader.Gpio.Wire.{reads, receive-modify}
use cs7000p_bootloader.Gpio.Levels.{port_pin, is_line, ext_level}

-- The outputs of the chain, which was `c` before the first access, are what the program reads.
pub record IsShown (c : Chain) (s : ShiftReg) : Type 0 where
  pub array : IsShiftReg s
  pub shown : take 24 (receive s.log c).latched ≡ reads s 0 24

get_or-reads :
    (s : ShiftReg) (q n i : ℕ) → i < n → get_or (reads s q n) i false ≡ shift_reg_read (q + i) s
unfolding reads
get_or-reads s q zero i h = absurd (omega arith)
get_or-reads s q (suc n) zero h = ap (λ j. shift_reg_read j s) (omega arith)
get_or-reads s q (suc n) (suc i) h =
    get_or-reads s (q + 1) n i (omega arith) ∙ ap (λ j. shift_reg_read j s) (omega arith)

-- Each output then has the level that the program reads.
pub ext_level-read :
    (c : Chain) (b : Board) (n : ℕ)
    → IsShown c b.outputs
    → n < 24
    → ext_level c n b ≡ shift_reg_read n b.outputs
ext_level-read c b n v h =
    sym (get_or-take 24 n (receive b.outputs.log c).latched false h)
    ∙ ap (λ l. get_or l n false) v.shown
    ∙ get_or-reads b.outputs 0 24 n h
    ∙ ap (λ j. shift_reg_read j b.outputs) (omega arith)

pub modify-IsShown :
    (c : Chain) (p : ℕ) (state : Bool) (s : ShiftReg)
    → p < 24
    → IsShown c s
    → IsShown c (shift_reg_modify p state s)
modify-IsShown c p state s h v =
    let (l, log, out) = receive-modify p state s (receive s.log c) v.array h in
    record {
      array = modify-IsShiftReg p state s v.array;
      shown =
          ap (λ (k : List Access). take 24 (receive k c).latched) log
          ∙ ap (λ (k : Chain). take 24 k.latched) (receive-append s.log l c)
          ∙ out;
    }

-- A write to a pin of a port that is no line of the chain latches nothing.
module _ (p : Port) (n : ℕ) (small : n < 16) (no_line : is_line (port_pin p n) ≡ false) where
  pub latched-set : (c : Chain) → (on_access (set_pin p n) c).latched ≡ c.latched
  unfolding set_pin
  latched-set c = by_port p no_line
    where
      by_port :
          (p : Port)
          → is_line (port_pin p n) ≡ false
          → (on_access (bsrr p (1 <<< n)) c).latched ≡ c.latched
      by_port gpioa e = unfold on_access in refl
      by_port gpiob e = unfold on_access in refl
      by_port gpioc e = unfold on_access in refl
      by_port gpiod e = unfold on_access in refl
      by_port gpioh e = unfold on_access in refl
      by_port gpioe e =
          let low : (8 == n) ≡ false = ground arith in
          let high : (24 == n) ≡ false = ground arith in
          simp (on_access-one, low, high, no_rise) refl

  pub latched-clear : (c : Chain) → (on_access (clear_pin p n) c).latched ≡ c.latched
  unfolding clear_pin
  latched-clear c = by_port p no_line
    where
      by_port :
          (p : Port)
          → is_line (port_pin p n) ≡ false
          → (on_access (bsrr p (1 <<< (n + 16))) c).latched ≡ c.latched
      by_port gpioa e = unfold on_access in refl
      by_port gpiob e = unfold on_access in refl
      by_port gpioc e = unfold on_access in refl
      by_port gpiod e = unfold on_access in refl
      by_port gpioh e = unfold on_access in refl
      by_port gpioe e =
          let low : (8 == n + 16) ≡ false = ground arith in
          let high : (24 == n + 16) ≡ false = ground arith in
          simp (on_access-one, low, high, no_rise) refl

-- So the outputs stay.
pub access-latched :
    (c : Chain) (a : Access) (b : Board)
    → ((c : Chain) → (on_access a c).latched ≡ c.latched)
    → (receive (access a b).outputs.log c).latched ≡ (receive b.outputs.log c).latched
unfolding receive
access-latched c a b same =
    ap (λ (k : Chain). k.latched) (receive-append b.outputs.log (a ∷ []) c)
    ∙ same (receive b.outputs.log c)

pub access-IsShown :
    (c : Chain) (a : Access) (b : Board)
    → ((c : Chain) → (on_access a c).latched ≡ c.latched)
    → IsShown c b.outputs
    → IsShown c (access a b).outputs
unfolding shift_reg_read reads
access-IsShown c a b same v = record {
  array = record { size = v.array.size; bytes = v.array.bytes };
  shown = ap (take 24) (access-latched c a b same) ∙ v.shown;
}
