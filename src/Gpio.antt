-- ===== src/Gpio.antt =====
-- The code of src/gpio.c and of the inline functions of include/gpio.h: the pins of the ports, and
-- the 24 outputs behind the shift register. The delays between the edges are not modelled.
pub mod Outputs
pub mod Fields
pub mod Dev
pub mod Chain
pub mod Wire
pub mod Levels
pub mod Shown
pub mod Writes
pub mod Meaning
pub mod Modes
pub mod Speed
pub mod Tests
use cs7000p_bootloader.Base.{
  ℕ, zero, suc, ◌+◌, ◌-◌, ◌*◌, ◌/◌, ◌%◌, ◌^◌, ◌≡◌, Bool, true, false, not, ◌&&◌, List, [], ◌∷◌,
  ◌++◌, bit_and, bit_or, ltb, ◌==◌, if◌then◌else◌, get_or, set, u8, u32, not32, ◌<<<◌, any_set,
}
use cs7000p_bootloader.Bus.{Access, bsrr, irq_off, irq_on, gpioe, set_pin, clear_pin}

-- `enum Mode`.
abbrev pub input : ℕ
input = 0

abbrev pub input_pull_up : ℕ
input_pull_up = 1

abbrev pub input_pull_down : ℕ
input_pull_down = 2

abbrev pub analog : ℕ
analog = 3

abbrev pub output : ℕ
output = 4

abbrev pub open_drain : ℕ
open_drain = 5

abbrev pub open_drain_pu : ℕ
open_drain_pu = 6

abbrev pub alternate : ℕ
alternate = 7

abbrev pub alternate_od : ℕ
alternate_od = 8

abbrev pub alternate_od_pu : ℕ
alternate_od_pu = 9

-- The configuration registers of a port, and its input register.
pub record Registers : Type 0 where
  pub moder : ℕ
  pub otyper : ℕ
  pub pupdr : ℕ
  pub ospeedr : ℕ
  pub afr_0 : ℕ
  pub afr_1 : ℕ
  pub idr : ℕ

-- `reg &= ~(mask << pos); reg |= value << pos;`.
unfoldable pub write_field : (mask value pos reg : ℕ) → ℕ
write_field mask value pos reg =
    bit_or (bit_and reg (not32 (u32 (mask <<< pos)))) (u32 (value <<< pos))

-- `setGpioAf`.
unfoldable pub set_af : (pin af : ℕ) → Registers → Registers
set_af pin af r =
    if ltb pin 8
    then record r { afr_0 = write_field 0x0F af (pin * 4) r.afr_0 }
    else record r { afr_1 = write_field 0x0F af (u8 (pin + 2 ^ 8 - 8) * 4) r.afr_1 }

-- The values that a case of the `switch` of `gpio_setMode` sets, for MODER, OTYPER and PUPDR, and
-- whether it sets the alternate function.
pub record ModeCase : Type 0 where
  pub mode : ℕ
  pub type : ℕ
  pub pull : ℕ
  pub alternates : Bool

abbrev pub mode_case : ℕ → ℕ → ℕ → Bool → ModeCase
mode_case m t p a = record { mode = m; type = t; pull = p; alternates = a }

unfoldable pub case_of : ℕ → ModeCase
case_of m =
    if m == input
    then mode_case 0x00 0x00 0x00 false
    else if m == input_pull_up
    then mode_case 0x00 0x00 0x01 false
    else if m == input_pull_down
    then mode_case 0x00 0x00 0x02 false
    else if m == analog
    then mode_case 0x03 0x00 0x00 false
    else if m == output
    then mode_case 0x01 0x00 0x00 false
    else if m == open_drain
    then mode_case 0x01 0x01 0x00 false
    else if m == open_drain_pu
    then mode_case 0x01 0x01 0x00 false
    else if m == alternate
    then mode_case 0x02 0x00 0x00 true
    else if m == alternate_od
    then mode_case 0x02 0x01 0x00 true
    else if m == alternate_od_pu
    then mode_case 0x02 0x01 0x01 true
    else mode_case 0x00 0x00 0x00 false

-- `gpio_setMode`.
unfoldable pub set_mode : (pin mode : ℕ) → Registers → Registers
set_mode pin mode r =
    let af = bit_and (mode / 2 ^ 8) 0x0F in
    let c = case_of (bit_and mode 0xFF) in
    let r' = record r {
      moder = write_field 3 c.mode (pin * 2) r.moder;
      otyper = write_field 1 c.type pin r.otyper;
      pupdr = write_field 3 c.pull (pin * 2) r.pupdr;
    } in
    if c.alternates then set_af pin af r' else r'

-- `gpio_setOutputSpeed` and `gpio_readPin`.
unfoldable pub set_output_speed : (pin spd : ℕ) → Registers → Registers
set_output_speed pin spd r = record r { ospeedr = write_field 3 spd (pin * 2) r.ospeedr }

unfoldable pub read_pin : ℕ → Registers → ℕ
read_pin pin r = if any_set r.idr (1 <<< pin) then 1 else 0

-- `gpioApi_mode`: `false` is the -1 of a pin that no port has.
unfoldable pub api_mode : (pin mode : ℕ) → Registers → Bool × Registers
api_mode pin mode r = if ltb 15 pin then (false, r) else (true, set_mode pin mode r)

unfoldable pub api_read : ℕ → Registers → Bool
api_read pin r = not (read_pin pin r == 0)

-- One round of the inner loop of `spiSr_send`: clock low, data, clock high.
unfoldable pub send_bit : (value cnt : ℕ) → List Access
send_bit value cnt =
    bsrr gpioe (1 <<< 23)
    ∷ (if any_set value (0x80 / 2 ^ cnt) then bsrr gpioe (1 <<< 9) else bsrr gpioe (1 <<< 25))
    ∷ bsrr gpioe (1 <<< 7)
    ∷ []

-- The inner loop with `n` rounds left.
unfoldable pub send_byte : (value cnt : ℕ) → ℕ → List Access
send_byte value cnt zero = []
send_byte value cnt (suc n) = send_bit value cnt ++ send_byte value (cnt + 1) n

unfoldable pub send : List ℕ → List Access
send [] = []
send (value ∷ txbuf) = send_byte value 0 8 ++ send txbuf

-- The three bytes of `srData_extGpio`, and the accesses that have reached the port, oldest first.
pub record ShiftReg : Type 0 where
  pub sr_data : List ℕ
  pub log : List Access

-- Strobe low, the bytes, strobe high: the pin GPIOEXT_STR is 8 of port E.
unfoldable pub strobe : List ℕ → List Access
strobe sr_data = clear_pin gpioe 8 ∷ (send sr_data ++ (set_pin gpioe 8 ∷ []))

-- `gpioShiftReg_init`, on the configuration of port E and the outputs: the pins of strobe, clock and
-- data are 8, 7 and 9.
unfoldable pub shift_reg_init : Registers × ShiftReg → Registers × ShiftReg
shift_reg_init (r, s) =
    let cleared : List ℕ = 0 ∷ 0 ∷ 0 ∷ [] in
    let r' = set_mode 9 output (set_mode 7 output (set_mode 8 output r)) in
    (r', record { sr_data = cleared; log = s.log ++ strobe cleared })

-- `(24 - 1 - pin) / 8` on an `int`: for pin 24 it is -1 / 8, which C rounds to 0.
unfoldable pub byte_of : ℕ → ℕ
byte_of pin = (24 - 1 - pin) / 8

unfoldable pub shift_reg_modify : (pin : ℕ) → Bool → ShiftReg → ShiftReg
shift_reg_modify pin state s =
    let bit' = pin % 8 in
    let old = get_or s.sr_data (byte_of pin) 0 in
    let new =
      if state then u8 (bit_or old (1 <<< bit')) else u8 (bit_and old (not32 (1 <<< bit'))) in
    let sr_data' = set s.sr_data (byte_of pin) new in
    if ltb 24 pin then s else record {
      sr_data = sr_data';
      log = s.log ++ (irq_off ∷ (strobe sr_data' ++ (irq_on ∷ [])));
    }

unfoldable pub shift_reg_read : ℕ → ShiftReg → Bool
shift_reg_read pin s =
    if ltb 24 pin then false else any_set (get_or s.sr_data (byte_of pin) 0) (1 <<< (pin % 8))
