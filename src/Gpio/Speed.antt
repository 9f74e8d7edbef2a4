-- ===== src/Gpio/Speed.antt =====
-- Rows of settings of a port: the registers stay words, and the speed of a pin.
use cs7000p_bootloader.Base.{
  ℕ, ◌+◌, ◌-◌, ◌*◌, ◌/◌, ◌^◌, ◌<◌, true, inl, inr, arith, bit_and, ltb, u8, not32, u32, ◌<<<◌,
  bit_or-lt, bit_and-le, Bool-cases,
}
use cs7000p_bootloader.Gpio.{Registers, write_field, case_of, set_mode, set_af, set_output_speed}
use cs7000p_bootloader.Gpio.Fields.{IsField, IsRegisters, write_field-IsField}

write_field-lt : (mask value pos reg : ℕ) → write_field mask value pos reg < 2 ^ 32
unfolding write_field not32
write_field-lt mask value pos reg =
    bit_or-lt 32 (bit_and reg (not32 (u32 (mask <<< pos)))) (u32 (value <<< pos))
      (omega (arith, bit_and-le reg (not32 (u32 (mask <<< pos))))) (omega arith)

set_af-IsRegisters : (pin af : ℕ) (r : Registers) → IsRegisters r → IsRegisters (set_af pin af r)
unfolding set_af
set_af-IsRegisters pin af r v = elim (Bool-cases (ltb pin 8)) [
  | inl e ↦ rw e (record {
    moder = v.moder;
    otyper = v.otyper;
    pupdr = v.pupdr;
    afr_0 = write_field-lt 0x0F af (pin * 4) r.afr_0;
    afr_1 = v.afr_1;
  })
  | inr e ↦ rw e (record {
    moder = v.moder;
    otyper = v.otyper;
    pupdr = v.pupdr;
    afr_0 = v.afr_0;
    afr_1 = write_field-lt 0x0F af (u8 (pin + 2 ^ 8 - 8) * 4) r.afr_1;
  })
]

pub set_mode-IsRegisters :
    (pin mode : ℕ) (r : Registers) → IsRegisters r → IsRegisters (set_mode pin mode r)
unfolding set_mode
set_mode-IsRegisters pin mode r v =
    let c = case_of (bit_and mode 0xFF) in
    let r' : Registers = record r {
      moder = write_field 3 c.mode (pin * 2) r.moder;
      otyper = write_field 1 c.type pin r.otyper;
      pupdr = write_field 3 c.pull (pin * 2) r.pupdr;
    } in
    let v' : IsRegisters r' = record {
      moder = write_field-lt 3 c.mode (pin * 2) r.moder;
      otyper = write_field-lt 1 c.type pin r.otyper;
      pupdr = write_field-lt 3 c.pull (pin * 2) r.pupdr;
      afr_0 = v.afr_0;
      afr_1 = v.afr_1;
    } in
    elim (Bool-cases c.alternates) [
      | inl e ↦ rw e (set_af-IsRegisters pin (bit_and (mode / 2 ^ 8) 0x0F) r' v')
      | inr e ↦ rw e v'
    ]

-- `gpio_setOutputSpeed` writes the pin's field of OSPEEDR.
pub set_output_speed-IsField :
    (pin spd : ℕ) (r : Registers)
    → pin < 16
    → spd < 2 ^ 2
    → r.ospeedr < 2 ^ 32
    → IsField true 2 (pin * 2) spd r.ospeedr (set_output_speed pin spd r).ospeedr
unfolding set_output_speed
set_output_speed-IsField pin spd r hp hs v =
    write_field-IsField 2 (pin * 2) spd r.ospeedr hs (omega arith) v

pub set_output_speed-lt :
    (pin spd : ℕ) (r : Registers) → (set_output_speed pin spd r).ospeedr < 2 ^ 32
unfolding set_output_speed
set_output_speed-lt pin spd r = write_field-lt 3 spd (pin * 2) r.ospeedr
