-- ===== src/Gpio/Fields.antt =====
-- The configuration registers of src/gpio.c: a field is written, and no other.
use cs7000p_bootloader.Base.{
  ℕ, ◌+◌, ◌-◌, ◌*◌, ◌/◌, ◌%◌, ◌^◌, ◌≤◌, ◌<◌, ◌≡◌, refl, Bool, true, not, ◌&&◌, inl, inr, arith, bit,
  bit-bit_or, bit-clear, bit-ones, bit-<<<, bit_above, bit_and_byte, bit_and_nibble, <<<-fits,
  ◌<<<◌, ltb, leb, Bool-cases, if◌then◌else◌,
}
use native.Mathlib.Nat.{mod-eq_of_lt, one-le-pow}
use cs7000p_bootloader.Gpio.{Registers, ModeCase, write_field, case_of, set_mode, set_af}

-- If the field is touched, the digits `pos` to `pos + w - 1` of `reg'` are those of `value`; the
-- others are those of `reg`.
abbrev pub IsField : (touched : Bool) (w pos value reg reg' : ℕ) → Type 0
IsField touched w pos value reg reg' =
    (i : ℕ)
    → bit reg' i
      ≡ (if touched && leb pos i && ltb i (pos + w) then bit value (i - pos) else bit reg i)

pub write_field-IsField :
    (w pos value reg : ℕ)
    → value < 2 ^ w
    → pos + w ≤ 32
    → reg < 2 ^ 32
    → IsField true w pos value reg (write_field (2 ^ w - 1) value pos reg)
unfolding write_field
write_field-IsField w pos value reg hv fits hr i =
    let mask_in = <<<-fits pos w (2 ^ w - 1) (omega (arith, one-le-pow w 2 (omega arith))) fits in
    let value_in = <<<-fits pos w value hv fits in
    rw
      (
        mod-eq_of_lt mask_in,
        mod-eq_of_lt value_in,
        bit-bit_or,
        bit-clear reg ((2 ^ w - 1) <<< pos) i hr mask_in,
        bit-<<<,
        bit-<<<,
        bit-ones,
      )
      (ground (arith, bit_above w (i - pos) value hv))

-- `r'` is `r` with the pin configured as a case of the `switch` asks for: its fields hold the values
-- of the case, the alternate function only if the case has one, and all other bits are kept.
pub record IsConfigured (pin : ℕ) (c : ModeCase) (af : ℕ) (r r' : Registers) : Type 0 where
  pub moder : IsField true 2 (pin * 2) c.mode r.moder r'.moder
  pub otyper : IsField true 1 pin c.type r.otyper r'.otyper
  pub pupdr : IsField true 2 (pin * 2) c.pull r.pupdr r'.pupdr
  pub ospeedr : r'.ospeedr ≡ r.ospeedr
  pub idr : r'.idr ≡ r.idr
  pub afr_0 : IsField (c.alternates && ltb pin 8) 4 (pin * 4) af r.afr_0 r'.afr_0
  pub afr_1 : IsField (c.alternates && not (ltb pin 8)) 4 ((pin - 8) * 4) af r.afr_1 r'.afr_1

-- The registers are 32 bits wide.
pub record IsRegisters (r : Registers) : Type 0 where
  pub moder : r.moder < 2 ^ 32
  pub otyper : r.otyper < 2 ^ 32
  pub pupdr : r.pupdr < 2 ^ 32
  pub afr_0 : r.afr_0 < 2 ^ 32
  pub afr_1 : r.afr_1 < 2 ^ 32

pub case_of_bounds :
    (m : ℕ) → ((case_of m).mode < 2 ^ 2) × ((case_of m).type < 2 ^ 1) × ((case_of m).pull < 2 ^ 2)
unfolding case_of
case_of_bounds m = ground arith

-- The alternate function goes to the register that has the pin.
record IsAlternate (pin af : ℕ) (r r' : Registers) : Type 0 where
  low : IsField (ltb pin 8) 4 (pin * 4) af r.afr_0 r'.afr_0
  high : IsField (not (ltb pin 8)) 4 ((pin - 8) * 4) af r.afr_1 r'.afr_1
  moder : r'.moder ≡ r.moder
  otyper : r'.otyper ≡ r.otyper
  pupdr : r'.pupdr ≡ r.pupdr
  ospeedr : r'.ospeedr ≡ r.ospeedr
  idr : r'.idr ≡ r.idr

set_af-IsAlternate :
    (pin af : ℕ) (r : Registers)
    → pin < 16
    → af < 2 ^ 4
    → r.afr_0 < 2 ^ 32
    → r.afr_1 < 2 ^ 32
    → IsAlternate pin af r (set_af pin af r)
unfolding set_af
set_af-IsAlternate pin af r hp ha h0 h1 = elim (Bool-cases (ltb pin 8)) [
  | inl e ↦ rw e (record {
    low = λ i. rw e (write_field-IsField 4 (pin * 4) af r.afr_0 ha (ground arith) h0 i);
    high = λ i. rw e refl;
    moder = refl;
    otyper = refl;
    pupdr = refl;
    ospeedr = refl;
    idr = refl;
  })
  | inr e ↦
      rw (e, high_pin (ground arith))
        (record {
          low = λ i. rw e refl;
          high = λ i. rw e (write_field-IsField 4 ((pin - 8) * 4) af r.afr_1 ha (omega arith) h1 i);
          moder = refl;
          otyper = refl;
          pupdr = refl;
          ospeedr = refl;
          idr = refl;
        })
]
  where
    high_pin : 8 ≤ pin → (pin + 2 ^ 8 - 8) % 2 ^ 8 ≡ pin - 8
    high_pin h = omega arith

unfoldable pub fields_written : ℕ → ModeCase → Registers → Registers
fields_written pin c r = record r {
  moder = write_field 3 c.mode (pin * 2) r.moder;
  otyper = write_field 1 c.type pin r.otyper;
  pupdr = write_field 3 c.pull (pin * 2) r.pupdr;
}

-- With the alternate function set, or without.
fields_written-IsConfigured :
    (pin : ℕ) (c : ModeCase) (af : ℕ) (r : Registers)
    → pin < 16
    → (c.mode < 2 ^ 2) × (c.type < 2 ^ 1) × (c.pull < 2 ^ 2)
    → af < 2 ^ 4
    → IsRegisters r
    → let r' = fields_written pin c r in
      IsConfigured pin c af r (if c.alternates then set_af pin af r' else r')
unfolding fields_written
fields_written-IsConfigured pin c af r hp (hm, ht, hq) ha v =
    let mode_written = write_field-IsField 2 (pin * 2) c.mode r.moder hm (omega arith) v.moder in
    let type_written = write_field-IsField 1 pin c.type r.otyper ht (omega arith) v.otyper in
    let pull_written = write_field-IsField 2 (pin * 2) c.pull r.pupdr hq (omega arith) v.pupdr in
    let a = set_af-IsAlternate pin af (fields_written pin c r) hp ha v.afr_0 v.afr_1 in
    elim (Bool-cases c.alternates) [
      | inl e ↦ rw e (record {
        moder = λ i. rw a.moder (mode_written i);
        otyper = λ i. rw a.otyper (type_written i);
        pupdr = λ i. rw a.pupdr (pull_written i);
        ospeedr = a.ospeedr;
        idr = a.idr;
        afr_0 = a.low;
        afr_1 = a.high;
      })
      | inr e ↦ rw e (record {
        moder = mode_written;
        otyper = type_written;
        pupdr = pull_written;
        ospeedr = refl;
        idr = refl;
        afr_0 = λ i. refl;
        afr_1 = λ i. refl;
      })
    ]

-- `gpio_setMode` with a pin below 16 and a 16-bit mode, on 32-bit registers: the fields of the pin in
-- MODER, OTYPER and PUPDR get the values of the case that the low byte of the mode selects, and its
-- field in AFR[0] or AFR[1] gets bits 8 to 11 of the mode if that case has an alternate function;
-- every other bit of the registers is kept.
pub set_mode-IsConfigured :
    (pin mode : ℕ) (r : Registers)
    → pin < 16
    → mode < 2 ^ 16
    → IsRegisters r
    → IsConfigured pin (case_of (mode % 2 ^ 8)) (mode / 2 ^ 8 % 2 ^ 4) r (set_mode pin mode r)
unfolding set_mode fields_written
set_mode-IsConfigured pin mode r hp hm v =
    rw (bit_and_byte, bit_and_nibble)
      (fields_written-IsConfigured pin (case_of (mode % 2 ^ 8)) (mode / 2 ^ 8 % 2 ^ 4) r hp
        (case_of_bounds (mode % 2 ^ 8)) (omega arith) v)
