-- ===== src/PinMap/Writes.antt =====
-- The levels of the pins that include/pinmap.h names, under writes by name.
use mathlib.Core.Path.{ap₂}
use cs7000p_bootloader.Base.{
  ℕ, ◌≡◌, refl, ap, ◌∙◌, Bool, true, false, ◌==◌, arith, Bool-cases, inl, inr,
}
use cs7000p_bootloader.Bus.{Port}
use cs7000p_bootloader.Gpio.Dev.{Board, same_port}
use cs7000p_bootloader.Gpio.Levels.{
  Output, port_pin, ext_pin, same_output, is_line, out_level, pin_write,
}
use cs7000p_bootloader.Gpio.Writes.{pin_write-level}
use cs7000p_bootloader.Gpio.Chain.{Chain}
use cs7000p_bootloader.Gpio.Shown.{IsShown}
use cs7000p_bootloader.PinMap.{PinName, pin}
use cs7000p_bootloader.PinMap.Owner.{first_name, same_pin}
use cs7000p_bootloader.PinMap.Range.{pin-Exists}

same_port-Eq : (p q : Port) → same_port p q ≡ true → p ≡ q
same_port-Eq p q e = grind arith

same_output-Eq : (o o' : Output) → same_output o o' ≡ true → o ≡ o'
same_output-Eq (port_pin p n) (port_pin q m) e = elim (Bool-cases (same_port p q)) [
  | inl h ↦ elim (Bool-cases (n == m)) [
    | inl k ↦ ap₂ port_pin (same_port-Eq p q h) (ground arith)
    | inr k ↦ ground arith
  ]
  | inr h ↦ ground arith
]
same_output-Eq (port_pin p n) (ext_pin m) e = grind arith
same_output-Eq (ext_pin n) (port_pin q m) e = grind arith
same_output-Eq (ext_pin n) (ext_pin m) e = ap ext_pin (ground arith)

-- A write to a pin by its name leaves the level of every pin with another name as it was, neither of
-- them being a line of the shift register: other names are those that differ by more than the nine that
-- share their pin. The level of an output of the shift register is what the chain has latched, which
-- before the write is what the program reads.
pub pin_write-others :
    (start : Port → ℕ → Bool) (c : Chain) (m n : PinName) (state : Bool) (b : Board)
    → ¬ (first_name m ≡ first_name n)
    → is_line (pin m) ≡ false
    → is_line (pin n) ≡ false
    → IsShown c b.outputs
    → out_level start c (pin n) (pin_write (pin m) state b) ≡ out_level start c (pin n) b
pin_write-others start c m n state b other free no_line v =
    pin_write-level start c (pin m) (pin n) state b (pin-Exists m) (pin-Exists n) free no_line v
    ∙ elim (Bool-cases (same_output (pin m) (pin n))) [
      | inl e ↦ absurd (other (same_pin m n (same_output-Eq (pin m) (pin n) e)))
      | inr e ↦ rw e refl
    ]
