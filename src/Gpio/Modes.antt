-- ===== src/Gpio/Modes.antt =====
-- What setting a mode through the tables of src/gpio.c does to the ports.
use cs7000p_bootloader.Base.{
  ℕ, ◌/◌, ◌%◌, ◌^◌, ◌<◌, ◌≡◌, refl, Bool, true, false, not, Bool-cases, inl, inr, arith, ltb,
  if◌then◌else◌,
}
use cs7000p_bootloader.Bus.{Port, gpioa, gpiob, gpioc, gpiod, gpioe, gpioh}
use cs7000p_bootloader.Gpio.{api_mode}
use cs7000p_bootloader.Gpio.Meaning.{setting, wiring, case_of-wiring}
use cs7000p_bootloader.Gpio.Dev.{Board, pin_set_mode, same_port}
use cs7000p_bootloader.Gpio.Fields.{IsRegisters, IsConfigured, set_mode-IsConfigured}
use cs7000p_bootloader.Gpio.Levels.{Output, port_pin, ext_pin, pin_of}

-- `gpioPin_setMode` returns 0 and has configured the pin of its port, or it returns -1 and has changed
-- nothing; no other port changes, and no output behind the shift register. Gpio.Meaning has what the low
-- byte of the mode means.
abbrev pub HasMode : Output → (mode : ℕ) → Board → Bool × Board → Type 0
HasMode (port_pin port pin) mode b (accepted, b') =
    (accepted ≡ not (ltb 15 pin))
    × (if ltb 15 pin
        then b'.regs port ≡ b.regs port
        else IsConfigured pin (setting (wiring (mode % 2 ^ 8))) (mode / 2 ^ 8 % 2 ^ 4) (b.regs port)
            (b'.regs port))
    × ((other : Port)
        → b'.regs other ≡ (if same_port port other then b'.regs port else b.regs other))
    × (b'.outputs ≡ b.outputs)
HasMode (ext_pin n) mode b (accepted, b') = (accepted ≡ false) × (b' ≡ b)

same_port_refl : (p : Port) → same_port p p ≡ true
same_port_refl gpioa = refl
same_port_refl gpiob = refl
same_port_refl gpioc = refl
same_port_refl gpiod = refl
same_port_refl gpioe = refl
same_port_refl gpioh = refl

-- A 16-bit mode is set through the tables of functions: the fields of a pin of a port, in that port's
-- 32-bit registers, get the use, the open drain and the pull that the comments of include/gpio.h give
-- to the mode, and the alternate function in its bits 8 to 11 if it has one; only the open drain with
-- pull-up gets no pull-up. Every other bit, the other ports and the outputs behind the shift register
-- keep their values; a number above 15 and an output of the shift register are refused, and nothing
-- changes.
pub pin_set_mode-HasMode :
    (o : Output) (mode : ℕ) (b : Board)
    → mode < 2 ^ 16
    → ((p : Port) → IsRegisters (b.regs p))
    → HasMode o mode b (pin_set_mode (pin_of o) mode b)
unfolding pin_set_mode api_mode
pin_set_mode-HasMode (port_pin port pin) mode b h v = elim (Bool-cases (ltb 15 pin)) [
  | inl e ↦ rw (e, same_port_refl port) (refl, refl, (λ other. refl), refl)
  | inr e ↦
      rw (e, same_port_refl port)
        (
          refl,
          rw (← case_of-wiring (mode % 2 ^ 8))
              (set_mode-IsConfigured pin mode (b.regs port) (ground arith) h (v port)),
          (λ other. refl),
          refl,
        )
]
pin_set_mode-HasMode (ext_pin n) mode b h v = (refl, refl)
