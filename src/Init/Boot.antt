-- ===== src/Init/Boot.antt =====
-- What the calls of `main` in src/main.c do to the chip and its ports, from a reset to the main loop.
pub mod Ways
pub mod Pins
pub mod Ready
mod Tests
use cs7000p_bootloader.Base.{List, [], ◌∷◌, ◌++◌}
use cs7000p_bootloader.Bus.{Port, gpioa, gpioe}
use cs7000p_bootloader.Gpio.{input, output, set_mode}
use cs7000p_bootloader.Main.{Call}
use cs7000p_bootloader.Chip.{Op}
use cs7000p_bootloader.Clock.{ClockMasks, start_pll}
use cs7000p_bootloader.Init.{
  InitMasks, Setup, on_chip, on_port, read_backup, write_backup, call, Extern, backup_init,
  gpio_init, usb_init, irq_init,
}

abbrev pub all_on_chip : List Op → List Setup
all_on_chip [] = []
all_on_chip (op ∷ ops) = on_chip op ∷ all_on_chip ops

-- An access to the port that leaves its configuration as it is.
abbrev pub touch : Port → Setup
touch port = on_port port (λ r. r)

module _ (C : ClockMasks) (M : InitMasks) where
  -- The statements of a call. The strobe of the shift register and the red LED behind it are outputs of
  -- port E, a write to the LED masks interrupts and unmasks them, the key is an input of it, and PHONE_TXD is pin 0 of port A. The calls that do not return,
  -- the delay and `flash_init` use neither.
  unfoldable pub perform : Call → List Setup
  perform Call.backup_init = backup_init M
  perform Call.read_flag = read_backup ∷ []
  perform (Call.write_flag v) = write_backup v ∷ []
  perform Call.jump_to_application = []
  perform Call.gpio_init = gpio_init M
  perform Call.alarm_key_input = on_port gpioe (set_mode 10 input) ∷ []
  perform (Call.delay_us n) = []
  perform Call.read_alarm_key = touch gpioe ∷ []
  perform Call.system_reset = []
  perform Call.start_pll = all_on_chip (start_pll C)
  perform Call.shift_reg_init =
      on_port gpioe (set_mode 8 output)
      ∷ on_port gpioe (set_mode 7 output)
      ∷ on_port gpioe (set_mode 9 output)
      ∷ touch gpioe
      ∷ []
  perform Call.phone_txd_output = on_port gpioa (set_mode 0 output) ∷ []
  perform (Call.red_led state) = call Extern.disable_irq ∷ touch gpioe ∷ call Extern.enable_irq ∷ []
  perform Call.flash_init = []
  perform Call.usb_init = usb_init M
  perform Call.irq_init = irq_init
  perform Call.main_loop = []

  unfoldable pub perform_all : List Call → List Setup
  perform_all [] = []
  perform_all (c ∷ cs) = perform c ++ perform_all cs
