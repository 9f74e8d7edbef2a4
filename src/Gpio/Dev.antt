-- ===== src/Gpio/Dev.antt =====
-- The devices of include/gpio.h: a port or the shift register, each behind a table of functions, and
-- the tables of src/gpio.c.
use cs7000p_bootloader.Base.{ℕ, Bool, true, false, [], ◌∷◌, ◌++◌, if◌then◌else◌}
use cs7000p_bootloader.Bus.{
  Port, gpioa, gpiob, gpioc, gpiod, gpioe, gpioh, Access, set_pin, clear_pin,
}
use cs7000p_bootloader.Gpio.{
  Registers, ShiftReg, api_mode, api_read, shift_reg_modify, shift_reg_read,
}

-- The `priv` of a device: a port, or nothing for the shift register.
pub data Priv : Type 0 where
  on_port : Port → Priv
  none_needed : Priv

abbrev pub same_port : Port → Port → Bool
same_port gpioa gpioa = true
same_port gpiob gpiob = true
same_port gpioc gpioc = true
same_port gpiod gpiod = true
same_port gpioe gpioe = true
same_port gpioh gpioh = true
same_port _ _ = false

-- The configuration of each port, the array of the shift register, and the accesses to both.
pub record Board : Type 0 where
  pub regs : Port → Registers
  pub outputs : ShiftReg

-- `struct gpioApi`. A mode is accepted (0) or not (-1).
pub record GpioApi : Type 0 where
  pub mode : Priv → (pin mode : ℕ) → Board → Bool × Board
  pub set : Priv → ℕ → Board → Board
  pub clear : Priv → ℕ → Board → Board
  pub read : Priv → ℕ → Board → Bool

-- `struct gpioDev` and `struct gpioPin`.
pub record GpioDev : Type 0 where
  pub api : GpioApi
  pub priv : Priv

pub record GpioPin : Type 0 where
  pub port : GpioDev
  pub pin : ℕ

abbrev pub access : Access → Board → Board
access a b = record b { outputs = record b.outputs { log = b.outputs.log ++ (a ∷ []) } }

abbrev pub update_regs : (Port → Registers) → Port → Registers → Port → Registers
update_regs regs port r p = if same_port port p then r else regs p

-- `gpioApi_mode`, `gpioApi_set`, `gpioApi_clear`, `gpioApi_read` on a board. The devices that use them
-- have a port; without one, a null pointer, the functions here do nothing.
abbrev pub port_mode : Priv → (pin mode : ℕ) → Board → Bool × Board
port_mode (on_port port) pin mode b =
    let (accepted, r) = api_mode pin mode (b.regs port) in
    (accepted, record b { regs = update_regs b.regs port r })
port_mode none_needed pin mode b = (false, b)

abbrev pub port_set : Priv → ℕ → Board → Board
port_set (on_port port) pin b = access (set_pin port pin) b
port_set none_needed pin b = b

abbrev pub port_clear : Priv → ℕ → Board → Board
port_clear (on_port port) pin b = access (clear_pin port pin) b
port_clear none_needed pin b = b

abbrev pub port_read : Priv → ℕ → Board → Bool
port_read (on_port port) pin b = api_read pin (b.regs port)
port_read none_needed pin b = false

-- `gpioApi` and `gpioShiftReg_ops`.
abbrev pub gpio_api : GpioApi
gpio_api = record { mode = port_mode; set = port_set; clear = port_clear; read = port_read }

abbrev pub gpio_shift_reg_ops : GpioApi
gpio_shift_reg_ops = record {
  mode = λ priv pin mode b. (false, b);
  set = λ priv pin b. record b { outputs = shift_reg_modify pin true b.outputs };
  clear = λ priv pin b. record b { outputs = shift_reg_modify pin false b.outputs };
  read = λ priv pin b. shift_reg_read pin b.outputs;
}

-- `GpioA` to `GpioE`, and `extGpio`.
abbrev pub gpio_dev : Port → GpioDev
gpio_dev port = record { api = gpio_api; priv = on_port port }

abbrev pub ext_gpio : GpioDev
ext_gpio = record { api = gpio_shift_reg_ops; priv = none_needed }

-- `gpioDev_setMode`, `gpioDev_set`, `gpioDev_clear`, `gpioDev_read`.
unfoldable pub dev_set_mode : GpioDev → (pin mode : ℕ) → Board → Bool × Board
dev_set_mode dev pin mode b = dev.api.mode dev.priv pin mode b

unfoldable pub dev_set : GpioDev → ℕ → Board → Board
dev_set dev pin b = dev.api.set dev.priv pin b

unfoldable pub dev_clear : GpioDev → ℕ → Board → Board
dev_clear dev pin b = dev.api.clear dev.priv pin b

unfoldable pub dev_read : GpioDev → ℕ → Board → Bool
dev_read dev pin b = dev.api.read dev.priv pin b

-- `gpioPin_setMode`, `gpioPin_set`, `gpioPin_clear`, `gpioPin_read`.
unfoldable pub pin_set_mode : GpioPin → ℕ → Board → Bool × Board
pin_set_mode gpio mode b = gpio.port.api.mode gpio.port.priv gpio.pin mode b

unfoldable pub pin_set : GpioPin → Board → Board
pin_set gpio b = gpio.port.api.set gpio.port.priv gpio.pin b

unfoldable pub pin_clear : GpioPin → Board → Board
pin_clear gpio b = gpio.port.api.clear gpio.port.priv gpio.pin b

unfoldable pub pin_read : GpioPin → Board → Bool
pin_read gpio b = gpio.port.api.read gpio.port.priv gpio.pin b
