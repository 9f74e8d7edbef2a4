-- ===== src/Init.antt =====
-- src/init.c, and `backup_init` of src/main.c, on the registers of Chip and those of the ports. The calls
-- of TinyUSB and of the core's library are kept as a row.
pub mod Laws
pub mod Boot
use cs7000p_bootloader.Base.{
  ◌<<<◌, ℕ, Bool, true, false, ◌&&◌, Option, none, some, List, [], ◌∷◌, ◌++◌, bit_or, any_set, bit,
  if◌then◌else◌,
}
use mathlib.Core.Option
use cs7000p_bootloader.Bus.{Port, gpioa, gpiob, gpioc, gpiod, gpioe, gpioh}
use cs7000p_bootloader.Gpio.{Registers, alternate, set_mode, set_output_speed}
use cs7000p_bootloader.Gpio.Dev.{update_regs}
use cs7000p_bootloader.Chip.{Reg, Wait, Op, set_bits, wait, dsb, Chip, FlagMasks, flag_reg, step}

-- The constants of the manufacturer's header, without their prefixes, and the number of an interrupt.
pub record InitMasks : Type 0 where
  pub rtcapben : ℕ
  pub cr1_dbp : ℕ
  pub gpioaen : ℕ
  pub gpioben : ℕ
  pub gpiocen : ℕ
  pub gpioden : ℕ
  pub gpioeen : ℕ
  pub gpiohen : ℕ
  pub syscfgen : ℕ
  pub usb2otgfsen : ℕ
  pub usb33den : ℕ
  pub bvaloen : ℕ
  pub bvaloval : ℕ
  pub fdmod : ℕ
  pub otg_fs_irqn : ℕ

-- The calls that leave the repository.
pub data Extern : Type 0 where
  nvic_set_priority : (irq priority : ℕ) → Extern
  nvic_set_priority_grouping : ℕ → Extern
  sys_tick_config : (ticks : ℕ) → Extern
  tusb_init disable_irq enable_irq : Extern

-- One statement: on the registers of the chip or of a port, a read or a write of the backup register, or
-- a call.
pub data Setup : Type 0 where
  on_chip : Op → Setup
  on_port : Port → (Registers → Registers) → Setup
  read_backup : Setup
  write_backup : ℕ → Setup
  call : Extern → Setup

-- `HIGH`, and `ALTERNATE_FUNC`.
abbrev pub high : ℕ
high = 3

abbrev pub alternate_func : ℕ → ℕ
alternate_func x = x <<< 8

-- A statement of `gpio_init` for one port: `port->OSPEEDR = 0xaaaaaaaa`.
abbrev pub default_speed : Port → Setup
default_speed port = on_port port (λ r. record r { ospeedr = 0xaaaaaaaa })

module _ (M : InitMasks) where
  open M use {
    rtcapben, cr1_dbp, gpioaen, gpioben, gpiocen, gpioden, gpioeen, gpiohen, syscfgen, usb2otgfsen,
    usb33den, bvaloen, bvaloval, fdmod, otg_fs_irqn,
  }

  unfoldable pub backup_init : List Setup
  backup_init =
      on_chip (set_bits Reg.rcc_apb4enr rtcapben)
      ∷ on_chip (set_bits Reg.pwr_cr1 cr1_dbp)
      ∷ on_chip (wait Wait.dbp_set)
      ∷ []

  unfoldable pub gpio_init : List Setup
  gpio_init =
      on_chip (
        set_bits Reg.rcc_ahb4enr (
          bit_or (bit_or (bit_or (bit_or (bit_or gpioaen gpioben) gpiocen) gpioden) gpioeen)
            gpiohen))
      ∷ on_chip dsb
      ∷ default_speed gpioa
      ∷ default_speed gpiob
      ∷ default_speed gpioc
      ∷ default_speed gpiod
      ∷ default_speed gpioe
      ∷ default_speed gpioh
      ∷ []

  -- The pins USB_DM and USB_DP are 11 and 12 of port A.
  unfoldable pub usb_init : List Setup
  usb_init =
      on_port gpioa (set_mode 11 (bit_or alternate (alternate_func 10)))
      ∷ on_port gpioa (set_mode 12 (bit_or alternate (alternate_func 10)))
      ∷ on_port gpioa (set_output_speed 11 high)
      ∷ on_port gpioa (set_output_speed 12 high)
      ∷ on_chip (set_bits Reg.rcc_apb4enr syscfgen)
      ∷ on_chip (set_bits Reg.rcc_ahb1enr usb2otgfsen)
      ∷ on_chip dsb
      ∷ on_chip (set_bits Reg.pwr_cr3 usb33den)
      ∷ on_chip (wait Wait.usb33_ready)
      ∷ on_chip (set_bits Reg.otg_gotgctl (bit_or bvaloen bvaloval))
      ∷ on_chip (set_bits Reg.otg_gusbcfg fdmod)
      ∷ call (nvic_set_priority otg_fs_irqn 14)
      ∷ call tusb_init
      ∷ []

unfoldable pub irq_init : List Setup
irq_init =
    call (nvic_set_priority_grouping 7) ∷ call (sys_tick_config 399999) ∷ call enable_irq ∷ []

-- The chip, the registers of the ports, RTC_BKP0R, and the calls so far, oldest first.
pub record Mcu (Hw : Type 0) : Type 0 where
  pub hw : Hw
  pub regs : Port → Registers
  pub bkp0r : ℕ
  pub calls : List Extern

-- The bit of a port's clock in RCC_AHB4ENR.
abbrev pub clock_bit : Port → ℕ
clock_bit gpioa = 0
clock_bit gpiob = 1
clock_bit gpioc = 2
clock_bit gpiod = 3
clock_bit gpioe = 4
clock_bit gpioh = 7

module _ (K : Chip) (F : FlagMasks) where
  open K use {Hw, read}

  -- The clocks of the RTC's interface and of a port, and the access to the backup domain.
  abbrev pub port_clocked : Port → Hw → Bool
  port_clocked port h = bit (read Reg.rcc_ahb4enr h) (clock_bit port)

  abbrev pub rtc_clocked : Hw → Bool
  rtc_clocked h = bit (read Reg.rcc_apb4enr h) 16

  abbrev pub backup_open : Hw → Bool
  backup_open h = rtc_clocked h && bit (read Reg.pwr_cr1 h) 8

  -- The registers of USB are there once its clock is on.
  abbrev pub is_there : Reg → Hw → Bool
  is_there Reg.otg_gotgctl h = bit (read Reg.rcc_ahb1enr h) 27
  is_there Reg.otg_gusbcfg h = bit (read Reg.rcc_ahb1enr h) 27
  is_there _ h = true

  abbrev pub accessible : Op → Hw → Bool
  accessible (Op.clear r mask) h = is_there r h
  accessible (Op.set_bits r value) h = is_there r h
  accessible (Op.replace r mask value) h = is_there r h
  accessible (Op.put r value) h = is_there r h
  accessible (Op.wait w) h = is_there (flag_reg K F w) h
  accessible Op.dsb h = true

  -- An access to a peripheral that has no clock, or to the backup register while it is closed, is lost:
  -- that is `none`, like a loop that runs out of fuel.
  unfoldable pub set_up : ℕ → Setup → Mcu Hw → Option (Mcu Hw)
  set_up fuel (on_chip op) m =
      let done = Option.map (λ h. record m { hw = h }) (step K F fuel op m.hw) in
      if accessible op m.hw then done else none
  set_up fuel (on_port port g) m =
      if port_clocked port m.hw
      then some (record m { regs = update_regs m.regs port (g (m.regs port)) })
      else none
  set_up fuel read_backup m = if rtc_clocked m.hw then some m else none
  set_up fuel (write_backup v) m = if backup_open m.hw then some (record m { bkp0r = v }) else none
  set_up fuel (call e) m = some (record m { calls = m.calls ++ (e ∷ []) })

  unfoldable pub set_up_all : ℕ → List Setup → Mcu Hw → Option (Mcu Hw)
  set_up_all fuel [] m = some m
  set_up_all fuel (s ∷ ss) m = Option.bind (set_up fuel s m) (λ m'. set_up_all fuel ss m')
