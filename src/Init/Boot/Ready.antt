-- ===== src/Init/Boot/Ready.antt =====
-- The way through `main` that enters the bootloader leaves USB ready.
use cs7000p_bootloader.Base.{ℕ, ◌≡◌, true, List, [], ◌∷◌, ◌++◌}
use cs7000p_bootloader.Bus.{gpioa}
use cs7000p_bootloader.Main.{main}
use cs7000p_bootloader.Chip.{Reg, Chip, FlagMasks}
use cs7000p_bootloader.Chip.Shadow.{Bits}
use cs7000p_bootloader.Chip.Laws.{bits_of, IsChip}
use cs7000p_bootloader.Clock.Tree.{IsClocked}
use cs7000p_bootloader.Init.{Extern, Mcu}
use cs7000p_bootloader.Init.Laws.{View, view}
use cs7000p_bootloader.Init.Boot.Ways.{statements, off_view}
use cs7000p_bootloader.Init.Boot.Pins.{IsUsbPin}

-- The registers of USB: its clock, the detector of its supply, a session that is taken for valid without
-- VBUS, and the role of a device.
pub record IsEnabled (f : Bits) : Type 0 where
  pub syscfg : f Reg.rcc_apb4enr 1 ≡ true
  pub otg_clock : f Reg.rcc_ahb1enr 27 ≡ true
  pub supply_detector : f Reg.pwr_cr3 24 ≡ true
  pub session_override : f Reg.otg_gotgctl 6 ≡ true
  pub session_valid : f Reg.otg_gotgctl 7 ≡ true
  pub device_mode : f Reg.otg_gusbcfg 30 ≡ true

-- The calls of the set-up, in their order. The write to the red LED masks interrupts and unmasks them,
-- so that they are on before USB and the timer are set up.
abbrev pub set_up_calls : List Extern
set_up_calls =
    Extern.disable_irq
    ∷ Extern.enable_irq
    ∷ Extern.nvic_set_priority 101 14
    ∷ Extern.tusb_init
    ∷ Extern.nvic_set_priority_grouping 7
    ∷ Extern.sys_tick_config 399999
    ∷ Extern.enable_irq
    ∷ []

-- The statements of the way that enters the bootloader.
abbrev entering : View → View
entering w = view (statements (main 0 0)) (off_view w)

module _ (K : Chip) (F : FlagMasks) {limit : ℕ} (L : IsChip K F limit) where
  -- The state of the loop of the bootloader, from the state `m` of a reset.
  pub record IsReady (m m' : Mcu K.Hw) : Type 0 where
    pub clocked : IsClocked (bits_of K m'.hw)
    pub enabled : IsEnabled (bits_of K m'.hw)
    pub dm : IsUsbPin 11 (m'.regs gpioa)
    pub dp : IsUsbPin 12 (m'.regs gpioa)
    pub bkp0r : m'.bkp0r ≡ m.bkp0r
    pub calls : m'.calls ≡ m.calls ++ set_up_calls
