-- ===== src/Chip.antt =====
-- The registers that src/clock.c and src/init.c set up, as rows of register accesses. The peripherals are
-- not part of the repository: `Chip` stands for them.
pub mod Shadow
pub mod Laws
pub mod Tests
use cs7000p_bootloader.Base.{
  ℕ, zero, suc, ◌+◌, Bool, true, false, not, ◌&&◌, ◌||◌, Option, none, some, List, [], ◌∷◌, bit_and,
  bit_or, ◌==◌, if◌then◌else◌, any_set, not32,
}
use mathlib.Core.Option

pub data Reg : Type 0 where
  pwr_cr1 pwr_cr3 pwr_d3cr rcc_cr rcc_pllckselr rcc_pll1divr rcc_pllcfgr rcc_d1cfgr rcc_d2cfgr
        rcc_d3cfgr flash_acr rcc_cfgr rcc_pll3divr rcc_d2ccip2r rcc_apb4enr rcc_ahb1enr rcc_ahb4enr
        otg_gotgctl otg_gusbcfg :
      Reg

-- The flags that the code waits for.
pub data Wait : Type 0 where
  dbp_set vos_ready hse_ready pll1_ready pll1_selected pll3_ready usb33_ready : Wait

-- One statement: `reg &= ~mask`, `reg |= value`, `reg = (reg & ~mask) | value`, `reg = value`, a loop that
-- waits for a flag, or `__DSB()`.
pub data Op : Type 0 where
  clear : Reg → (mask : ℕ) → Op
  set_bits : Reg → (value : ℕ) → Op
  replace : Reg → (mask value : ℕ) → Op
  put : Reg → (value : ℕ) → Op
  wait : Wait → Op
  dsb : Op

-- What a read of a register returns, and how the chip changes by a read and by a write.
pub record Chip : Type 1 where
  pub Hw : Type 0
  pub read : Reg → Hw → ℕ
  pub elapse : Hw → Hw
  pub write : Reg → ℕ → Hw → Hw

-- The masks of the flags in the manufacturer's header, and the value of SWS that stands for PLL1.
pub record FlagMasks : Type 0 where
  pub dbp : ℕ
  pub vosrdy : ℕ
  pub hserdy : ℕ
  pub pll1rdy : ℕ
  pub sws : ℕ
  pub sws_pll1 : ℕ
  pub pll3rdy : ℕ
  pub usb33rdy : ℕ

module _ (K : Chip) (F : FlagMasks) where
  open K use {Hw, read, elapse, write}

  abbrev pub flag_reg : Wait → Reg
  flag_reg Wait.dbp_set = Reg.pwr_cr1
  flag_reg Wait.vos_ready = Reg.pwr_d3cr
  flag_reg Wait.hse_ready = Reg.rcc_cr
  flag_reg Wait.pll1_ready = Reg.rcc_cr
  flag_reg Wait.pll1_selected = Reg.rcc_cfgr
  flag_reg Wait.pll3_ready = Reg.rcc_cr
  flag_reg Wait.usb33_ready = Reg.pwr_cr3

  abbrev pub is_done : Wait → ℕ → Bool
  is_done Wait.dbp_set v = any_set v F.dbp
  is_done Wait.vos_ready v = any_set v F.vosrdy
  is_done Wait.hse_ready v = any_set v F.hserdy
  is_done Wait.pll1_ready v = any_set v F.pll1rdy
  is_done Wait.pll1_selected v = bit_and v F.sws == F.sws_pll1
  is_done Wait.pll3_ready v = any_set v F.pll3rdy
  is_done Wait.usb33_ready v = any_set v F.usb33rdy

  -- A waiting loop with fuel, and `none` if it runs out.
  unfoldable pub await : Wait → ℕ → Hw → Option Hw
  await w zero h = none
  await w (suc fuel) h =
      let rest = await w fuel (elapse h) in
      if is_done w (read (flag_reg w) h) then some (elapse h) else rest

  -- One statement, where each loop has the same fuel.
  unfoldable pub step : ℕ → Op → Hw → Option Hw
  step fuel (Op.clear r mask) h = some (write r (bit_and (read r h) (not32 mask)) (elapse h))
  step fuel (Op.set_bits r value) h = some (write r (bit_or (read r h) value) (elapse h))
  step fuel (Op.replace r mask value) h =
      some (write r (bit_or (bit_and (read r h) (not32 mask)) value) (elapse h))
  step fuel (Op.put r value) h = some (write r value h)
  step fuel (Op.wait w) h = await w fuel h
  step fuel Op.dsb h = some h

  unfoldable pub run : ℕ → List Op → Hw → Option Hw
  run fuel [] h = some h
  run fuel (op ∷ ops) h = Option.bind (step fuel op h) (λ h'. run fuel ops h')
