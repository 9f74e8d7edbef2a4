-- ===== src/Bus.antt =====
-- The peripheral bus: every volatile access of src/dfu_flash.c and src/gpio.c as one event. The
-- peripherals are not part of the repository: `Hardware` stands for them.
use cs7000p_bootloader.Base.{ℕ, ◌+◌, List, [], ◌∷◌, ◌++◌}
use cs7000p_bootloader.Base.{◌<<<◌}

-- The ports that the pin map of include/pinmap.h names, and port H.
pub data Port : Type 0 where
  gpioa gpiob gpioc gpiod gpioe gpioh : Port

-- A write to a register of the flash interface (bank 2) or of a port, a store to the memory that
-- the flash is mapped to, a barrier, or a change of the interrupt mask.
pub data Access : Type 0 where
  keyr2 cr2 ccr2 : ℕ → Access
  store32 store8 : ℕ → ℕ → Access
  bsrr : Port → ℕ → Access
  isb dsb irq_off irq_on : Access

-- `gpio_setPin` and `gpio_clearPin`.
unfoldable pub set_pin : Port → ℕ → Access
set_pin port pin = bsrr port (1 <<< pin)

unfoldable pub clear_pin : Port → ℕ → Access
clear_pin port pin = bsrr port (1 <<< (pin + 16))

-- The peripherals: what a read of each register, and of each byte of the memory, returns, and how
-- they change when something is read and when an access reaches them.
pub record Hardware : Type 1 where
  pub Hw : Type 0
  pub sr2 : Hw → ℕ
  pub cr2 : Hw → ℕ
  pub ccr2 : Hw → ℕ
  pub mem : Hw → ℕ → ℕ
  pub elapse : Hw → Hw
  pub write : Access → Hw → Hw

-- The peripherals and the accesses that have reached them, oldest first.
pub record Bus (Hw : Type 0) : Type 0 where
  pub hw : Hw
  pub log : List Access

module _ (H : Hardware) where
  open H use {Hw}

  unfoldable pub read : Bus Hw → Bus Hw
  read b = record b { hw = H.elapse b.hw }

  unfoldable pub emit : Access → Bus Hw → Bus Hw
  emit a b = record { hw = H.write a b.hw; log = b.log ++ (a ∷ []) }

  unfoldable pub emit_all : List Access → Bus Hw → Bus Hw
  emit_all [] b = b
  emit_all (a ∷ as') b = emit_all as' (emit a b)

  -- `FLASH->CR2 op= …` and `FLASH->CCR2 op= …`: a read, then a write.
  unfoldable pub update_cr2 : (ℕ → ℕ) → Bus Hw → Bus Hw
  update_cr2 f b = emit (Access.cr2 (f (H.cr2 b.hw))) (read b)

  unfoldable pub update_ccr2 : (ℕ → ℕ) → Bus Hw → Bus Hw
  update_ccr2 f b = emit (Access.ccr2 (f (H.ccr2 b.hw))) (read b)
