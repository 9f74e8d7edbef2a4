-- ===== src/BootJump.antt =====
-- The code of src/boot_jump.c: the jump to the application, as the row of its accesses.
pub mod Handover
mod Tests
use cs7000p_bootloader.Base.{ℕ, zero, suc, ◌+◌, List, [], ◌∷◌, ◌++◌}

-- `APP_BASE_ADDR`.
abbrev pub app_base_addr : ℕ
app_base_addr = 0x08100000

-- A write to a register of the core, a change of its stack pointer or of the interrupt mask, a
-- barrier, or the call of the application.
pub data Step : Type 0 where
  disable_irq dsb isb : Step
  systick_ctrl systick_val vtor set_msp : ℕ → Step
  nvic_icer nvic_icpr : (i v : ℕ) → Step
  call : ℕ → Step

-- The loop over the registers of the interrupt controller, with `n` rounds left at index `i`.
unfoldable pub nvic_steps : ℕ → ℕ → List Step
nvic_steps i zero = []
nvic_steps i (suc n) =
    Step.nvic_icer i 0xFFFFFFFF ∷ Step.nvic_icpr i 0xFFFFFFFF ∷ nvic_steps (i + 1) n

-- `jump_to_application`, where the word at address `a` of the flash is `word a`. The check of the two
-- words has an empty body.
unfoldable pub jump_to_application : (ℕ → ℕ) → List Step
jump_to_application word =
    let app_msp = word app_base_addr in
    let app_reset = word (app_base_addr + 4) in
    Step.disable_irq
    ∷ Step.systick_ctrl 0
    ∷ Step.systick_val 0
    ∷ (nvic_steps 0 8
        ++ (Step.vtor app_base_addr
            ∷ Step.set_msp app_msp
            ∷ Step.dsb
            ∷ Step.isb
            ∷ Step.call app_reset
            ∷ []))
