-- ===== src/Startup.antt =====
-- The start of the program in src/startup.c: the sections that the linker script lays out in memory.
pub mod Memory
pub mod Vectors
mod Tests
use cs7000p_bootloader.Base.{
  ℕ, zero, suc, ◌+◌, ◌-◌, Bool, true, Option, none, some, List, [], ◌∷◌, ◌==◌, if◌then◌else◌,
}

-- The bytes of the memory.
abbrev pub Memory : Type 0
Memory = ℕ → ℕ

abbrev pub store : ℕ → ℕ → Memory → Memory
store addr v m a = if a == addr then v else m a

-- The symbols of the linker script.
pub record Layout : Type 0 where
  pub etext : ℕ
  pub data_start : ℕ
  pub edata : ℕ
  pub bss_start : ℕ
  pub bss_end : ℕ

-- `memcpy` and `memset` of the C library, a byte at a time.
unfoldable pub memcpy : (dst src : ℕ) → ℕ → Memory → Memory
memcpy dst src zero m = m
memcpy dst src (suc n) m = memcpy (dst + 1) (src + 1) n (store dst (m src) m)

unfoldable pub memset : (dst v : ℕ) → ℕ → Memory → Memory
memset dst v zero m = m
memset dst v (suc n) m = memset (dst + 1) v n (store dst v m)

-- The statements of `program_startup`; `main` and the reset are calls that do not come back in it.
pub data Step : Type 0 where
  disable_irq system_init : Step
  copy : (dst src n : ℕ) → Step
  fill : (dst v n : ℕ) → Step
  main system_reset : Step

unfoldable pub program_startup : Layout → List Step
program_startup l =
    Step.disable_irq
    ∷ Step.system_init
    ∷ Step.copy l.data_start l.etext (l.edata - l.data_start)
    ∷ Step.fill l.bss_start 0 (l.bss_end - l.bss_start)
    ∷ Step.main
    ∷ Step.system_reset
    ∷ []

pub record Cpu : Type 0 where
  pub memory : Memory
  pub masked : Bool

-- What one statement does, where `init` is what `SystemInit` does to the memory.
unfoldable pub on_step : (init : Memory → Memory) → Step → Cpu → Cpu
on_step init Step.disable_irq c = record c { masked = true }
on_step init Step.system_init c = record c { memory = init c.memory }
on_step init (Step.copy dst src n) c = record c { memory = memcpy dst src n c.memory }
on_step init (Step.fill dst v n) c = record c { memory = memset dst v n c.memory }
on_step init Step.main c = c
on_step init Step.system_reset c = c

-- The state in which `main` is called first, and the statements behind the call.
unfoldable pub at_main : (init : Memory → Memory) → List Step → Cpu → Option (Cpu × List Step)
at_main init [] c = none
at_main init (Step.main ∷ l) c = some (c, l)
at_main init (s ∷ l) c = at_main init l (on_step init s c)
