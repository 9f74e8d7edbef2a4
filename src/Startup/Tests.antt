-- ===== src/Startup/Tests.antt =====
-- A start with sections of a few bytes.
use cs7000p_bootloader.Base.{get_or, ℕ, ◌≡◌, inl, arith, true, false, some, [], ◌∷◌}
use cs7000p_bootloader.Startup.{Memory, Layout, Step, Cpu, program_startup, at_main}
use cs7000p_bootloader.Startup.Vectors.{Routine, reserved, vector_table}
use cs7000p_bootloader.Startup.Vectors.Dispatch.{runs, respond, respond-vector_table}
use cs7000p_bootloader.Startup.Memory.{memory_at, IsLayout, program_startup_lem}

-- The sections as the linker script places them: code and image in flash, the others in RAM.
abbrev layout : Layout
layout = record {
  etext = 0x08004000;
  data_start = 0x24000000;
  edata = 0x24000010;
  bss_start = 0x24000010;
  bss_end = 0x24000400;
}

layout-IsLayout : IsLayout layout
layout-IsLayout = record {
  data_order = omega arith;
  bss_order = omega arith;
  sections = omega arith;
  image = inl (omega arith);
}

-- A memory in which each byte tells its address.
abbrev memory : Memory
memory a = a

abbrev cpu : Cpu
cpu = record { memory = memory; masked = false }

program_startup_lem_example :
    (c' : Cpu) × (at_main (λ m. m) (program_startup layout) cpu ≡ some (c', Step.system_reset ∷ []))
    × (c'.masked ≡ true)
    × ((a : ℕ) → c'.memory a ≡ memory_at (λ m. m) layout memory a)
program_startup_lem_example = program_startup_lem (λ m. m) layout cpu layout-IsLayout

-- The USB interrupt has its routine.
respond-vector_table_example :
    respond (get_or vector_table 117 reserved) ≡ runs Routine.otg_fs_irq_handler
respond-vector_table_example = respond-vector_table 117 (omega arith)
