-- ===== src/BootJump/Tests.antt =====
-- A core on which the theorem on src/boot_jump.c is tried.
use mathlib.Core.Option.{some}
use cs7000p_bootloader.Base.{◌+◌, ◌≡◌, false}
use cs7000p_bootloader.BootJump.{jump_to_application}
use cs7000p_bootloader.BootJump.Handover.{
  Core, at_call, IsHandedOver, jump_to_application-IsHandedOver,
}

abbrev busy_core : Core
busy_core = record {
  masked = false;
  timer = 7;
  enabled = λ i. i + 1;
  pending = λ i. 5;
  vectors = 0x08000000;
  msp = 0x20000000;
  synced = false;
}

jump_to_application-IsHandedOver_example :
    (c' : Core) × (at_call (jump_to_application (λ a. a + 1)) busy_core ≡ some (0x08100005, c'))
    × IsHandedOver (λ a. a + 1) c'
jump_to_application-IsHandedOver_example = jump_to_application-IsHandedOver (λ a. a + 1) busy_core
