-- ===== src/Init/Boot/Tests.antt =====
-- The set-up on the chip of Chip.Tests.
use cs7000p_bootloader.Base.{ℕ, ◌≡◌, refl, some, [], arith}
use cs7000p_bootloader.Gpio.{Registers}
use cs7000p_bootloader.Main.{main}
use cs7000p_bootloader.Main.Boot.{flag_after}
use cs7000p_bootloader.Chip.Tests.{State, slow, flags, slow-IsChip, after_reset}
use cs7000p_bootloader.Clock.Tests.{after_reset-AreOff}
use cs7000p_bootloader.Clock.Tree.{header}
use cs7000p_bootloader.Init.{Mcu, set_up_all}
use cs7000p_bootloader.Init.Boot.{perform_all}
use cs7000p_bootloader.Init.Boot.Ways.{init_header, main-bkp0r}

-- A port after a reset: its pins are analog.
abbrev reset_port : Registers
reset_port = record {
  moder = 0xFFFFFFFF;
  otyper = 0;
  pupdr = 0;
  ospeedr = 0;
  afr_0 = 0;
  afr_1 = 0;
  idr = 0;
}

abbrev at_reset : ℕ → Mcu State
at_reset flag = record { hw = after_reset; regs = λ port. reset_port; bkp0r = flag; calls = [] }

main-bkp0r_example :
    (m' : Mcu State) × (set_up_all slow flags 4
        (perform_all header init_header (main 7 1))
        (at_reset 7)
      ≡ some m')
    × (m'.bkp0r ≡ flag_after (main 7 1) 7)
main-bkp0r_example =
    main-bkp0r slow flags slow-IsChip header init_header 4 1 (at_reset 7) refl refl (omega arith)
      after_reset-AreOff
