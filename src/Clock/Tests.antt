-- ===== src/Clock/Tests.antt =====
-- The clocks on the chip of Chip.Tests.
use cs7000p_bootloader.Base.{◌≡◌, refl, Bool, true, false, ◌&&◌}
use cs7000p_bootloader.Chip.Laws.{bits_of}
use cs7000p_bootloader.Chip.Tests.{slow, after_reset, after_reset-bits}
use cs7000p_bootloader.Clock.Tree.{is_reset_bit, AreOff}

pub after_reset-AreOff : AreOff (bits_of slow after_reset)
after_reset-AreOff r i = rw (after_reset-bits r i) (unset (is_reset_bit r i))
  where
    unset : (b : Bool) → (b && false) ≡ false
    unset true = refl
    unset false = refl
