-- ===== src/PinMap/Tests.antt =====
-- The theorems on the pins of include/pinmap.h at concrete inputs.
use cs7000p_bootloader.Base.{◌≡◌, refl, true, arith}
use cs7000p_bootloader.Gpio.Levels.{out_level, pin_write}
use cs7000p_bootloader.Gpio.Tests.{all_low, board, shown_chain, outputs-IsShown}
use cs7000p_bootloader.PinMap.{PinName, pin}
use cs7000p_bootloader.PinMap.Owner.{first_name}
use cs7000p_bootloader.PinMap.Writes.{pin_write-others}

lights_differ : ¬ (first_name PinName.green_led ≡ first_name PinName.red_led)
unfolding first_name
lights_differ e = grind arith

-- The red light stays as it is when the green one is lit, by the same byte of the shift register.
pin_write-others_example :
    out_level all_low shown_chain
      (pin PinName.red_led)
      (pin_write (pin PinName.green_led) true board)
    ≡ out_level all_low shown_chain (pin PinName.red_led) board
unfolding pin
pin_write-others_example =
    pin_write-others all_low shown_chain PinName.green_led PinName.red_led true board lights_differ
      refl refl outputs-IsShown
