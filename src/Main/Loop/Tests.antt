-- ===== src/Main/Loop/Tests.antt =====
-- Rounds of the main loop on which its theorems are tried.
use cs7000p_bootloader.Base.{
  ℕ, zero, suc, ◌≡◌, false, true, none, some, List, [], ◌∷◌, ◌++◌, arith, length-replicate,
  replicate, length,
}
use cs7000p_bootloader.Flash.{OpState}
use cs7000p_bootloader.Flash.Image.{image, placed, IsBytes, zeros-IsBytes}
use cs7000p_bootloader.Flash.Tests.{masks, Chip, chip, chip-Timing, at_rest}
use cs7000p_bootloader.Dfu.Session.{Session}
use cs7000p_bootloader.Dfu.Tests.{codes, no_response, quiet_device, block_request}
use cs7000p_bootloader.Dfu.SessionTests.{codes-AreCodes, block-IsRequest}
use cs7000p_bootloader.Gpio.{Registers}
use cs7000p_bootloader.Main.Loop.{Callback, Events, Machine, rounds}
use cs7000p_bootloader.Main.Loop.Rounds.{AllEvents}
use cs7000p_bootloader.Main.Loop.Served.{IsPatient}
use cs7000p_bootloader.Dfu.{Dfuse}
use cs7000p_bootloader.Dfu.Bounds.{Within}
use cs7000p_bootloader.Dfu.Transfer.{send_image}
use cs7000p_bootloader.Dfu.Transfer.Whole.{IsQuiet}
use cs7000p_bootloader.Main.Loop.Fresh.{mounted, mounted-rounds}
use cs7000p_bootloader.Main.Loop.Download.{mounted-download}

abbrev key_down : Registers
key_down = record { moder = 0; otyper = 0; pupdr = 0; ospeedr = 0; afr_0 = 0; afr_1 = 0; idr = 0 }

abbrev machine : Machine Chip
machine = record {
  dfu = quiet_device;
  led = record { start_ms = 0; led_state = true };
  btn_prev = false;
}

-- A round in which the host sends a block, and one in which it reads one back.
abbrev block_sent : Events
block_sent = record {
  callbacks = Callback.status_asked 0 (block_request 3) no_response ∷ [];
  led_tick = 250;
  cdc_tick = 251;
  received = some (65 ∷ []);
  port_e = key_down;
}

abbrev calm : Events
calm = record {
  callbacks = Callback.block_read 0 3 6 ∷ [];
  led_tick = 300;
  cdc_tick = 300;
  received = none;
  port_e = key_down;
}

abbrev long_wait : List Events
long_wait = replicate 9232 calm

calm-AllEvents : (n : ℕ) → AllEvents (IsPatient chip masks codes) (replicate n calm)
calm-AllEvents zero = tt
calm-AllEvents (suc n) = ((tt, tt), calm-AllEvents n)

mounted-rounds_example :
    (m' : Machine Chip) × (m'' : Machine Chip) × (w : List (ℕ × ℕ)) × (rounds chip masks codes
        (block_sent ∷ [])
        (mounted chip masks codes at_rest)
      ≡ some m')
    × Session chip masks codes (mounted chip masks codes at_rest).dfu m'.dfu w
    × (rounds chip masks codes long_wait m' ≡ some m'')
    × (m''.dfu.flash.state ≡ OpState.idle)
    × (image m''.dfu.flash.bus.log ≡ image [] ++ w)
mounted-rounds_example =
    mounted-rounds chip masks codes at_rest (block_sent ∷ []) long_wait chip-Timing codes-AreCodes
      ((block-IsRequest, tt), tt) (calm-AllEvents 9232) (omega (arith, length-replicate 9232 calm))

-- An image of two blocks, the second of 478 bytes.
abbrev two_blocks : List ℕ
two_blocks = 7 ∷ 8 ∷ replicate 1500 0

two_blocks-IsBytes : IsBytes two_blocks
two_blocks-IsBytes zero = omega arith
two_blocks-IsBytes (suc zero) = omega arith
two_blocks-IsBytes (suc (suc k)) = zeros-IsBytes 1500 k

mounted-download_example :
    let stores = placed two_blocks 0x08100000 0 (length two_blocks) in
    (d' : Dfuse Chip) × (send_image chip masks codes 9231 0 two_blocks no_response 1024
        (mounted chip masks codes at_rest).dfu
      ≡ some d')
    × (image d'.flash.bus.log ≡ image [] ++ stores)
    × Within 0x08100000 0x08200000 stores
    × IsQuiet d'
mounted-download_example =
    mounted-download chip masks codes 9231 two_blocks no_response at_rest chip-Timing
      codes-AreCodes.sync-busy two_blocks-IsBytes (omega (arith, length-replicate {A = ℕ} 1500 0))
      (omega arith)
