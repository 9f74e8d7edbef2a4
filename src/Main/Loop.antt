-- ===== src/Main/Loop.antt =====
-- The main loop of src/main.c: the callbacks that `tud_task` makes, the LED, the serial line and the
-- flash, round after round.
pub mod Rounds
pub mod Served
pub mod Fresh
pub mod Download
mod Tests
use mathlib.Core.Option
use cs7000p_bootloader.Base.{ℕ, Bool, List, [], ◌∷◌, Option, some, none}
use cs7000p_bootloader.Bus.{Hardware}
use cs7000p_bootloader.Flash
use cs7000p_bootloader.Flash.{FlashMasks}
use cs7000p_bootloader.Gpio.{Registers}
use cs7000p_bootloader.Dfu.{DfuCodes, Request, Response, Dfuse, Answer, get_status, upload, abort}
use cs7000p_bootloader.Main.{Led, led_blinking_task, button_read, cdc_task}

-- What TinyUSB can call from `tud_task` once the device is configured.
pub data Callback : Type 0 where
  status_asked : (alt : ℕ) → Request → Response → Callback
  block_read : (alt block len : ℕ) → Callback
  aborted : Callback

-- What a round meets from outside: the callbacks of `tud_task`, `g_tickCount` as the LED's task and as
-- the serial line's task find it, what has been received, and the registers of port E.
pub record Events : Type 0 where
  pub callbacks : List Callback
  pub led_tick : ℕ
  pub cdc_tick : ℕ
  pub received : Option (List ℕ)
  pub port_e : Registers

-- What a round writes: to the LED and to the serial line.
pub record Output : Type 0 where
  pub leds : List Bool
  pub transfers : List (List ℕ)

pub record Machine (Hw : Type 0) : Type 0 where
  pub dfu : Dfuse Hw
  pub led : Led
  pub btn_prev : Bool

module _ (H : Hardware) (C : FlashMasks) (U : DfuCodes) where
  -- A callback, where `none` is a `memcpy` out of bounds.
  unfoldable pub serve : Callback → Dfuse H.Hw → Option (Dfuse H.Hw)
  serve (Callback.status_asked alt req r) d =
      Option.bind (get_status H C U alt req r d) (λ a. some a.dfu)
  serve (Callback.block_read alt block len) d = some (upload H C U alt block len d).1
  serve Callback.aborted d = some (abort H C U d)

  unfoldable pub serve_all : List Callback → Dfuse H.Hw → Option (Dfuse H.Hw)
  serve_all [] d = some d
  serve_all (c ∷ cs) d = Option.bind (serve c d) (λ d'. serve_all cs d')

  -- The three tasks behind `tud_task`.
  unfoldable pub other_tasks : Events → Machine H.Hw → Dfuse H.Hw → Output × Machine H.Hw
  other_tasks e m d =
      let (leds, led') = led_blinking_task e.led_tick m.led in
      let (transfers, btn_prev') =
        cdc_task e.received e.cdc_tick (button_read e.port_e) m.btn_prev in
      (
        record { leds = leds; transfers = transfers },
        record {
          dfu = record d { flash = Flash.process H C d.flash };
          led = led';
          btn_prev = btn_prev';
        },
      )

  -- One round of the loop, and a row of rounds.
  unfoldable pub round : Events → Machine H.Hw → Option (Output × Machine H.Hw)
  round e m = Option.bind (serve_all e.callbacks m.dfu) (λ d. some (other_tasks e m d))

  unfoldable pub rounds : List Events → Machine H.Hw → Option (Machine H.Hw)
  rounds [] m = some m
  rounds (e ∷ es) m = Option.bind (round e m) (λ (_, m'). rounds es m')
