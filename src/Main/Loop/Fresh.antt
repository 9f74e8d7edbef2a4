-- ===== src/Main/Loop/Fresh.antt =====
-- The main loop of src/main.c from the static variables as the program starts with them.
use cs7000p_bootloader.Base.{
  ℕ, ◌+◌, ◌*◌, ◌<◌, ◌≡◌, refl, ◌∙◌, ap, true, false, List, ◌++◌, some, arith, length,
  length-replicate, replicate,
}
use cs7000p_bootloader.Bus.{Hardware, Bus}
use cs7000p_bootloader.Flash
use cs7000p_bootloader.Flash.{Flash, FlashMasks, OpState, xfer_bufsize}
use cs7000p_bootloader.Flash.Image.{image, zeros-IsBytes}
use cs7000p_bootloader.Flash.Progress.{Timing}
use cs7000p_bootloader.Flash.Sound.{IsContext}
use cs7000p_bootloader.Dfu.{DfuCodes, DfuseOp, Dfuse, mount}
use cs7000p_bootloader.Dfu.Effects.{AreCodes}
use cs7000p_bootloader.Dfu.Session.{Session, init-image}
use cs7000p_bootloader.Main.Loop.{Events, Machine, rounds}
use cs7000p_bootloader.Main.Loop.Rounds.{AllEvents}
use cs7000p_bootloader.Main.Loop.Served.{IsCallback, IsPatient, rounds_complete}

module _ {Hw : Type 0} where
  -- `flash_ctx`, `dfuse_ctx` and the static variables of the tasks, before `main`.
  abbrev pub zeroed_flash : Bus Hw → Flash Hw
  zeroed_flash b = record {
    state = OpState.idle;
    addr = 0;
    buffer = replicate xfer_bufsize 0;
    len = 0;
    offset = 0;
    bus = b;
  }

  abbrev pub zeroed_dfuse : Bus Hw → Dfuse Hw
  zeroed_dfuse b = record {
    base_addr = 0;
    have_addr = false;
    op = DfuseOp.idle;
    current_addr = 0;
    last_was_get_cmds = false;
    flash = zeroed_flash b;
  }

  abbrev pub fresh : Bus Hw → Machine Hw
  fresh b = record {
    dfu = zeroed_dfuse b;
    led = record { start_ms = 0; led_state = true };
    btn_prev = false;
  }

module _ (H : Hardware) (C : FlashMasks) (U : DfuCodes) where
  -- The `flash_init` of `main`, and the mount that comes before the first request.
  abbrev pub mounted : Bus H.Hw → Machine H.Hw
  mounted b =
      let d = zeroed_dfuse b in
      record (fresh b) { dfu = mount H C U (record d { flash = Flash.init H C d.flash }) }

  pub mounted-IsContext : (b : Bus H.Hw) → IsContext (mounted b).dfu.flash
  unfolding mount Flash.init
  mounted-IsContext b = record {
    within = omega arith;
    fits = omega arith;
    size = length-replicate {A = ℕ} xfer_bufsize 0;
    bytes = zeros-IsBytes xfer_bufsize;
  }

  pub mounted-idle : (b : Bus H.Hw) → (mounted b).dfu.flash.state ≡ OpState.idle
  unfolding mount Flash.init
  mounted-idle b = refl

  pub mounted-image : (b : Bus H.Hw) → image (mounted b).dfu.flash.bus.log ≡ image b.log
  unfolding mount
  mounted-image b =
      init-image H C U (Flash.init H C (zeroed_flash b)) ∙ init-image H C U (zeroed_flash b)

  -- From the static variables at the start of the program, `flash_init` and a mount: rounds of the main
  -- loop with any callbacks whose requests are well formed, and then enough rounds in which the
  -- host waits, come to their end. Then the flash is idle, and the accesses have stored what the
  -- session of the first rounds promises and nothing else. The chip works off its queues within
  -- `limit` reads.
  pub mounted-rounds :
      {limit : ℕ} (b : Bus H.Hw) (es quiet : List Events)
      → Timing H C limit
      → AreCodes U
      → AllEvents IsCallback es
      → AllEvents (IsPatient H C U) quiet
      → (3 * xfer_bufsize + 5) * (limit + 1) < length quiet
      → (m' : Machine H.Hw) × (m'' : Machine H.Hw) × (w : List (ℕ × ℕ)) × (rounds H C U es
            (mounted b)
          ≡ some m')
        × Session H C U (mounted b).dfu m'.dfu w
        × (rounds H C U quiet m' ≡ some m'')
        × (m''.dfu.flash.state ≡ OpState.idle)
        × (image m''.dfu.flash.bus.log ≡ image b.log ++ w)
  mounted-rounds b es quiet T k q p enough =
      let (m', m'', w, h, s, h', rest, stored) =
        rounds_complete H C U (mounted b) es quiet T k (mounted-IsContext b) (mounted-idle b) q p
          enough in
      (m', m'', w, h, s, h', rest, stored ∙ ap (λ l. l ++ w) (mounted-image b))
