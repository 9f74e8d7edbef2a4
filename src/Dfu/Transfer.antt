-- ===== src/Dfu/Transfer.antt =====
-- A host that downloads an image, block by block, to the callbacks of src/dfu_tinyusb.c.
pub mod Slices
pub mod Whole
use mathlib.Core.Option
use cs7000p_bootloader.Base.{
  ℕ, zero, suc, ◌+◌, Option, none, some, List, [], ◌∷◌, ◌==◌, ◌&&◌, if◌then◌else◌, length, take,
  drop, u16, min,
}
use cs7000p_bootloader.Bus.{Hardware}
use cs7000p_bootloader.Flash.{FlashMasks, xfer_bufsize, wait_idle}
use cs7000p_bootloader.Dfu.{DfuCodes, Request, Response, Dfuse, Answer, get_status}

module _ (H : Hardware) (C : FlashMasks) (U : DfuCodes) where
  -- The host goes on if the answer has the status OK and this state.
  unfoldable pub expect : (state : ℕ) → Answer H.Hw → Option (Dfuse H.Hw)
  expect state a = if (a.resp.status == U.ok) && (a.resp.state == state) then some a.dfu else none

  -- The device has the first bytes of `bytes`, up to a transfer, in its buffer as the block of number
  -- `2 + k`, a 16-bit number. The host asks for the status, waits until the main loop has brought the
  -- flash to rest, and asks again.
  abbrev pub block_of : (state k : ℕ) → List ℕ → Request
  block_of state k bytes = record {
    state = state;
    block = u16 (2 + k);
    len = min xfer_bufsize (length bytes);
    buffer = take xfer_bufsize bytes;
  }

  unfoldable pub send_block : (fuel k : ℕ) → List ℕ → Response → Dfuse H.Hw → Option (Dfuse H.Hw)
  send_block fuel k bytes r d =
      Option.bind (get_status H C U 0 (block_of U.dnload_sync k bytes) r d) (λ a.
        Option.bind (expect U.dnbusy a) (λ busy. Option.bind (wait_idle H C fuel busy.flash) (λ g.
          Option.bind (get_status H C U 0 (block_of U.dnbusy k bytes) r (record busy { flash = g }))
            (expect U.dnload_idle))))

  -- An image in at most `n` blocks, of which the first has the number `2 + k`.
  unfoldable pub send_image :
      (fuel k : ℕ) → List ℕ → Response → ℕ → Dfuse H.Hw → Option (Dfuse H.Hw)
  send_image fuel k [] r n d = some d
  send_image fuel k (x ∷ xs) r zero d = none
  send_image fuel k (x ∷ xs) r (suc n) d =
      Option.bind (send_block fuel k (x ∷ xs) r d)
        (λ d'. send_image fuel (k + 1) (drop xfer_bufsize (x ∷ xs)) r n d')
