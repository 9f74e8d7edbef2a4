-- ===== src/Main/Loop/Download.antt =====
-- The download of a whole image, from the start of the program of src/main.c.
use cs7000p_bootloader.Base.{
  ℕ, ◌+◌, ◌*◌, ◌^◌, ◌≤◌, ◌≡◌, ◌≢◌, refl, ap, ◌∙◌, some, List, ◌++◌, arith, length,
}
use cs7000p_bootloader.Bus.{Hardware, Bus}
use cs7000p_bootloader.Flash.{FlashMasks, xfer_bufsize}
use cs7000p_bootloader.Flash.Image.{image, placed, IsBytes}
use cs7000p_bootloader.Flash.Progress.{Timing}
use cs7000p_bootloader.Dfu.{DfuCodes, Response, Dfuse, mount}
use cs7000p_bootloader.Dfu.Bounds.{Within, Within-placed}
use cs7000p_bootloader.Dfu.Transfer.{send_image}
use cs7000p_bootloader.Dfu.Transfer.Whole.{IsQuiet, send_image-whole}
use cs7000p_bootloader.Main.Loop.Fresh.{mounted, mounted-IsContext, mounted-idle, mounted-image}

module _ (H : Hardware) (C : FlashMasks) (U : DfuCodes) where
  mounted-IsQuiet : (b : Bus H.Hw) → IsQuiet (mounted H C U b).dfu
  unfolding mount
  mounted-IsQuiet b = record {
    have_addr = refl;
    op = refl;
    rests = mounted-idle H C U b;
    size = (mounted-IsContext H C U b).size;
    bytes = (mounted-IsContext H C U b).bytes;
  }

  mounted-base : (b : Bus H.Hw) → (mounted H C U b).dfu.base_addr ≡ 0x08100000
  unfolding mount
  mounted-base b = refl

  -- From the static variables at the start of the program, `flash_init` and a mount: a host that
  -- downloads any image of up to a megabyte, block after block, and that goes on only if the first
  -- status of a block is DNBUSY and the one after the flash has come to rest is DNLOAD_IDLE, comes to
  -- its end. The accesses have then stored the image, each byte once, in order, from 0x08100000 on and
  -- within bank 2, and nothing else, and the device is as quiet as before. The chip works off its
  -- queues within `limit` reads, and the main loop has for each block the rounds that this takes.
  pub mounted-download :
      {limit : ℕ} (fuel : ℕ) (bytes : List ℕ) (r : Response) (b : Bus H.Hw)
      → Timing H C limit
      → U.dnload_sync ≢ U.dnbusy
      → IsBytes bytes
      → length bytes ≤ 2 ^ 20
      → (3 * xfer_bufsize + 5) * (limit + 1) ≤ fuel
      → let stores = placed bytes 0x08100000 0 (length bytes) in
        (d' : Dfuse H.Hw) × (send_image H C U fuel 0 bytes r 1024 (mounted H C U b).dfu ≡ some d')
        × (image d'.flash.bus.log ≡ image b.log ++ stores)
        × Within 0x08100000 0x08200000 stores
        × IsQuiet d'
  mounted-download fuel bytes r b T ne v small enough =
      let (d', ran, s) =
        send_image-whole H C U T ne fuel 1024 bytes r (mounted H C U b).dfu (mounted-IsQuiet b) v
          (omega arith) (omega arith) enough in
      (
        d',
        ran,
        s.stored
            ∙ ap
                (λ (l : List (ℕ × ℕ)).
                  l ++ placed bytes (mounted H C U b).dfu.base_addr 0 (length bytes))
                (mounted-image H C U b)
            ∙ ap (λ a. image b.log ++ placed bytes a 0 (length bytes)) (mounted-base b),
        Within-placed _ _ bytes 0x08100000 0 (length bytes) (omega arith) (omega arith)
            (omega arith),
        s.quiet,
      )
