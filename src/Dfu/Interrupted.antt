-- ===== src/Dfu/Interrupted.antt =====
-- What an abort and a new mount do to an operation of src/dfu_flash.c that is under way.
use mathlib.Core.Option
use cs7000p_bootloader.Base.{◌≤◌, ◌<◌, ◌≡◌, refl, ◌∙◌, true, false, ◌&&◌, arith, leb, ltb, ◌==◌}
use cs7000p_bootloader.Bus.{Hardware}
use cs7000p_bootloader.Flash
use cs7000p_bootloader.Flash.{Flash, FlashMasks, OpState, is_idle, is_busy, write_async}
use cs7000p_bootloader.Flash.Image.{image}
use cs7000p_bootloader.Dfu.{
  DfuCodes, Request, Response, Dfuse, respond, reply, start_write, write_memory, get_status, abort,
  mount,
}
use cs7000p_bootloader.Dfu.Download.{get_status_block}
use cs7000p_bootloader.Dfu.Session.{init-image}

module _ (H : Hardware) (C : FlashMasks) (U : DfuCodes) where
  -- A mount makes the driver idle, whatever it was doing: the mount itself stores nothing, and
  -- `flash_process` does nothing more, so that what was left of a write is never stored.
  pub mount_cuts :
      (d : Dfuse H.Hw)
      → let d' = mount H C U d in
        (is_busy H C d'.flash ≡ false)
        × (image d'.flash.bus.log ≡ image d.flash.bus.log)
        × (Flash.process H C d'.flash ≡ d'.flash)
  unfolding mount is_busy Flash.init Flash.process Flash.process_in
  mount_cuts d = (refl, init-image H C U d.flash, refl)

  -- An abort does not reach the driver: until the operation that is under way has ended, the first
  -- GETSTATUS after the download of a block is answered ERROR with ERR_ADDRESS, and nothing
  -- changes.
  pub abort_refuses :
      (req : Request) (r : Response) (d : Dfuse H.Hw)
      → 2 ≤ req.block
      → 0 < req.len
      → req.state ≡ U.dnload_sync
      → d.have_addr ≡ true
      → is_idle d.flash.state ≡ false
      → get_status H C U 0 req r (abort H C U d)
        ≡ reply H C U (respond U.err_address U.error 0 r) (abort H C U d)
  unfolding write_memory start_write abort write_async Option.bind
  abort_refuses req r d hb hl st ha busy =
      let is_data : (leb 2 req.block && ltb 0 req.len && d.have_addr) ≡ true = ground arith in
      let first : ((req.state == U.dnload_sync) && true) ≡ true = ground arith in
      get_status_block H C U req r _ hb ∙ rw (is_data, first, busy) refl
