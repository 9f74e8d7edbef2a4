-- ===== src/Dfu/Download.antt =====
-- A data block through src/dfu_tinyusb.c and src/dfu_flash.c: from the first GETSTATUS after the
-- download to the one that reports its end.
use mathlib.Core.Option
use cs7000p_bootloader.Base.{
  ℕ, ◌+◌, ◌-◌, ◌*◌, ◌≤◌, ◌<◌, ◌≡◌, ◌≢◌, refl, ap, ◌∙◌, true, false, u32, ◌&&◌, some, ◌++◌, arith,
  length, ltb, leb, Bool-cases, inl, inr, ◌==◌, if◌then◌else◌,
}
use cs7000p_bootloader.Bus.{Hardware}
use cs7000p_bootloader.Flash.{
  Flash, FlashMasks, OpState, xfer_bufsize, is_busy, write_async, wait_idle,
}
use cs7000p_bootloader.Flash.Image.{image, placed, IsBytes}
use cs7000p_bootloader.Flash.Buffer.{memcpy-IsCopied}
use cs7000p_bootloader.Flash.Progress.{Timing}
use cs7000p_bootloader.Flash.Started.{write_async-IsStarted}
use cs7000p_bootloader.Flash.Blocking.{started-stores}
use cs7000p_bootloader.Dfu.Words.{block_address_lem}
use cs7000p_bootloader.Dfu.{
  idle, write_busy, op_is_idle, op_is_write, DfuCodes, Request, Response, Dfuse, respond,
  block_address, reply, start_write, poll_write, write_memory, erase_command, set_address,
  get_status,
}

module _ (H : Hardware) (C : FlashMasks) (U : DfuCodes) where
  open U use {dnload_sync, dnbusy, dnload_idle, ok}

  -- A block number from 2 on is never a command.
  pub get_status_block :
      (req : Request) (r : Response) (d : Dfuse H.Hw)
      → 2 ≤ req.block
      → get_status H C U 0 req r d ≡ write_memory H C U req r d
  unfolding get_status set_address erase_command
  get_status_block req r d h = let e : (req.block == 0) ≡ false = ground arith in rw e refl

  -- While the block is being written, GETSTATUS reports it busy, to be polled again after 1 ms, and
  -- changes nothing; once the flash is idle it reports DNLOAD_IDLE, and the DfuSe operation is over.
  pub get_status-poll_write :
      (req : Request) (r : Response) (d : Dfuse H.Hw)
      → 2 ≤ req.block
      → 0 < req.len
      → req.state ≡ dnbusy
      → dnload_sync ≢ dnbusy
      → d.have_addr ≡ true
      → d.op ≡ write_busy
      → get_status H C U 0 req r d ≡ (
          if is_busy H C d.flash
          then reply H C U (respond ok dnbusy 1 r) d
          else reply H C U (respond ok dnload_idle 0 r) (record d { op = idle }))
  unfolding write_memory poll_write
  get_status-poll_write req r d hb hl st ne ha op =
      let is_data : (leb 2 req.block && ltb 0 req.len && d.have_addr) ≡ true = ground arith in
      let not_first : ((req.state == dnload_sync) && op_is_idle d.op) ≡ false = ground arith in
      let polled : ((req.state == dnbusy) && op_is_write d.op) ≡ true = ground arith in
      get_status_block req r d hb ∙ elim (Bool-cases (is_busy H C d.flash)) [
        | inl b ↦ rw (is_data, not_first, polled, b) refl
        | inr b ↦ rw (is_data, not_first, polled, b) refl
      ]

  -- The first GETSTATUS after the download of a block starts the write, and asks for a poll after
  -- 3 ms.
  pub get_status-start_write :
      (req : Request) (r : Response) (d : Dfuse H.Hw) (f : Flash H.Hw)
      → 2 ≤ req.block
      → 0 < req.len
      → req.state ≡ dnload_sync
      → d.have_addr ≡ true
      → d.op ≡ idle
      → let addr = block_address d.base_addr req.block in
        write_async H C addr req.buffer req.len d.flash ≡ some (true, f)
        → get_status H C U 0 req r d
          ≡ reply H C U
              (respond ok dnbusy 3 r)
              (record d { op = write_busy; current_addr = addr; flash = f })
  unfolding write_memory start_write Option.bind
  get_status-start_write req r d f hb hl st ha op e =
      let is_data : (leb 2 req.block && ltb 0 req.len && d.have_addr) ≡ true = ground arith in
      let first : ((req.state == dnload_sync) && op_is_idle d.op) ≡ true = ground arith in
      get_status_block req r d hb ∙ rw (is_data, first, e) refl

  at_rest : (f : Flash H.Hw) → f.state ≡ OpState.idle → is_busy H C f ≡ false
  unfolding is_busy
  at_rest f e = rw e refl

  -- What a host that waits for the block to be written has of it: the answer `first` to its first
  -- GETSTATUS, the flash `g` once the main loop has brought it to rest, and the answer `last` then.
  pub record IsDownloaded (fuel : ℕ) (req : Request) (r r' : Response) (d : Dfuse H.Hw)
      : Type 0 where
    pub busy : Dfuse H.Hw
    pub first : get_status H C U 0 req r d ≡ reply H C U (respond ok dnbusy 3 r) busy
    pub g : Flash H.Hw
    pub rests : wait_idle H C fuel busy.flash ≡ some g
    pub idle_again : g.state ≡ OpState.idle
    pub size : length g.buffer ≡ xfer_bufsize
    pub bytes : IsBytes g.buffer
    pub stored :
        image g.bus.log
        ≡ image d.flash.bus.log
          ++ placed req.buffer (u32 (d.base_addr + (req.block - 2) * xfer_bufsize)) 0 req.len
    pub last :
        get_status H C U 0 (record req { state = dnbusy }) r' (record busy { flash = g })
        ≡ reply H C U (respond ok dnload_idle 0 r') (record d {
          op = idle;
          current_addr = u32 (d.base_addr + (req.block - 2) * xfer_bufsize);
          flash = g;
        })

  -- A data block of up to 1024 bytes that is downloaded while nothing is under way is written
  -- whole, in order, to the place that its number and the base address give, and to no other; the
  -- answers are DNBUSY, and DNLOAD_IDLE when the flash is at rest, which it is after at most
  -- `(3 * len + 5) * (limit + 1)` calls of `flash_process`.
  pub download-IsDownloaded :
      {limit : ℕ}
      → Timing H C limit
      → (fuel : ℕ) (req : Request) (r r' : Response) (d : Dfuse H.Hw) → dnload_sync ≢ dnbusy
      → 2 ≤ req.block
      → 0 < req.len
      → req.len ≤ xfer_bufsize
      → req.len ≤ length req.buffer
      → IsBytes req.buffer
      → req.state ≡ dnload_sync
      → d.have_addr ≡ true
      → d.op ≡ idle
      → d.flash.state ≡ OpState.idle
      → length d.flash.buffer ≡ xfer_bufsize
      → IsBytes d.flash.buffer
      → (3 * req.len + 5) * (limit + 1) ≤ fuel
      → IsDownloaded fuel req r r' d
  download-IsDownloaded T fuel req r r' d ne hb hl fits enough bytes st ha op rest size fb hf =
      let addr = block_address d.base_addr req.block in
      let copied = memcpy-IsCopied d.flash.buffer req.buffer req.len (omega arith) enough in
      let (f, s) =
        write_async-IsStarted H C addr req.len req.buffer d.flash rest fits bytes fb copied in
      let (g, rests, ended, stored, kept) =
        started-stores H C T addr req.len fuel req.buffer d.flash f s hf in
      let busy = record d { op = write_busy; current_addr = addr; flash = f } in
      record {
        busy = busy;
        first = get_status-start_write req r d f hb hl st ha op s.accepts;
        g = g;
        rests = rests;
        idle_again = ended;
        size = ap length kept ∙ s.size ∙ size;
        bytes = rw kept s.bytes;
        stored =
            stored
            ∙ ap (λ a. image d.flash.bus.log ++ placed req.buffer a 0 req.len)
                (block_address_lem d.base_addr req.block);
        last =
            get_status-poll_write (record req { state = dnbusy }) r' (record busy { flash = g }) hb
              hl refl ne ha refl
            ∙ rw (at_rest g ended, block_address_lem d.base_addr req.block) refl;
      }
