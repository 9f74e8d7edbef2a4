-- ===== src/Dfu.antt =====
-- The code of src/dfu_tinyusb.c: the DfuSe commands, answered from the callbacks of TinyUSB. Logging
-- (`CDC_LOG`) is empty in the build.
pub mod Words
pub mod Commands
pub mod Answers
pub mod Effects
pub mod Session
pub mod Waits
pub mod Download
pub mod Transfer
pub mod Upload
pub mod Bounds
pub mod Interrupted
pub mod Tests
pub mod SessionTests
use mathlib.Core.Option
use cs7000p_bootloader.Base.{
  ℕ, zero, suc, ◌+◌, ◌-◌, ◌*◌, ◌/◌, ◌%◌, ◌^◌, ◌≡◌, Bool, true, false, not, ◌&&◌, Option, none, some,
  List, [], ◌∷◌, ◌++◌, bit_and, bit_or, ltb, leb, ◌==◌, if◌then◌else◌, length, get_or, take, drop,
  u8, u32, ◌<<<◌,
}
use cs7000p_bootloader.Bus.{Hardware, Bus, read}
use cs7000p_bootloader.Flash
use cs7000p_bootloader.Flash.{
  Flash, FlashMasks, xfer_bufsize, memcpy, erase_sector_async, write_async, is_busy,
}

-- `dfuse_op_t`.
pub data DfuseOp : Type 0 where
  idle erase_busy write_busy set_addr_busy : DfuseOp

abbrev pub op_is_idle : DfuseOp → Bool
op_is_idle idle = true
op_is_idle _ = false

abbrev pub op_is_erase : DfuseOp → Bool
op_is_erase erase_busy = true
op_is_erase _ = false

abbrev pub op_is_write : DfuseOp → Bool
op_is_write write_busy = true
op_is_write _ = false

abbrev pub op_is_set_addr : DfuseOp → Bool
op_is_set_addr set_addr_busy = true
op_is_set_addr _ = false

abbrev pub app_base_addr : ℕ
app_base_addr = 0x08100000

abbrev pub cmd_get_commands : ℕ
cmd_get_commands = 0x00

abbrev pub cmd_set_address : ℕ
cmd_set_address = 0x21

abbrev pub cmd_erase : ℕ
cmd_erase = 0x41

abbrev pub dfuse_cmds : List ℕ
dfuse_cmds = cmd_get_commands ∷ cmd_set_address ∷ cmd_erase ∷ []

-- The numbers that TinyUSB gives to the DFU states and statuses.
pub record DfuCodes : Type 0 where
  pub dnload_sync : ℕ
  pub dnbusy : ℕ
  pub dnload_idle : ℕ
  pub error : ℕ
  pub ok : ℕ
  pub err_target : ℕ
  pub err_address : ℕ

-- `tud_dfu_get_status_request_t`, `dfu_status_response_t` and `tud_dfu_get_status_control_t`.
pub record Request : Type 0 where
  pub state : ℕ
  pub block : ℕ
  pub len : ℕ
  pub buffer : List ℕ

pub record Response : Type 0 where
  pub status : ℕ
  pub state : ℕ
  pub poll_0 : ℕ
  pub poll_1 : ℕ
  pub poll_2 : ℕ

pub record Control : Type 0 where
  pub invoke_download : Bool
  pub invoke_manifest : Bool

-- `dfuse_ctx`, and the flash that it works on.
pub record Dfuse (Hw : Type 0) : Type 0 where
  pub base_addr : ℕ
  pub have_addr : Bool
  pub op : DfuseOp
  pub current_addr : ℕ
  pub last_was_get_cmds : Bool
  pub flash : Flash Hw

-- What a call of `tud_dfu_get_status_cb` leaves behind.
pub record Answer (Hw : Type 0) : Type 0 where
  pub handled : Bool
  pub resp : Response
  pub ctl : Control
  pub dfu : Dfuse Hw

unfoldable pub set_poll_timeout : ℕ → Response → Response
set_poll_timeout ms r = record r {
  poll_0 = u8 (bit_and ms 0xff);
  poll_1 = u8 (bit_and (ms / 2 ^ 8) 0xff);
  poll_2 = u8 (bit_and (ms / 2 ^ 16) 0xff);
}

-- `resp->bStatus`, `resp->bState` and the timeout, set together.
unfoldable pub respond : (status state ms : ℕ) → Response → Response
unfolding set_poll_timeout
respond status state ms r = set_poll_timeout ms (record r { status = status; state = state })

-- The address behind a command byte, lowest byte first.
unfoldable pub address_at_1 : List ℕ → ℕ
address_at_1 buffer =
    bit_or
      (bit_or (bit_or (get_or buffer 1 0) (get_or buffer 2 0 <<< 8)) (get_or buffer 3 0 <<< 16))
      (get_or buffer 4 0 <<< 24)

-- The address of a data block; `block` is at least 2.
unfoldable pub block_address : (base block : ℕ) → ℕ
block_address base block = u32 (base + u32 (u32 (block - 2) * xfer_bufsize))

module _ (H : Hardware) where
  open H use {Hw}

  -- `for (i = 0; i < length; i++) data[i] = src[i];`, with `n` rounds left: the bytes read.
  unfoldable pub read_memory : (src i : ℕ) → ℕ → Bus Hw → List ℕ × Bus Hw
  read_memory src i zero b = ([], b)
  read_memory src i (suc n) b =
      let (rest, b') = read_memory src (i + 1) n (read H b) in
      (H.mem b.hw (u32 (src + i)) ∷ rest, b')

module _ (H : Hardware) (C : FlashMasks) (U : DfuCodes) where
  open H use {Hw}
  open U use {dnload_sync, dnbusy, dnload_idle, error, ok, err_target, err_address}

  unfoldable pub mount : Dfuse Hw → Dfuse Hw
  mount d = record {
    base_addr = app_base_addr;
    have_addr = true;
    op = idle;
    current_addr = 0;
    last_was_get_cmds = false;
    flash = Flash.init H C d.flash;
  }

  unfoldable pub abort : Dfuse Hw → Dfuse Hw
  abort d = record d { op = idle; current_addr = 0; last_was_get_cmds = false }

  -- No extra callbacks: `ctl` is set first, on every path.
  abbrev pub no_callbacks : Control
  no_callbacks = record { invoke_download = false; invoke_manifest = false }

  abbrev pub reply : Response → Dfuse Hw → Option (Answer Hw)
  reply r d = some (record { handled = true; resp = r; ctl = no_callbacks; dfu = d })

  abbrev pub unhandled : Response → Dfuse Hw → Option (Answer Hw)
  unhandled r d = some (record { handled = false; resp = r; ctl = no_callbacks; dfu = d })

  -- The parts of `tud_dfu_get_status_cb`, last first; each ends in the next where the source's `if`
  -- falls through. `none` is a `memcpy` out of bounds.
  unfoldable pub start_write : ℕ → Response → Dfuse Hw → Bool × Flash Hw → Option (Answer Hw)
  start_write addr r d (accepted, f) =
      if accepted
      then reply (respond ok dnbusy 3 r)
          (record d { op = write_busy; current_addr = addr; flash = f })
      else reply (respond err_address error 0 r) (record d { flash = f })

  unfoldable pub poll_write : Response → Dfuse Hw → Option (Answer Hw)
  poll_write r d =
      if not (is_busy H C d.flash)
      then reply (respond ok dnload_idle 0 r) (record d { op = idle })
      else reply (respond ok dnbusy 1 r) d

  unfoldable pub write_memory : Request → Response → Dfuse Hw → Option (Answer Hw)
  write_memory req r d =
      let addr = block_address d.base_addr req.block in
      if leb 2 req.block && ltb 0 req.len && d.have_addr
      then (if (req.state == dnload_sync) && op_is_idle d.op
          then Option.bind (write_async H C addr req.buffer req.len d.flash) (start_write addr r d)
          else if (req.state == dnbusy) && op_is_write d.op
          then poll_write r d
          else unhandled r d)
      else unhandled r d

  unfoldable pub start_erase : ℕ → Response → Dfuse Hw → Bool × Flash Hw → Option (Answer Hw)
  start_erase addr r d (accepted, f) =
      if accepted
      then reply (respond ok dnbusy 900 r)
          (record d { op = erase_busy; current_addr = addr; flash = f })
      else reply (respond err_address error 0 r) (record d { flash = f })

  unfoldable pub poll_erase : Response → Dfuse Hw → Option (Answer Hw)
  poll_erase r d =
      if not (is_busy H C d.flash)
      then reply (respond ok dnload_idle 0 r) (record d { op = idle })
      else reply (respond ok dnbusy 20 r) d

  unfoldable pub erase_command : Request → Response → Dfuse Hw → Option (Answer Hw)
  erase_command req r d =
      if (req.block == 0) && leb 1 req.len && (get_or req.buffer 0 0 == cmd_erase)
      then (if req.state == dnload_sync
          then (if not (req.len == 5)
              then reply (respond err_target error 0 r) d
              else (let addr = address_at_1 req.buffer in
                  start_erase addr r d (erase_sector_async H C addr d.flash)))
          else if (req.state == dnbusy) && op_is_erase d.op
          then poll_erase r d
          else write_memory req r d)
      else write_memory req r d

  unfoldable pub set_address : Request → Response → Dfuse Hw → Option (Answer Hw)
  set_address req r d =
      if (req.block == 0) && (req.len == 5) && (get_or req.buffer 0 0 == cmd_set_address)
      then (if req.state == dnload_sync
          then reply (respond ok dnbusy 0 r) (record d {
            base_addr = address_at_1 req.buffer;
            have_addr = true;
            op = set_addr_busy;
          })
          else if (req.state == dnbusy) && op_is_set_addr d.op
          then reply (respond ok dnload_idle 0 r) (record d { op = idle })
          else erase_command req r d)
      else erase_command req r d

  unfoldable pub get_status : ℕ → Request → Response → Dfuse Hw → Option (Answer Hw)
  get_status alt req r d =
      if not (alt == 0)
      then unhandled r d
      else if (req.block == 0) && (req.len == 1) && (get_or req.buffer 0 0 == cmd_get_commands)
      then reply (respond ok dnload_idle 0 r) (record d { last_was_get_cmds = true })
      else set_address req r d

  -- `tud_dfu_upload_cb` returns the number of bytes that it has put into `data`; the list is these.
  unfoldable pub upload : (alt block len : ℕ) → Dfuse Hw → List ℕ × Dfuse Hw
  upload alt block len d =
      if not (alt == 0)
      then ([], d)
      else if block == 0
      then (if d.last_was_get_cmds
          then (
            take (if ltb len (length dfuse_cmds) then len else length dfuse_cmds) dfuse_cmds,
            record d { last_was_get_cmds = false },
          )
          else ([], d))
      else if not d.have_addr
      then ([], d)
      else if ltb block 2
      then ([], d)
      else (let (bytes, b) = read_memory H (block_address d.base_addr block) 0 len d.flash.bus in
          (bytes, record d { flash = record d.flash { bus = b } }))
