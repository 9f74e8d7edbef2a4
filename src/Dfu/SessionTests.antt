-- ===== src/Dfu/SessionTests.antt =====
-- Sessions on which the theorems on src/dfu_tinyusb.c and src/dfu_flash.c are tried.
use mathlib.Core.Path.{subst}
use cs7000p_bootloader.Base.{
  length-replicate, ℕ, zero, suc, ◌+◌, ◌-◌, ◌*◌, ◌/◌, ◌≡◌, refl, true, false, some, List, [], ◌++◌,
  arith, append-nil, take, drop, replicate, u32, any_set,
}
use cs7000p_bootloader.Bus.{update_cr2, read, emit_all, emit, gpioa, set_pin}
use cs7000p_bootloader.Flash
use cs7000p_bootloader.Flash.{OpState, Flash, xfer_bufsize, is_busy, addr_to_sector}
use cs7000p_bootloader.Flash.Image.{zeros-IsBytes, image, placed}
use cs7000p_bootloader.Flash.Sound.{IsContext}
use cs7000p_bootloader.Flash.Tests.{
  masks, Chip, chip, chip-Timing, at_rest, flash_in, six_bytes, six_bytes-IsBytes,
}
use cs7000p_bootloader.Dfu.{
  DfuseOp, app_base_addr, Dfuse, Answer, respond, reply, get_status, abort, mount, block_address,
}
use cs7000p_bootloader.Dfu.Download.{get_status-start_write}
use cs7000p_bootloader.Dfu.Effects.{AreCodes, Effects, Fault, get_status-Effects, get_status-Fault}
use cs7000p_bootloader.Dfu.Session.{
  IsRequest, Turn, Session, start, later, asks, Session-prefix, Session-stores,
}
use cs7000p_bootloader.Dfu.Waits.{Waits, Session-completes}
use cs7000p_bootloader.Dfu.Interrupted.{mount_cuts, abort_refuses}
use cs7000p_bootloader.Dfu.Bounds.{Within, block-Within}
use cs7000p_bootloader.Dfu.Tests.{codes, no_response, quiet_device, block_request}

pub codes-AreCodes : AreCodes codes
codes-AreCodes = record {
  busy-error = omega arith;
  idle-error = omega arith;
  sync-busy = omega arith;
}

pub quiet-IsContext : IsContext (flash_in OpState.idle at_rest)
quiet-IsContext = record {
  within = omega arith;
  fits = omega arith;
  size = length-replicate {A = ℕ} xfer_bufsize 0;
  bytes = zeros-IsBytes xfer_bufsize;
}

pub block-IsRequest : IsRequest (block_request 3)
block-IsRequest = record { enough = omega arith; fits = omega arith; bytes = six_bytes-IsBytes }

-- The device once the write of block 3 has been accepted.
abbrev writing_flash : Flash Chip
writing_flash = record {
  state = OpState.write_pending;
  addr = block_address app_base_addr 3;
  buffer = take 6 six_bytes ++ drop 6 (replicate xfer_bufsize 0);
  len = 6;
  offset = 0;
  bus = emit chip (set_pin gpioa 0) at_rest;
}

abbrev writing_device : Dfuse Chip
writing_device = record quiet_device {
  op = DfuseOp.write_busy;
  current_addr = block_address app_base_addr 3;
  flash = writing_flash;
}

abbrev told_busy : Answer Chip
told_busy = record {
  handled = true;
  resp = respond 0 4 3 no_response;
  ctl = record { invoke_download = false; invoke_manifest = false };
  dfu = writing_device;
}

block_told :
    get_status chip masks codes 0 (block_request 3) no_response quiet_device ≡ some told_busy
unfolding Flash.write_async Flash.memcpy
block_told =
    get_status-start_write chip masks codes (block_request 3) no_response quiet_device writing_flash
      (omega arith) (omega arith) refl refl refl refl

abbrev block_bytes : List (ℕ × ℕ)
block_bytes = placed six_bytes (u32 (app_base_addr + (3 - 2) * xfer_bufsize)) 0 6

block-Session : Session chip masks codes quiet_device writing_device ([] ++ block_bytes)
unfolding respond
block-Session =
    later start
      (asks 0 (block_request 3) no_response told_busy block-IsRequest block_told refl refl)

-- The main loop.
processed : ℕ → Dfuse Chip → Dfuse Chip
processed zero d = d
processed (suc n) d =
    let d' = processed n d in record d' { flash = Flash.process chip masks d'.flash }

processed-Session :
    (n : ℕ) (d : Dfuse Chip) (w : List (ℕ × ℕ))
    → Session chip masks codes quiet_device d w
    → Session chip masks codes quiet_device (processed n d) w
unfolding processed
processed-Session zero d w s = s
processed-Session (suc n) d w s =
    subst (λ v. Session chip masks codes quiet_device (processed (suc n) d) v) (append-nil w)
      (later (processed-Session n d w s) (Turn.processes refl refl))

processed-Waits : (n : ℕ) (d : Dfuse Chip) → Waits chip masks codes d (processed n d) n
unfolding processed
processed-Waits zero d = Waits.start
processed-Waits (suc n) d = Waits.processes (processed-Waits n d)

Session-prefix_example :
    (rest : List (ℕ × ℕ)) × (image (processed 3 writing_device).flash.bus.log ++ rest
      ≡ image [] ++ ([] ++ block_bytes))
Session-prefix_example =
    Session-prefix chip masks codes codes-AreCodes quiet-IsContext refl
      (processed-Session 3 writing_device ([] ++ block_bytes) block-Session)

Session-completes_example :
    ((processed 9232 writing_device).flash.state ≡ OpState.idle)
    × (image (processed 9232 writing_device).flash.bus.log ≡ image [] ++ ([] ++ block_bytes))
Session-completes_example =
    Session-completes chip masks codes chip-Timing codes-AreCodes quiet-IsContext refl block-Session
      (processed-Waits 9232 writing_device) (omega arith)

get_status-Effects_example :
    Effects chip masks codes
      (block_request 3)
      quiet_device
      (get_status chip masks codes 0 (block_request 3) no_response quiet_device)
get_status-Effects_example =
    get_status-Effects chip masks codes codes-AreCodes no_response quiet_device
      (length-replicate {A = ℕ} xfer_bufsize 0) (block_request 3) (omega arith) (omega arith) 0

get_status-Fault_example : Fault chip masks codes (block_request 3) quiet_device told_busy
get_status-Fault_example =
    get_status-Fault chip masks codes codes-AreCodes no_response quiet_device
      (length-replicate {A = ℕ} xfer_bufsize 0) (block_request 3) (omega arith) (omega arith) 0
      told_busy block_told

mount_cuts_example :
    let d' = mount chip masks codes writing_device in
    (is_busy chip masks d'.flash ≡ false)
    × (image d'.flash.bus.log ≡ image writing_flash.bus.log)
    × (Flash.process chip masks d'.flash ≡ d'.flash)
mount_cuts_example = mount_cuts chip masks codes writing_device

abort_refuses_example :
    get_status chip masks codes 0
      (block_request 3)
      no_response
      (abort chip masks codes writing_device)
    ≡ reply chip masks codes (respond 8 10 0 no_response) (abort chip masks codes writing_device)
abort_refuses_example =
    abort_refuses chip masks codes (block_request 3) no_response writing_device (omega arith)
      (omega arith) refl refl refl

block-Within_example :
    let addr = block_address app_base_addr 1025 in
    Within 0x08100000 0x08200000 (placed six_bytes addr 0 6)
    × Within addr (addr + xfer_bufsize) (placed six_bytes addr 0 6)
    × (block_address app_base_addr (1025 + 1) ≡ addr + xfer_bufsize)
    × (addr_to_sector addr ≡ (1025 - 2) / 128)
block-Within_example = block-Within 1025 6 six_bytes (omega arith) (omega arith) (omega arith)

-- The chip has worked off all its queues.
written_at_last : (processed 12 writing_device).flash.state ≡ OpState.idle
unfolding processed Flash.process Flash.process_in Flash.process_write_pending
    Flash.process_write_busy Flash.op_complete Flash.clear_eop Flash.enable_programming
    Flash.write_chunk Flash.finish_write any_set emit set_pin update_cr2 read emit_all
    Flash.byte_stores
written_at_last = refl

Session-stores_example :
    image (processed 12 writing_device).flash.bus.log ≡ image [] ++ ([] ++ block_bytes)
Session-stores_example =
    Session-stores chip masks codes codes-AreCodes quiet-IsContext refl
      (processed-Session 12 writing_device ([] ++ block_bytes) block-Session) written_at_last
