-- ===== src/Dfu/Tests.antt =====
-- Requests on which the theorems on src/dfu_tinyusb.c are tried, with the flash of Flash.Tests.
use cs7000p_bootloader.Base.{
  length-replicate, ℕ, ◌≡◌, refl, true, false, [], ◌∷◌, arith, take, if◌then◌else◌,
}
use cs7000p_bootloader.Flash.{Flash, is_idle, is_busy, xfer_bufsize}
use cs7000p_bootloader.Flash
use cs7000p_bootloader.Flash.Image.{zeros-IsBytes, placed}
use cs7000p_bootloader.Flash.Tests.{
  masks, Chip, chip, chip-Timing, at_rest, flash_in, six_bytes, six_bytes-IsBytes,
}
use cs7000p_bootloader.Dfu.{
  DfuseOp, cmd_set_address, cmd_erase, app_base_addr, DfuCodes, Request, Response, Dfuse, respond,
  reply, get_status, upload,
}
use cs7000p_bootloader.Dfu.Commands.{command_request, get_status-set_address, get_status-erase}
use cs7000p_bootloader.Dfu.Answers.{Answers, get_status-Answers}
use cs7000p_bootloader.Dfu.Download.{IsDownloaded, download-IsDownloaded}
use cs7000p_bootloader.Dfu.Upload.{upload-block}

abbrev pub codes : DfuCodes
codes = record {
  dnload_sync = 3;
  dnbusy = 4;
  dnload_idle = 5;
  error = 10;
  ok = 0;
  err_target = 1;
  err_address = 8;
}

abbrev pub no_response : Response
no_response = record { status = 0; state = 0; poll_0 = 0; poll_1 = 0; poll_2 = 0 }

abbrev pub device : DfuseOp → Flash Chip → Dfuse Chip
device op f = record {
  base_addr = app_base_addr;
  have_addr = true;
  op = op;
  current_addr = 0;
  last_was_get_cmds = false;
  flash = f;
}

abbrev pub quiet_device : Dfuse Chip
quiet_device = device DfuseOp.idle (flash_in Flash.OpState.idle at_rest)

-- Block 3, after its download and during its write.
abbrev pub block_request : ℕ → Request
block_request state = record { state = state; block = 3; len = 6; buffer = six_bytes }

get_status-Answers_example :
    Answers chip masks codes no_response quiet_device
      (get_status chip masks codes 0 (block_request 3) no_response quiet_device)
get_status-Answers_example =
    get_status-Answers chip masks codes (omega arith) (omega arith) no_response quiet_device
      (length-replicate {A = ℕ} xfer_bufsize 0) (block_request 3) (omega arith) (omega arith) 0

download-IsDownloaded_example :
    IsDownloaded chip masks codes 100 (block_request 3) no_response no_response quiet_device
download-IsDownloaded_example =
    download-IsDownloaded chip masks codes chip-Timing 100 (block_request 3) no_response no_response
      quiet_device (omega arith) (omega arith) (omega arith) (omega arith) (omega arith)
      six_bytes-IsBytes refl refl refl refl (length-replicate {A = ℕ} xfer_bufsize 0)
      (zeros-IsBytes xfer_bufsize) (omega arith)

-- The memory holds the first two bytes of block 2.
abbrev written_device : Dfuse Chip
written_device = device DfuseOp.idle (
    flash_in Flash.OpState.idle (record {
      hw = record {
        queued = 0;
        dirty = 0;
        cr2 = 0;
        bytes = (0x08100000, 10) ∷ (0x08100001, 20) ∷ [];
      };
      log = [];
    }))

upload-block_example : (upload chip masks codes 0 2 2 written_device).0 ≡ take 2 six_bytes
unfolding placed
upload-block_example =
    upload-block chip masks codes 2 2 six_bytes written_device (λ h a. refl) (omega arith) refl
      (omega arith) (refl, (refl, tt))

get_status-set_address_example :
    let d' = record quiet_device {
      base_addr = 0x08120000;
      have_addr = true;
      op = DfuseOp.set_addr_busy;
    } in
    let req : ℕ → Request =
      λ state. command_request chip masks codes state cmd_set_address 0x08120000 (9 ∷ []) in
    (get_status chip masks codes 0 (req 3) no_response quiet_device
      ≡ reply chip masks codes (respond 0 4 0 no_response) d')
    × (get_status chip masks codes 0 (req 4) no_response d'
        ≡ reply chip masks codes (respond 0 5 0 no_response) (record d' { op = DfuseOp.idle }))
get_status-set_address_example =
    get_status-set_address chip masks codes 0x08120000 (9 ∷ []) no_response no_response quiet_device
      (omega arith) (omega arith)

get_status-erase_example :
    let d = quiet_device in
    let f' = record d.flash { addr = 0x08120000; state = Flash.OpState.erase_pending } in
    get_status chip masks codes 0
      (command_request chip masks codes 3 cmd_erase 0x08120000 [])
      no_response
      d
    ≡ (if is_idle d.flash.state
        then reply chip masks codes
            (respond 0 4 900 no_response)
            (record d { op = DfuseOp.erase_busy; current_addr = 0x08120000; flash = f' })
        else reply chip masks codes (respond 8 10 0 no_response) d)
get_status-erase_example =
    get_status-erase chip masks codes 0x08120000 [] no_response quiet_device (omega arith)
