-- ===== src/Dfu/Commands.antt =====
-- The two DfuSe commands with an address, through `tud_dfu_get_status_cb` of src/dfu_tinyusb.c.
use cs7000p_bootloader.Base.{
  ℕ, ◌^◌, ◌<◌, ◌≡◌, ◌≢◌, refl, true, false, List, ◌++◌, arith, ◌==◌, if◌then◌else◌, Bool-cases, inl,
  inr,
}
use cs7000p_bootloader.Bus.{Hardware}
use cs7000p_bootloader.Flash.{FlashMasks, OpState, is_idle, erase_sector_async}
use cs7000p_bootloader.Dfu.{
  idle, erase_busy, set_addr_busy, DfuCodes, Request, Response, Dfuse, respond, reply, start_erase,
  erase_command, set_address, get_status, cmd_set_address, cmd_erase,
}
use cs7000p_bootloader.Dfu.Words.{command_bytes, address_at_1-command_bytes}

module _ (H : Hardware) (C : FlashMasks) (U : DfuCodes) where
  open U use {dnload_sync, dnbusy, dnload_idle, ok, error, err_address}

  -- The request of a command with an address, in the DFU state `state`.
  abbrev pub command_request : (state cmd addr : ℕ) → List ℕ → Request
  command_request state cmd addr rest = record {
    state = state;
    block = 0;
    len = 5;
    buffer = command_bytes cmd addr ++ rest;
  }

  -- SetAddress with a 32-bit address, whatever was under way: the first GETSTATUS reports DNBUSY, with
  -- that address as the new base; the next reports DNLOAD_IDLE and ends the operation.
  pub get_status-set_address :
      (addr : ℕ) (rest : List ℕ) (r r' : Response) (d : Dfuse H.Hw)
      → addr < 2 ^ 32
      → dnload_sync ≢ dnbusy
      → let d' = record d { base_addr = addr; have_addr = true; op = set_addr_busy } in
        (get_status H C U 0 (command_request dnload_sync cmd_set_address addr rest) r d
          ≡ reply H C U (respond ok dnbusy 0 r) d')
        × (get_status H C U 0 (command_request dnbusy cmd_set_address addr rest) r' d'
            ≡ reply H C U (respond ok dnload_idle 0 r') (record d' { op = idle }))
  unfolding get_status set_address command_bytes
  get_status-set_address addr rest r r' d h ne =
      let same : (dnload_sync == dnload_sync) ≡ true = ground arith in
      let busy : (dnbusy == dnbusy) ≡ true = ground arith in
      let other : (dnbusy == dnload_sync) ≡ false = ground arith in
      (
        rw (same, address_at_1-command_bytes cmd_set_address addr rest h) refl,
        rw (other, busy) refl,
      )

  -- Erase with a 32-bit address: the first GETSTATUS requests the erase and reports DNBUSY, to be
  -- polled after 900 ms, if the flash is idle; if it is not, the answer is ERROR, and nothing changes.
  pub get_status-erase :
      (addr : ℕ) (rest : List ℕ) (r : Response) (d : Dfuse H.Hw)
      → addr < 2 ^ 32
      → let f' = record d.flash { addr = addr; state = OpState.erase_pending } in
        get_status H C U 0 (command_request dnload_sync cmd_erase addr rest) r d ≡ (
          if is_idle d.flash.state
          then reply H C U
              (respond ok dnbusy 900 r)
              (record d { op = erase_busy; current_addr = addr; flash = f' })
          else reply H C U (respond err_address error 0 r) d)
  unfolding get_status set_address erase_command start_erase erase_sector_async command_bytes
  get_status-erase addr rest r d h =
      let same : (dnload_sync == dnload_sync) ≡ true = ground arith in
      elim (Bool-cases (is_idle d.flash.state)) [
        | inl e ↦ rw (same, address_at_1-command_bytes cmd_erase addr rest h, e) refl
        | inr e ↦ rw (same, address_at_1-command_bytes cmd_erase addr rest h, e) refl
      ]
