-- ===== src/Dfu/Effects.antt =====
-- What an answer of `tud_dfu_get_status_cb` does to the flash, told by the answer itself.
use mathlib.Core.Option
use mathlib.Core.Path.{subst}
use cs7000p_bootloader.Base.{
  ℕ, ◌≤◌, ◌≡◌, ◌≢◌, refl, Bool, true, false, not, ◌&&◌, Option, none, some, arith, length, leb, ltb,
  ◌==◌, get_or, List, if◌then◌else◌,
}
use cs7000p_bootloader.Bus.{Hardware}
use cs7000p_bootloader.Flash.{
  Flash, FlashMasks, xfer_bufsize, memcpy, is_idle, write_async, erase_sector_async, is_busy,
}
use cs7000p_bootloader.Dfu.{
  DfuCodes, Request, Response, Dfuse, Answer, start_write, poll_write, write_memory, start_erase,
  poll_erase, erase_command, set_address, get_status, respond, op_is_write, op_is_erase,
  op_is_set_addr, op_is_idle, unhandled, block_address, address_at_1, cmd_erase, cmd_set_address,
  cmd_get_commands,
}
use cs7000p_bootloader.Dfu.Answers.{IsTried, write_async-IsTried, erase_sector_async-IsTried}

-- The codes are told apart.
pub record AreCodes (U : DfuCodes) : Type 0 where
  pub busy-error : U.dnbusy ≢ U.error
  pub idle-error : U.dnload_idle ≢ U.error
  pub sync-busy : U.dnload_sync ≢ U.dnbusy

module _ (H : Hardware) (U : DfuCodes) where
  -- The answer to the first GETSTATUS after the download of a data block says that it is being
  -- written.
  abbrev pub told : Request → Answer H.Hw → Bool
  told req a =
      (req.state == U.dnload_sync) && leb 2 req.block && a.handled && (a.resp.state == U.dnbusy)

  -- The answer to the first GETSTATUS after an erase command says that the sector is being erased.
  abbrev pub told_erase : Request → Answer H.Hw → Bool
  told_erase req a =
      (req.state == U.dnload_sync)
      && (req.block == 0)
      && (req.len == 5)
      && (get_or req.buffer 0 0 == cmd_erase)
      && a.handled
      && (a.resp.state == U.dnbusy)

module _ (H : Hardware) (C : FlashMasks) (U : DfuCodes) where
  open U use {dnload_sync, dnbusy, dnload_idle, error, err_address, err_target}

  -- An answer leaves the flash alone, requests the erase of the sector that the command names, or
  -- starts to write the block; it does either of these exactly if it says so.
  pub data Effect (req : Request) (d : Dfuse H.Hw) (a : Answer H.Hw) : Type 0 where
    keeps :
        told H U req a ≡ false
        → told_erase H U req a ≡ false
        → a.dfu.flash ≡ d.flash
        → Effect req d a
    erases :
        told H U req a ≡ false
        → told_erase H U req a ≡ true
        → req.state ≡ dnload_sync
        → erase_sector_async H C (address_at_1 req.buffer) d.flash ≡ (true, a.dfu.flash)
        → Effect req d a
    writes :
        told H U req a ≡ true
        → told_erase H U req a ≡ false
        → write_async H C (block_address d.base_addr req.block) req.buffer req.len d.flash
          ≡ some (true, a.dfu.flash)
        → Effect req d a

  -- An answer that reports ERROR does so for one of two reasons: the flash was busy, or the command
  -- was an erase without an address.
  pub data Fault (req : Request) (d : Dfuse H.Hw) (a : Answer H.Hw) : Type 0 where
    fine : (a.handled && (a.resp.state == error)) ≡ false → Fault req d a
    refused :
        a.resp.status ≡ err_address
        → req.state ≡ dnload_sync
        → is_idle d.flash.state ≡ false
        → Fault req d a
    mass_erase :
        a.resp.status ≡ err_target
        → req.state ≡ dnload_sync
        → req.block ≡ 0
        → get_or req.buffer 0 0 ≡ cmd_erase
        → req.len ≢ 5
        → Fault req d a

  pub data Effects (req : Request) (d : Dfuse H.Hw) : Option (Answer H.Hw) → Type 0 where
    effects : {a : Answer H.Hw} → Fault req d a → Effect req d a → Effects req d (some a)

  Effects-if :
      {req : Request} {d : Dfuse H.Hw} (b : Bool) (x y : Option (Answer H.Hw))
      → (b ≡ true → Effects req d x)
      → (b ≡ false → Effects req d y)
      → Effects req d (if b then x else y)
  Effects-if true x y hx hy = hx refl
  Effects-if false x y hx hy = hy refl

  erase_refused :
      (addr : ℕ) (f f₁ : Flash H.Hw)
      → erase_sector_async H C addr f ≡ (false, f₁)
      → is_idle f.state ≡ false
  unfolding erase_sector_async
  erase_refused addr f f₁ h = inversion (is_idle f.state) f _ f₁ h
    where
      inversion :
          (b : Bool) (f g f₁ : Flash H.Hw)
          → ◌≡◌ {A = Bool × Flash H.Hw} (if not b then (false, f) else (true, g)) (false, f₁)
          → b ≡ false
      inversion true f g f₁ h = cc
      inversion false f g f₁ h = refl

  write_refused :
      (addr n : ℕ) (src : List ℕ) (f f₁ : Flash H.Hw)
      → write_async H C addr src n f ≡ some (false, f₁)
      → is_idle f.state ≡ false
  unfolding write_async
  write_refused addr n src f f₁ h = inversion (is_idle f.state) _ (memcpy f.buffer src n) h
    where
      inversion :
          (b : Bool) (g : List ℕ → Flash H.Hw) (o : Option (List ℕ))
          → ◌≡◌ {A = Option (Bool × Flash H.Hw)}
              (if not b then some (false, f) else Option.map (λ x. (true, g x)) o)
              (some (false, f₁))
          → b ≡ false
      inversion true g none h = cc
      inversion true g (some x) h = cc
      inversion false g o h = refl

  module _ (k : AreCodes U) (r : Response) (d : Dfuse H.Hw)
      (size : length d.flash.buffer ≡ xfer_bufsize) (req : Request)
      (enough : req.len ≤ length req.buffer) (fits : req.len ≤ xfer_bufsize) where
    unhandled-Effects : Effects req d (unhandled H C U r d)
    unhandled-Effects = effects (fine (ground arith)) (keeps (ground arith) (ground arith) refl)

    poll_write-Effects : req.state ≡ dnbusy → Effects req d (poll_write H C U r d)
    unfolding poll_write respond
    poll_write-Effects st =
        Effects-if (not (is_busy H C d.flash)) _ _
          (λ _. effects (fine (ground arith)) (keeps (ground arith) (ground arith) refl))
          (λ _. effects (fine (ground arith)) (keeps (ground arith) (ground arith) refl))

    poll_erase-Effects : req.state ≡ dnbusy → Effects req d (poll_erase H C U r d)
    unfolding poll_erase respond
    poll_erase-Effects st =
        Effects-if (not (is_busy H C d.flash)) _ _
          (λ _. effects (fine (ground arith)) (keeps (ground arith) (ground arith) refl))
          (λ _. effects (fine (ground arith)) (keeps (ground arith) (ground arith) refl))

    start_write-Effects :
        (t : Bool × Flash H.Hw)
        → let addr = block_address d.base_addr req.block in
          write_async H C addr req.buffer req.len d.flash ≡ some t
          → IsTried H C U d.flash t
          → req.state ≡ dnload_sync
          → leb 2 req.block ≡ true
          → Effects req d (start_write H C U addr r d t)
    unfolding start_write respond
    start_write-Effects (true, f) e tried st b2 =
        effects (fine (ground arith)) (writes (ground arith) (ground arith) e)
    start_write-Effects (false, f) e tried st b2 =
        effects (refused refl st (write_refused _ req.len req.buffer d.flash f e))
          (keeps (ground arith) (ground arith) (tried.refused refl))

    write_memory-Effects : Effects req d (write_memory H C U req r d)
    unfolding write_memory Option.bind
    write_memory-Effects =
        Effects-if (leb 2 req.block && ltb 0 req.len && d.have_addr) _ _
          (λ block.
            Effects-if ((req.state == dnload_sync) && op_is_idle d.op) _ _
              (λ first.
                let addr = block_address d.base_addr req.block in
                let (t, e, tried) =
                  write_async-IsTried H C U addr req.len req.buffer d.flash size enough fits in
                rw e (start_write-Effects t e tried (ground arith) (ground arith)))
              (λ _.
                Effects-if ((req.state == dnbusy) && op_is_write d.op) _ _
                  (λ polled. poll_write-Effects (ground arith)) (λ _. unhandled-Effects)))
          (λ _. unhandled-Effects)

    start_erase-Effects :
        (t : Bool × Flash H.Hw)
        → let addr = address_at_1 req.buffer in
          erase_sector_async H C addr d.flash ≡ t
          → IsTried H C U d.flash t
          → req.state ≡ dnload_sync
          → req.block ≡ 0
          → req.len ≡ 5
          → get_or req.buffer 0 0 ≡ cmd_erase
          → Effects req d (start_erase H C U addr r d t)
    unfolding start_erase respond
    start_erase-Effects (true, f) e tried st b0 five command =
        effects (fine (ground arith)) (erases (ground arith) (ground arith) st e)
    start_erase-Effects (false, f) e tried st b0 five command =
        effects (refused refl st (erase_refused _ d.flash f e))
          (keeps (ground arith) (ground arith) (tried.refused refl))

    erase_command-Effects : Effects req d (erase_command H C U req r d)
    unfolding erase_command respond
    erase_command-Effects =
        Effects-if ((req.block == 0) && leb 1 req.len && (get_or req.buffer 0 0 == cmd_erase)) _ _
          (λ command.
            Effects-if (req.state == dnload_sync) _ _
              (λ first.
                Effects-if (not (req.len == 5)) _ _
                  (λ short.
                    effects
                      (mass_erase refl (ground arith) (ground arith) (ground arith) (ground arith))
                      (keeps (ground arith) (ground arith) refl))
                  (λ long.
                    start_erase-Effects _ refl
                      (erase_sector_async-IsTried H C U (address_at_1 req.buffer) d.flash)
                      (ground arith) (ground arith) (ground arith) (ground arith)))
              (λ _.
                Effects-if ((req.state == dnbusy) && op_is_erase d.op) _ _
                  (λ polled. poll_erase-Effects (ground arith)) (λ _. write_memory-Effects)))
          (λ _. write_memory-Effects)

    set_address-Effects : Effects req d (set_address H C U req r d)
    unfolding set_address respond
    set_address-Effects =
        Effects-if
          ((req.block == 0) && (req.len == 5) && (get_or req.buffer 0 0 == cmd_set_address)) _ _
          (λ command.
            Effects-if (req.state == dnload_sync) _ _
              (λ _. effects (fine (ground arith)) (keeps (ground arith) (ground arith) refl))
              (λ _.
                Effects-if ((req.state == dnbusy) && op_is_set_addr d.op) _ _
                  (λ polled.
                    effects (fine (ground arith)) (keeps (ground arith) (ground arith) refl))
                  (λ _. erase_command-Effects)))
          (λ _. erase_command-Effects)

    -- If the codes of DNBUSY, ERROR and DNLOAD_SYNC differ as needed, and the request's length is
    -- within its buffer and the transfer size: the answer to a request leaves the flash as it was, or
    -- it has requested the erase of the sector at the address in the command, or it has started to
    -- write the block at its place. It has done so exactly if it is the answer DNBUSY to the first
    -- GETSTATUS after an erase command, or after a data block.
    pub get_status-Effects : (alt : ℕ) → Effects req d (get_status H C U alt req r d)
    unfolding get_status respond
    get_status-Effects alt =
        Effects-if (not (alt == 0)) _ _ (λ _. unhandled-Effects)
          (λ _.
            Effects-if
              ((req.block == 0) && (req.len == 1) && (get_or req.buffer 0 0 == cmd_get_commands)) _
              _
              (λ command. effects (fine (ground arith)) (keeps (ground arith) (ground arith) refl))
              (λ _. set_address-Effects))

    -- Under the same conditions, ERROR is reported for one of two reasons only, both in the first
    -- GETSTATUS: with ERR_ADDRESS if the flash is not idle, and with ERR_TARGET if an erase command
    -- does not have five bytes.
    pub get_status-Fault :
        (alt : ℕ) (a : Answer H.Hw) → get_status H C U alt req r d ≡ some a → Fault req d a
    get_status-Fault alt a h = of_some (get_status-Effects alt) h
      where
        of_some : {o : Option (Answer H.Hw)} → Effects req d o → o ≡ some a → Fault req d a
        of_some (effects {a = b} f e) k = let same : b ≡ a = cc in subst (λ x. Fault req d x) same f
