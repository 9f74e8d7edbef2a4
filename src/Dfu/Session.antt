-- ===== src/Dfu/Session.antt =====
-- A device at work: the callbacks of src/dfu_tinyusb.c and the calls of `flash_process` from the main
-- loop, in any order. A history keeps the bytes that the host was told are being written.
use mathlib.Core.Path.{subst}
use cs7000p_bootloader.Base.{
  ℕ, zero, suc, ◌+◌, ◌-◌, ◌*◌, ◌≤◌, ◌≡◌, refl, ap, ◌∙◌, Bool, true, false, some, Option, List, [],
  ◌++◌, append-nil, append_assoc, length, u32, if◌then◌else◌, ◌==◌, ltb, not, Bool-cases, inl, inr,
  any_set,
}
use cs7000p_bootloader.Bus.{Hardware, Bus, read}
use cs7000p_bootloader.Flash
use cs7000p_bootloader.Flash.{Flash, FlashMasks, OpState, xfer_bufsize}
use cs7000p_bootloader.Flash.Image.{image, placed, IsBytes, image-emit}
use cs7000p_bootloader.Flash.Sound.{
  IsContext, Agrees, IsSound, IsSound-idle, IsSound-prefix, process-IsSound, erase-IsSound,
  write-IsSound, bus-IsSound,
}
use cs7000p_bootloader.Dfu.{
  DfuCodes, Request, Response, Dfuse, Answer, get_status, upload, read_memory, abort, mount,
  block_address, address_at_1,
}
use cs7000p_bootloader.Dfu.Words.{block_address_lem}
use cs7000p_bootloader.Dfu.Effects.{AreCodes, told, Effect, Effects, get_status-Effects}

-- What TinyUSB sees to: the data of a request are bytes, as many as it says and at most a transfer.
pub record IsRequest (req : Request) : Type 0 where
  pub enough : req.len ≤ length req.buffer
  pub fits : req.len ≤ xfer_bufsize
  pub bytes : IsBytes req.buffer

module _ (H : Hardware) (C : FlashMasks) (U : DfuCodes) where
  -- The bytes of a block, at the place that its number and the base address give, if the host is told
  -- that they are being written.
  abbrev pub promised : Request → Dfuse H.Hw → Answer H.Hw → List (ℕ × ℕ)
  promised req d a =
      if told H U req a
      then placed req.buffer (u32 (d.base_addr + (req.block - 2) * xfer_bufsize)) 0 req.len
      else []

  -- One thing that happens, and what it promises. USB is mounted only while the flash is at rest.
  pub data Turn (d d' : Dfuse H.Hw) (w : List (ℕ × ℕ)) : Type 0 where
    processes : d' ≡ record d { flash = Flash.process H C d.flash } → w ≡ [] → Turn d d' w
    asks :
        (alt : ℕ) (req : Request) (r : Response) (a : Answer H.Hw)
        → IsRequest req
        → get_status H C U alt req r d ≡ some a
        → d' ≡ a.dfu
        → w ≡ promised req d a
        → Turn d d' w
    uploads : (alt block len : ℕ) → d' ≡ (upload H C U alt block len d).1 → w ≡ [] → Turn d d' w
    aborts : d' ≡ abort H C U d → w ≡ [] → Turn d d' w
    mounts : d.flash.state ≡ OpState.idle → d' ≡ mount H C U d → w ≡ [] → Turn d d' w

  -- Turns in a row, and all that they promise.
  pub data Session (d₀ : Dfuse H.Hw) : Dfuse H.Hw → List (ℕ × ℕ) → Type 0 where
    start : Session d₀ d₀ []
    later :
        {d d' : Dfuse H.Hw} {w v : List (ℕ × ℕ)}
        → Session d₀ d w
        → Turn d d' v
        → Session d₀ d' (w ++ v)

  pub Effect-of :
      {req : Request} {d : Dfuse H.Hw} {o : Option (Answer H.Hw)}
      → Effects H C U req d o
      → (a : Answer H.Hw) → o ≡ some a
      → Effect H C U req d a
  Effect-of {req} {d} (Effects.effects {a = b} f e) a h =
      let same : b ≡ a = cc in subst (λ x. Effect H C U req d x) same e

  asks-IsSound :
      (goal : List (ℕ × ℕ)) (req : Request) (d : Dfuse H.Hw) (a : Answer H.Hw)
      → IsRequest req
      → Effect H C U req d a
      → IsSound goal d.flash
      → IsSound (goal ++ promised req d a) a.dfu.flash
  asks-IsSound goal req d a q (Effect.keeps t n e) s = rw (t, append-nil, e) s
  asks-IsSound goal req d a q (Effect.erases t n first e) s =
      rw (t, append-nil) (erase-IsSound H C goal (address_at_1 req.buffer) d.flash a.dfu.flash s e)
  asks-IsSound goal req d a q (Effect.writes t n e) s =
      rw (t, ← block_address_lem d.base_addr req.block)
        (write-IsSound H C goal (block_address d.base_addr req.block) req.len req.buffer d.flash
          a.dfu.flash s q.fits q.enough q.bytes e)

  read_memory-log : (src i n : ℕ) (b : Bus H.Hw) → (read_memory H src i n b).1.log ≡ b.log
  unfolding read_memory read
  read_memory-log src i zero b = refl
  read_memory-log src i (suc n) b = read_memory-log src (i + 1) n (read H b)

  IsSound-if :
      (goal : List (ℕ × ℕ)) (b : Bool) (x y : List ℕ × Dfuse H.Hw)
      → IsSound goal x.1.flash
      → IsSound goal y.1.flash
      → IsSound goal (if b then x else y).1.flash
  IsSound-if goal true x y hx hy = hx
  IsSound-if goal false x y hx hy = hy

  pub upload-IsSound :
      (goal : List (ℕ × ℕ)) (alt block len : ℕ) (d : Dfuse H.Hw)
      → IsSound goal d.flash
      → IsSound goal (upload H C U alt block len d).1.flash
  unfolding upload
  upload-IsSound goal alt block len d s =
      let src = block_address d.base_addr block in
      IsSound-if goal (not (alt == 0)) _ _ s (
        IsSound-if goal (block == 0) _ _ (IsSound-if goal d.last_was_get_cmds _ _ s s) (
          IsSound-if goal (not d.have_addr) _ _ s (
            IsSound-if goal (ltb block 2) _ _ s
              (bus-IsSound goal d.flash _ s (ap image (read_memory-log src 0 len d.flash.bus))))))

  pub init-image : (f : Flash H.Hw) → image (Flash.init H C f).bus.log ≡ image f.bus.log
  unfolding Flash.init read
  init-image f = elim (Bool-cases (any_set (H.cr2 f.bus.hw) C.cr_lock)) [
    | inl e ↦ rw (e, image-emit, image-emit, append-nil, append-nil) refl
    | inr e ↦ rw e refl
  ]

  mount-IsSound :
      (goal : List (ℕ × ℕ)) (d : Dfuse H.Hw)
      → d.flash.state ≡ OpState.idle
      → IsSound goal d.flash
      → IsSound goal (mount H C U d).flash
  unfolding mount Flash.init
  mount-IsSound goal d st s = record {
    context = record {
      within = s.context.within;
      fits = s.context.fits;
      size = s.context.size;
      bytes = s.context.bytes;
    };
    agrees = Agrees.calm refl (init-image d.flash ∙ IsSound-idle s st);
  }

  Turn-IsSound :
      {d d' : Dfuse H.Hw} {w : List (ℕ × ℕ)} (goal : List (ℕ × ℕ))
      → AreCodes U
      → Turn d d' w
      → IsSound goal d.flash
      → IsSound (goal ++ w) d'.flash
  unfolding abort
  Turn-IsSound {d} goal k (processes e n) s =
      rw (e, n, append-nil) (process-IsSound H C goal d.flash s)
  Turn-IsSound {d} goal k (asks alt req r a q h e n) s =
      let effect =
        Effect-of (get_status-Effects H C U k r d s.context.size req q.enough q.fits alt) a h in
      rw (e, n) (asks-IsSound goal req d a q effect s)
  Turn-IsSound {d} goal k (uploads alt block len e n) s =
      rw (e, n, append-nil) (upload-IsSound goal alt block len d s)
  Turn-IsSound goal k (aborts e n) s = rw (e, n, append-nil) s
  Turn-IsSound {d} goal k (mounts st e n) s = rw (e, n, append-nil) (mount-IsSound goal d st s)

  -- Whatever happens, in whatever order.
  pub Session-IsSound :
      {d₀ d : Dfuse H.Hw} {w : List (ℕ × ℕ)}
      → AreCodes U
      → IsSound (image d₀.flash.bus.log) d₀.flash
      → Session d₀ d w
      → IsSound (image d₀.flash.bus.log ++ w) d.flash
  Session-IsSound k s start = rw append-nil s
  Session-IsSound {d₀} k s (later {w = w} {v = v} before turn) =
      rw (← append_assoc (image d₀.flash.bus.log) w v)
        (Turn-IsSound (image d₀.flash.bus.log ++ w) k turn (Session-IsSound k s before))

  pub IsContext-IsSound :
      (f : Flash H.Hw) → IsContext f → f.state ≡ OpState.idle → IsSound (image f.bus.log) f
  IsContext-IsSound f c st = record { context = c; agrees = Agrees.calm (rw st refl) refl }

  -- However the calls of `flash_process` and of the callbacks follow one another, from an idle state:
  -- at any time the accesses have stored a first part of the blocks that the host was told are being
  -- written, each byte once, in the order of the blocks and at its place, and nothing else.
  pub Session-prefix :
      {d₀ d : Dfuse H.Hw} {w : List (ℕ × ℕ)}
      → AreCodes U
      → IsContext d₀.flash
      → d₀.flash.state ≡ OpState.idle
      → Session d₀ d w
      → (rest : List (ℕ × ℕ)) × (image d.flash.bus.log ++ rest ≡ image d₀.flash.bus.log ++ w)
  Session-prefix {d₀} k c st session =
      IsSound-prefix (Session-IsSound k (IsContext-IsSound d₀.flash c st) session)

  -- Under the same conditions, whenever the flash is idle the accesses have stored all these blocks,
  -- and nothing else.
  pub Session-stores :
      {d₀ d : Dfuse H.Hw} {w : List (ℕ × ℕ)}
      → AreCodes U
      → IsContext d₀.flash
      → d₀.flash.state ≡ OpState.idle
      → Session d₀ d w
      → d.flash.state ≡ OpState.idle
      → image d.flash.bus.log ≡ image d₀.flash.bus.log ++ w
  Session-stores {d₀} k c st session idle_now =
      IsSound-idle (Session-IsSound k (IsContext-IsSound d₀.flash c st) session) idle_now
