-- ===== src/Dfu/Upload.antt =====
-- The uploads of src/dfu_tinyusb.c: the list of commands, and the memory read back.
use mathlib.Core.Path.{ap₂}
use native.Mathlib.Nat.{suc-add}
use cs7000p_bootloader.Base.{
  ℕ, zero, suc, ◌+◌, ◌-◌, ◌*◌, ◌≤◌, min, ◌≡◌, refl, ap, ◌∙◌, true, false, List, [], ◌∷◌, arith, u32,
  length, take, get_or, ltb, ◌==◌, ◌&&◌, if◌then◌else◌,
}
use cs7000p_bootloader.Bus.{Hardware, Bus, read}
use cs7000p_bootloader.Flash.{xfer_bufsize, FlashMasks}
use cs7000p_bootloader.Flash.Image.{placed}
use cs7000p_bootloader.Dfu.Words.{block_address_lem}
use cs7000p_bootloader.Dfu.{
  DfuCodes, Request, Response, Dfuse, respond, reply, get_status, upload, read_memory, dfuse_cmds,
}

abbrev values : List (ℕ × ℕ) → List ℕ
values [] = []
values ((a, v) ∷ l) = v ∷ values l

values-placed_tail :
    (x : ℕ) (xs : List ℕ) (addr k n : ℕ) (addr' : ℕ)
    → values (placed (x ∷ xs) addr (suc k) n) ≡ values (placed xs addr' k n)
unfolding placed
values-placed_tail x xs addr k zero addr' = refl
values-placed_tail x xs addr k (suc n) addr' =
    rw suc-add (ap (λ l. get_or xs k 0 ∷ l) (values-placed_tail x xs addr (k + 1) n addr'))

values-placed : (xs : List ℕ) (addr n : ℕ) → n ≤ length xs → values (placed xs addr 0 n) ≡ take n xs
unfolding placed
values-placed xs addr zero h = refl
values-placed [] addr (suc n) h = absurd (omega arith)
values-placed (x ∷ xs) addr (suc n) h =
    ap (λ l. x ∷ l) (values-placed_tail x xs addr 0 n addr ∙ values-placed xs addr n (omega arith))

module _ (H : Hardware) where
  -- Every byte of the list is in the memory, at its place.
  abbrev pub Holds : H.Hw → List (ℕ × ℕ) → Type 0
  Holds h [] = Unit {0}
  Holds h ((a, v) ∷ l) = (H.mem h a ≡ v) × Holds h l

  -- The memory does not change by being read.
  abbrev pub IsQuiet : Type 0
  IsQuiet = (h : H.Hw) (a : ℕ) → H.mem (H.elapse h) a ≡ H.mem h a

  Holds-elapse : (q : IsQuiet) (h : H.Hw) (l : List (ℕ × ℕ)) → Holds h l → Holds (H.elapse h) l
  Holds-elapse q h [] p = tt
  Holds-elapse q h ((a, v) ∷ l) p = (q h a ∙ p.0, Holds-elapse q h l p.1)

  read_memory-values :
      (q : IsQuiet) (xs : List ℕ) (addr i n : ℕ) (b : Bus H.Hw)
      → Holds b.hw (placed xs addr i n)
      → (read_memory H addr i n b).0 ≡ values (placed xs addr i n)
  unfolding read_memory placed read
  read_memory-values q xs addr i zero b p = refl
  read_memory-values q xs addr i (suc n) b p =
      ap₂ ◌∷◌ p.0 (read_memory-values q xs addr (i + 1) n (read H b) (Holds-elapse q b.hw _ p.1))

module _ (H : Hardware) (C : FlashMasks) (U : DfuCodes) where
  -- Reading a block back gives the first `len` bytes of `src` if the memory holds them where a
  -- download of that block stores them, and if reading does not change the memory.
  pub upload-block :
      (block len : ℕ) (src : List ℕ) (d : Dfuse H.Hw)
      → IsQuiet H
      → 2 ≤ block
      → d.have_addr ≡ true
      → len ≤ length src
      → Holds H d.flash.bus.hw (placed src (u32 (d.base_addr + (block - 2) * xfer_bufsize)) 0 len)
      → (upload H C U 0 block len d).0 ≡ take len src
  unfolding upload
  upload-block block len src d q hb ha enough held =
      let not_first : (block == 0) ≡ false = ground arith in
      let not_second : ltb block 2 ≡ false = ground arith in
      let addr = u32 (d.base_addr + (block - 2) * xfer_bufsize) in
      rw (not_first, ha, not_second, block_address_lem d.base_addr block)
        (read_memory-values H q src addr 0 len d.flash.bus held ∙ values-placed src addr len enough)

  -- After the GetCommands request an upload of block 0 returns the three command bytes, or as many of
  -- them as fit; it does so once, and the next returns none.
  pub upload-get_commands :
      (len : ℕ) (req : Request) (r : Response) (d : Dfuse H.Hw)
      → req.block ≡ 0
      → req.len ≡ 1
      → get_or req.buffer 0 0 ≡ 0
      → let d' = record d { last_was_get_cmds = true } in
        (get_status H C U 0 req r d ≡ reply H C U (respond U.ok U.dnload_idle 0 r) d')
        × ((upload H C U 0 0 len d').0 ≡ take (min len 3) dfuse_cmds)
        × ((upload H C U 0 0 len (upload H C U 0 0 len d').1).0 ≡ [])
  unfolding get_status upload
  upload-get_commands len req r d hb hl hc =
      let command : ((req.block == 0) && (req.len == 1) && (get_or req.buffer 0 0 == 0)) ≡ true =
        ground arith in
      (rw command refl, ap (λ n. take n dfuse_cmds) shorter, refl)
    where
      shorter : (if ltb len 3 then len else 3) ≡ min len 3
      shorter = ground arith
