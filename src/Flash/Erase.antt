-- ===== src/Flash/Erase.antt =====
-- The sector erase of src/dfu_flash.c: the command that is written to CR2.
use cs7000p_bootloader.Base.{
  ℕ, ◌+◌, ◌-◌, ◌*◌, ◌/◌, ◌%◌, ◌^◌, ◌<◌, ◌≡◌, refl, ap, ◌∙◌, Bool, true, false, ltb, not, ◌&&◌, ◌||◌,
  List, [], ◌∷◌, ◌++◌, arith, append_assoc, bit_and, bit_or, bit, bit-bit_or, bit-clear, bit-<<<,
  bit_above, bit-ones, bit_and_seven, any_set, not32, u32, ◌<<<◌,
}
use native.Mathlib.Nat.{add-sub_cancel_left}
use cs7000p_bootloader.Bus.{Access, Hardware, Bus, read, emit, update_cr2}
use cs7000p_bootloader.Flash.{
  erase_pending, erase_busy, FlashMasks, Flash, addr_to_sector, start_erase, op_complete,
  process_erase_pending, process_in, process,
}
use cs7000p_bootloader.Flash.Layout.{IsLayout, IsStable, IsEraseCommand, addr_to_sector_lem}

module _ (H : Hardware) (C : FlashMasks) (S : IsStable H C) where
  cr2-update :
      (g : ℕ → ℕ) (b : Bus H.Hw) (i : ℕ)
      → i < 32
      → bit C.cr_start i ≡ false
      → bit C.cr_fw i ≡ false
      → bit (H.cr2 (update_cr2 H g b).hw) i ≡ bit (g (H.cr2 b.hw)) i
  unfolding update_cr2 emit
  cr2-update g b i small hs hf = S.holds _ _ i small hs hf

  -- The digits of the last write, one by one.
  command_digit : (sector : ℕ) (old i : ℕ) → Bool
  command_digit sector old i =
      ((bit old i || bit C.cr_psize_1 i || bit C.cr_psize_0 i) && not (bit C.cr_snb i))
      || bit (sector <<< C.cr_snb_pos) i
      || bit C.cr_ser i
      || bit C.cr_start i

  -- The value that starts the erase.
  erase_value : ℕ → Bus H.Hw → ℕ
  erase_value addr b =
      let b₁ = update_cr2 H (λ v. bit_or v (bit_or C.cr_psize_1 C.cr_psize_0)) b in
      let b₂ = update_cr2 H (λ v. bit_and v (not32 C.cr_snb)) b₁ in
      let b₃ = update_cr2 H (λ v. bit_or v (addr_to_sector addr <<< C.cr_snb_pos)) b₂ in
      let b₄ = update_cr2 H (λ v. bit_or v C.cr_ser) b₃ in bit_or (H.cr2 b₄.hw) C.cr_start

  module _ (i : ℕ) (small : i < 32) (no_start : bit C.cr_start i ≡ false)
      (no_fw : bit C.cr_fw i ≡ false) where
    cr2-set :
        (m : ℕ) (b : Bus H.Hw)
        → bit (H.cr2 (update_cr2 H (λ v. bit_or v m) b).hw) i ≡ (bit (H.cr2 b.hw) i || bit m i)
    cr2-set m b = rw (cr2-update (λ v. bit_or v m) b i small no_start no_fw, bit-bit_or)

    cr2-clear :
        (m : ℕ) (b : Bus H.Hw)
        → m < 2 ^ 32
        → bit (H.cr2 (update_cr2 H (λ v. bit_and v (not32 m)) b).hw) i
          ≡ (bit (H.cr2 b.hw) i && not (bit m i))
    cr2-clear m b h =
        cr2-update (λ v. bit_and v (not32 m)) b i small no_start no_fw
        ∙ bit-clear (H.cr2 b.hw) m i (S.word b.hw) h

    bit-erase_value :
        (L : IsLayout C) (addr : ℕ) (b : Bus H.Hw)
        → bit (erase_value addr b) i ≡ command_digit (addr_to_sector addr) (H.cr2 b.hw) i
    unfolding erase_value command_digit
    bit-erase_value L addr b =
        let b₁ = update_cr2 H (λ v. bit_or v (bit_or C.cr_psize_1 C.cr_psize_0)) b in
        let b₂ = update_cr2 H (λ v. bit_and v (not32 C.cr_snb)) b₁ in
        let b₃ = update_cr2 H (λ v. bit_or v (addr_to_sector addr <<< C.cr_snb_pos)) b₂ in
        let b₄ = update_cr2 H (λ v. bit_or v C.cr_ser) b₃ in
        ground (
          arith,
          bit-bit_or i (H.cr2 b₄.hw) C.cr_start,
          cr2-set C.cr_ser b₃,
          cr2-set (addr_to_sector addr <<< C.cr_snb_pos) b₂,
          cr2-clear C.cr_snb b₁ L.snb_in,
          cr2-set (bit_or C.cr_psize_1 C.cr_psize_0) b,
          bit-bit_or i C.cr_psize_1 C.cr_psize_0,
        )

  -- The digits of SNB are the three from its position on.
  bit-snb :
      (L : IsLayout C) (i : ℕ)
      → bit C.cr_snb i ≡ (not (ltb i C.cr_snb_pos) && ltb (i - C.cr_snb_pos) 3)
  bit-snb L i = rw (L.snb_field, bit-<<<, bit-ones 3 (i - C.cr_snb_pos))

  -- The sector number lies in its field.
  bit-sector :
      (L : IsLayout C) (sector i : ℕ)
      → sector < 8
      → bit C.cr_snb i ≡ false
      → bit (sector <<< C.cr_snb_pos) i ≡ false
  bit-sector L sector i h e =
      ground
        (arith, bit-snb L i, bit-<<< C.cr_snb_pos i sector, bit_above 3 (i - C.cr_snb_pos) sector)

  addr_to_sector-lt : (addr : ℕ) → addr_to_sector addr < 8
  unfolding addr_to_sector
  addr_to_sector-lt addr =
      omega (arith, bit_and_seven (u32 (addr + 2 ^ 32 - 0x08100000) / (128 * 1024)))

  selected_digit : (p k x : ℕ) → bit (x <<< p) (p + k) ≡ bit x k
  selected_digit p k x = rw bit-<<< (ground (arith, ap (bit x) (add-sub_cancel_left p k)))

  erase_value-starts :
      (addr : ℕ) (b : Bus H.Hw) (i : ℕ)
      → bit C.cr_start i ≡ true
      → bit (erase_value addr b) i ≡ true
  unfolding erase_value
  erase_value-starts addr b i e = rw bit-bit_or (ground arith)

  erase_value-IsEraseCommand :
      (L : IsLayout C) (addr : ℕ) (b : Bus H.Hw)
      → IsEraseCommand C (addr_to_sector addr) (H.cr2 b.hw) (erase_value addr b)
  unfolding command_digit
  erase_value-IsEraseCommand L addr b = record {
    selects = λ k h.
        let i = C.cr_snb_pos + k in
        ground (
          arith,
          bit-snb L i,
          selected_digit C.cr_snb_pos k (addr_to_sector addr),
          add-sub_cancel_left C.cr_snb_pos k,
          L.snb-start i,
          L.snb-fw i,
          L.snb-ser i,
          digit i (in_word k h),
        );
    erases = λ i small e. ground (arith, L.ser-start i e, L.ser-fw i e, digit i small);
    starts = erase_value-starts addr b;
    full_width = λ i small e. ground (
      arith,
      L.snb-psize_0 i,
      L.snb-psize_1 i,
      L.psize_0-start i,
      L.psize_0-fw i,
      L.psize_1-start i,
      L.psize_1-fw i,
      digit i small,
    );
    keeps = λ i small e h.
        ground
          (arith, bit-sector L (addr_to_sector addr) i (addr_to_sector-lt addr), digit i small);
  }
    where
      in_word : (k : ℕ) → k < 3 → C.cr_snb_pos + k < 32
      in_word k h = ground (
        arith,
        bit-snb L (C.cr_snb_pos + k),
        add-sub_cancel_left C.cr_snb_pos k,
        bit_above 32 (C.cr_snb_pos + k) C.cr_snb L.snb_in,
      )

      digit :
          (i : ℕ)
          → i < 32
          → bit C.cr_start i ≡ false
          → bit C.cr_fw i ≡ false
          → bit (erase_value addr b) i ≡ command_digit (addr_to_sector addr) (H.cr2 b.hw) i
      digit i small hs hf = bit-erase_value i small hs hf L addr b

  update_cr2-log :
      (g : ℕ → ℕ) (b : Bus H.Hw)
      → (update_cr2 H g b).log ≡ b.log ++ (Access.cr2 (g (H.cr2 b.hw)) ∷ [])
  unfolding update_cr2 emit read
  update_cr2-log g b = refl

  -- The four writes that set the command up, and the one that starts it.
  start_erase-log :
      (addr : ℕ) (b : Bus H.Hw)
      → (l : List Access) × ((start_erase H C addr b).log
          ≡ b.log ++ (l ++ (Access.cr2 (erase_value addr b) ∷ [])))
  unfolding start_erase erase_value
  start_erase-log addr b =
      let b₁ = update_cr2 H (λ v. bit_or v (bit_or C.cr_psize_1 C.cr_psize_0)) b in
      let b₂ = update_cr2 H (λ v. bit_and v (not32 C.cr_snb)) b₁ in
      let b₃ = update_cr2 H (λ v. bit_or v (addr_to_sector addr <<< C.cr_snb_pos)) b₂ in
      (
        Access.cr2 (bit_or (H.cr2 b.hw) (bit_or C.cr_psize_1 C.cr_psize_0))
            ∷ Access.cr2 (bit_and (H.cr2 b₁.hw) (not32 C.cr_snb))
            ∷ Access.cr2 (bit_or (H.cr2 b₂.hw) (addr_to_sector addr <<< C.cr_snb_pos))
            ∷ Access.cr2 (bit_or (H.cr2 b₃.hw) C.cr_ser)
            ∷ [],
        simp (update_cr2-log, append_assoc),
      )

  -- If CR2 keeps what is written to it, and the masks have the layout of the header: a call of
  -- `flash_process` with an erase pending at a 32-bit address and no operation queued writes to CR2
  -- last, and the value starts the erase of the sector that bits 17 to 19 of the address number. SNB
  -- holds that number, SER, START and both PSIZE bits are set, and the bits outside these masks
  -- and FW are as they were read. The state is then ERASE_BUSY.
  pub process-erases :
      (f : Flash H.Hw)
      → IsLayout C
      → f.state ≡ erase_pending
      → f.addr < 2 ^ 32
      → any_set (H.sr2 f.bus.hw) C.sr_qw ≡ false
      → let f' = process H C f in
        (l : List Access) × (v : ℕ) × (f'.state ≡ erase_busy)
        × (f'.bus.log ≡ (op_complete H C f.bus).1.log ++ (l ++ (Access.cr2 v ∷ [])))
        × IsEraseCommand C (f.addr / 2 ^ 17 % 8) (H.cr2 (op_complete H C f.bus).1.hw) v
  process-erases f L st a ready =
      let b = (op_complete H C f.bus).1 in
      let (l, e) = start_erase-log f.addr b in
      (
        l,
        erase_value f.addr b,
        ap (λ (g : Flash H.Hw). g.state) (step f st ready),
        ap (λ (g : Flash H.Hw). g.bus.log) (step f st ready) ∙ e,
        rw (← addr_to_sector_lem f.addr a) (erase_value-IsEraseCommand L f.addr b),
      )
    where
      ready-0 : (b : Bus H.Hw) → any_set (H.sr2 b.hw) C.sr_qw ≡ false → (op_complete H C b).0 ≡ true
      ready-0 b e = unfold op_complete in rw e refl

      step :
          (f : Flash H.Hw)
          → f.state ≡ erase_pending
          → any_set (H.sr2 f.bus.hw) C.sr_qw ≡ false
          → process H C f ≡ record f {
            state = erase_busy;
            bus = start_erase H C f.addr (op_complete H C f.bus).1;
          }
      step f st ready =
          unfold process process_in process_erase_pending in
          (ap (λ s. process_in H C s f) st ∙ rw (ready-0 f.bus ready) refl)
