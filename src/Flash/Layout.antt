-- ===== src/Flash/Layout.antt =====
-- Which sector an address selects in src/dfu_flash.c, and what its code relies on in the header and
-- in the flash interface.
use cs7000p_bootloader.Base.{
  ℕ, ◌+◌, ◌-◌, ◌*◌, ◌/◌, ◌%◌, ◌^◌, ◌<◌, ◌≡◌, true, false, ◌||◌, arith, bit, bit_and_seven, u32,
  ◌<<<◌,
}
use cs7000p_bootloader.Bus.{Access, Hardware}
use cs7000p_bootloader.Flash.{FlashMasks, addr_to_sector}

-- Every 32-bit address selects the sector that its bits 17 to 19 number, also one outside bank 2.
pub addr_to_sector_lem : (addr : ℕ) → addr < 2 ^ 32 → addr_to_sector addr ≡ addr / 2 ^ 17 % 8
unfolding addr_to_sector
addr_to_sector_lem addr h =
    omega (arith, bit_and_seven (u32 (addr + 2 ^ 32 - 0x08100000) / (128 * 1024)))

-- An address in sector `k` of bank 2, for `k` from 0 to 7, selects that sector.
pub addr_to_sector_bank_2 :
    (k r : ℕ) → k < 8 → r < 128 * 1024 → addr_to_sector (0x08100000 + k * (128 * 1024) + r) ≡ k
addr_to_sector_bank_2 k r hk hr =
    omega (arith, addr_to_sector_lem (0x08100000 + k * (128 * 1024) + r) (omega arith))

abbrev pub Disjoint : ℕ → ℕ → Type 0
Disjoint a b = (i : ℕ) → bit a i ≡ true → bit b i ≡ false

-- The header's masks: SNB is a field of three bits, and no other bit lies in it; START and FW, which
-- the hardware clears, are apart from the bits that it leaves alone.
pub record IsLayout (C : FlashMasks) : Type 0 where
  pub snb_field : C.cr_snb ≡ 7 <<< C.cr_snb_pos
  pub snb_in : C.cr_snb < 2 ^ 32
  pub snb-psize_0 : Disjoint C.cr_snb C.cr_psize_0
  pub snb-psize_1 : Disjoint C.cr_snb C.cr_psize_1
  pub snb-ser : Disjoint C.cr_snb C.cr_ser
  pub snb-start : Disjoint C.cr_snb C.cr_start
  pub snb-fw : Disjoint C.cr_snb C.cr_fw
  pub ser-start : Disjoint C.cr_ser C.cr_start
  pub ser-fw : Disjoint C.cr_ser C.cr_fw
  pub psize_0-start : Disjoint C.cr_psize_0 C.cr_start
  pub psize_0-fw : Disjoint C.cr_psize_0 C.cr_fw
  pub psize_1-start : Disjoint C.cr_psize_1 C.cr_start
  pub psize_1-fw : Disjoint C.cr_psize_1 C.cr_fw

-- A read of CR2 is a 32-bit value, and returns what was written last but for START and FW.
pub record IsStable (H : Hardware) (C : FlashMasks) : Type 0 where
  pub word : (h : H.Hw) → H.cr2 h < 2 ^ 32
  pub holds :
      (h : H.Hw) (v i : ℕ)
      → i < 32
      → bit C.cr_start i ≡ false
      → bit C.cr_fw i ≡ false
      → bit (H.cr2 (H.write (Access.cr2 v) h)) i ≡ bit v i

-- The value `v` that is written to CR2, where `old` was read: erase the sector, start.
pub record IsEraseCommand (C : FlashMasks) (sector old v : ℕ) : Type 0 where
  pub selects : (k : ℕ) → k < 3 → bit v (C.cr_snb_pos + k) ≡ bit sector k
  pub erases : (i : ℕ) → i < 32 → bit C.cr_ser i ≡ true → bit v i ≡ true
  pub starts : (i : ℕ) → bit C.cr_start i ≡ true → bit v i ≡ true
  pub full_width :
      (i : ℕ) → i < 32 → (bit C.cr_psize_0 i || bit C.cr_psize_1 i) ≡ true → bit v i ≡ true
  pub keeps :
      (i : ℕ)
      → i < 32
      → (bit C.cr_snb i || bit C.cr_ser i || bit C.cr_psize_0 i || bit C.cr_psize_1 i) ≡ false
      → (bit C.cr_start i || bit C.cr_fw i) ≡ false
      → bit v i ≡ bit old i
