-- ===== src/Clock/Tree.antt =====
-- The clocks after `start_pll` of src/clock.c.
use cs7000p_bootloader.Base.{
  ℕ, zero, suc, ◌+◌, ◌*◌, ◌/◌, ◌≡◌, refl, ◌∙◌, Bool, true, false, ◌&&◌, ◌||◌, not, ◌==◌,
  if◌then◌else◌, arith,
}
use cs7000p_bootloader.Chip.{Reg, Chip, FlagMasks}
use cs7000p_bootloader.Chip.Shadow.{Bits, volatile, shadow}
use cs7000p_bootloader.Chip.Laws.{bits_of, IsChip, Follows}
use cs7000p_bootloader.Clock.{ClockMasks, start_pll}

-- What the manufacturer's header defines.
abbrev pub header : ClockMasks
header = record {
  pwr_cr3_scuen = 4;
  pwr_d3cr_vos_0 = 0x4000;
  pwr_d3cr_vos_1 = 0x8000;
  rcc_cr_hseon = 0x10000;
  divm1 = 0x3F0;
  pllsrc = 3;
  pllsrc_hse = 2;
  pll1rge_2 = 8;
  divp1en = 0x10000;
  divq1en = 0x20000;
  rcc_cr_pll1on = 0x1000000;
  d1cpre_div1 = 0;
  d1ppre_div2 = 0x40;
  hpre_div2 = 8;
  d2ppre2_div2 = 0x400;
  d2ppre1_div2 = 0x40;
  d3ppre_div2 = 0x40;
  acr_latency = 0xF;
  acr_latency_2ws = 2;
  cfgr_sw = 7;
  cfgr_sw_pll1 = 3;
  divm3 = 0x3F00000;
  divm3_0 = 0x100000;
  divm3_2 = 0x400000;
  pll3rge_2 = 0x800;
  divq3en = 0x800000;
  rcc_cr_pll3on = 0x10000000;
  usbsel = 0x300000;
  usbsel_1 = 0x200000;
  divm1_pos = 4;
  divm3_pos = 0x14;
}

-- The number in the `w` bits of a register from bit `p` on.
abbrev pub field : Bits → Reg → (p : ℕ) → ℕ → ℕ
field f r p zero = 0
field f r p (suc w) = (if f r p then 1 else 0) + 2 * field f r (suc p) w

-- The frequency of an output of a PLL whose input is `hse` Hz, from the divider M, the factor N, and the
-- divider of the output.
abbrev pub output_hz : (hse m n d : ℕ) → ℕ
output_hz hse m n d = hse / m * (n + 1) / (d + 1)

-- What the registers say: the frequency of the core, if PLL1 is chosen for it and takes the external
-- oscillator, and that of USB, if PLL3 is chosen.
abbrev pub core_hz : (hse : ℕ) → Bits → ℕ
core_hz hse f =
    if (field f Reg.rcc_cfgr 0 3 == 3)
      && (field f Reg.rcc_pllckselr 0 2 == 2)
      && f Reg.rcc_cr 24
      && f Reg.rcc_pllcfgr 16
    then output_hz hse (field f Reg.rcc_pllckselr 4 6) (field f Reg.rcc_pll1divr 0 9)
        (field f Reg.rcc_pll1divr 9 7)
    else 0

abbrev pub usb_hz : (hse : ℕ) → Bits → ℕ
usb_hz hse f =
    if (field f Reg.rcc_d2ccip2r 20 2 == 2)
      && (field f Reg.rcc_pllckselr 0 2 == 2)
      && f Reg.rcc_cr 28
      && f Reg.rcc_pllcfgr 23
    then output_hz hse (field f Reg.rcc_pllckselr 20 6) (field f Reg.rcc_pll3divr 0 9)
        (field f Reg.rcc_pll3divr 16 7)
    else 0

-- The clocks as they are meant to be, from an oscillator of 25 MHz: the core at 400 MHz and USB at 48 MHz,
-- the buses at half of their clocks, two wait states of the flash, and the input range of 4 to 8 MHz for
-- both PLLs.
pub record IsClocked (f : Bits) : Type 0 where
  pub core : core_hz 25000000 f ≡ 400000000
  pub usb : usb_hz 25000000 f ≡ 48000000
  pub hpre : field f Reg.rcc_d1cfgr 0 4 ≡ 8
  pub d1ppre : field f Reg.rcc_d1cfgr 4 3 ≡ 4
  pub d2ppre1 : field f Reg.rcc_d2cfgr 4 3 ≡ 4
  pub d2ppre2 : field f Reg.rcc_d2cfgr 8 3 ≡ 4
  pub d3ppre : field f Reg.rcc_d3cfgr 4 3 ≡ 4
  pub latency : field f Reg.flash_acr 0 4 ≡ 2
  pub pll1_range : field f Reg.rcc_pllcfgr 2 2 ≡ 2
  pub pll3_range : field f Reg.rcc_pllcfgr 10 2 ≡ 2

-- The state in which the comment in `main` has the PLLs: off, without the lower bit of their input ranges.
abbrev pub is_reset_bit : Reg → ℕ → Bool
is_reset_bit Reg.rcc_cr i = (i == 24) || (i == 26) || (i == 28)
is_reset_bit Reg.rcc_pllcfgr i = (i == 2) || (i == 10)
is_reset_bit _ i = false

abbrev pub AreOff : Bits → Type 0
AreOff f = (r : Reg) (i : ℕ) → (is_reset_bit r i && f r i) ≡ false

-- The bits `f` with those that are known written out.
abbrev pub known : Bits → Bits
known f r i = if is_reset_bit r i then false else f r i

configured : Bits → Bits
configured f = shadow (start_pll header) (known f)

-- Fields in which only the program writes.
abbrev calm : Reg → (p : ℕ) → ℕ → Bool
calm r p zero = true
calm r p (suc w) = not (volatile r p) && calm r (suc p) w

module _ (K : Chip) (F : FlagMasks) {limit : ℕ} (L : IsChip K F limit) where
  pub known-Follows : (h : K.Hw) → AreOff (bits_of K h) → Follows K F L (known (bits_of K h)) h
  known-Follows h off r i v = known_bit (is_reset_bit r i) (bits_of K h r i) (off r i)
    where
      known_bit : (b x : Bool) → (b && x) ≡ false → x ≡ (if b then false else x)
      known_bit true x e = e
      known_bit false x e = refl

  field-Follows :
      (f : Bits) (h : K.Hw) (r : Reg) (p w : ℕ)
      → Follows K F L f h
      → calm r p w ≡ true
      → field (bits_of K h) r p w ≡ field f r p w
  field-Follows f h r p zero a c = refl
  field-Follows f h r p (suc w) a c =
      rw (a r p (ground arith), field-Follows f h r (suc p) w a (ground arith)) refl

  pub IsClocked-Follows :
      (f : Bits) (h : K.Hw) → Follows K F L f h → IsClocked f → IsClocked (bits_of K h)
  IsClocked-Follows f h a c =
      let same : (r : Reg) (p w : ℕ)
          → calm r p w ≡ true
          → field (bits_of K h) r p w ≡ field f r p w =
        λ r p w. field-Follows f h r p w a in
      record {
        core =
            rw
              (
                same Reg.rcc_cfgr 0 3 refl,
                same Reg.rcc_pllckselr 0 2 refl,
                a Reg.rcc_cr 24 refl,
                a Reg.rcc_pllcfgr 16 refl,
                same Reg.rcc_pllckselr 4 6 refl,
                same Reg.rcc_pll1divr 0 9 refl,
                same Reg.rcc_pll1divr 9 7 refl,
              )
              c.core;
        usb =
            rw
              (
                same Reg.rcc_d2ccip2r 20 2 refl,
                same Reg.rcc_pllckselr 0 2 refl,
                a Reg.rcc_cr 28 refl,
                a Reg.rcc_pllcfgr 23 refl,
                same Reg.rcc_pllckselr 20 6 refl,
                same Reg.rcc_pll3divr 0 9 refl,
                same Reg.rcc_pll3divr 16 7 refl,
              )
              c.usb;
        hpre = same Reg.rcc_d1cfgr 0 4 refl ∙ c.hpre;
        d1ppre = same Reg.rcc_d1cfgr 4 3 refl ∙ c.d1ppre;
        d2ppre1 = same Reg.rcc_d2cfgr 4 3 refl ∙ c.d2ppre1;
        d2ppre2 = same Reg.rcc_d2cfgr 8 3 refl ∙ c.d2ppre2;
        d3ppre = same Reg.rcc_d3cfgr 4 3 refl ∙ c.d3ppre;
        latency = same Reg.flash_acr 0 4 refl ∙ c.latency;
        pll1_range = same Reg.rcc_pllcfgr 2 2 refl ∙ c.pll1_range;
        pll3_range = same Reg.rcc_pllcfgr 10 2 refl ∙ c.pll3_range;
      }
