-- ===== src/Clock.antt =====
-- src/clock.c: the two PLLs, and the clocks of the core, the buses and USB.
pub mod Tree
pub mod Tests
use cs7000p_bootloader.Base.{ℕ, ◌-◌, List, [], ◌∷◌, bit_or, ◌<<<◌}
use cs7000p_bootloader.Chip.{Reg, Wait, Op, clear, set_bits, replace, put, wait}

-- The constants of the manufacturer's header, without their prefixes.
pub record ClockMasks : Type 0 where
  pub pwr_cr3_scuen : ℕ
  pub pwr_d3cr_vos_0 : ℕ
  pub pwr_d3cr_vos_1 : ℕ
  pub rcc_cr_hseon : ℕ
  pub divm1 : ℕ
  pub pllsrc : ℕ
  pub pllsrc_hse : ℕ
  pub pll1rge_2 : ℕ
  pub divp1en : ℕ
  pub divq1en : ℕ
  pub rcc_cr_pll1on : ℕ
  pub d1cpre_div1 : ℕ
  pub d1ppre_div2 : ℕ
  pub hpre_div2 : ℕ
  pub d2ppre2_div2 : ℕ
  pub d2ppre1_div2 : ℕ
  pub d3ppre_div2 : ℕ
  pub acr_latency : ℕ
  pub acr_latency_2ws : ℕ
  pub cfgr_sw : ℕ
  pub cfgr_sw_pll1 : ℕ
  pub divm3 : ℕ
  pub divm3_0 : ℕ
  pub divm3_2 : ℕ
  pub pll3rge_2 : ℕ
  pub divq3en : ℕ
  pub rcc_cr_pll3on : ℕ
  pub usbsel : ℕ
  pub usbsel_1 : ℕ
  pub divm1_pos : ℕ
  pub divm3_pos : ℕ

module _ (M : ClockMasks) where
  open M use {
    pwr_cr3_scuen, pwr_d3cr_vos_0, pwr_d3cr_vos_1, rcc_cr_hseon, divm1, pllsrc, pllsrc_hse,
    pll1rge_2, divp1en, divq1en, rcc_cr_pll1on, d1cpre_div1, d1ppre_div2, hpre_div2, d2ppre2_div2,
    d2ppre1_div2, d3ppre_div2, acr_latency, acr_latency_2ws, cfgr_sw, cfgr_sw_pll1, divm3, divm3_0,
    divm3_2, pll3rge_2, divq3en, rcc_cr_pll3on, usbsel, usbsel_1, divm1_pos, divm3_pos,
  }

  -- `start_pll`, one entry for a statement. The words of a `|` that follows a `&` are put together first.
  unfoldable pub start_pll : List Op
  start_pll =
      clear Reg.pwr_cr3 pwr_cr3_scuen
      ∷ put Reg.pwr_d3cr (bit_or pwr_d3cr_vos_1 pwr_d3cr_vos_0)
      ∷ wait Wait.vos_ready
      ∷ set_bits Reg.rcc_cr rcc_cr_hseon
      ∷ wait Wait.hse_ready
      ∷ replace Reg.rcc_pllckselr (bit_or divm1 pllsrc) (bit_or (5 <<< divm1_pos) pllsrc_hse)
      ∷ put Reg.rcc_pll1divr
          (bit_or (bit_or (bit_or ((2 - 1) <<< 24) ((8 - 1) <<< 16)) ((2 - 1) <<< 9)) (160 - 1))
      ∷ set_bits Reg.rcc_pllcfgr (bit_or (bit_or pll1rge_2 divp1en) divq1en)
      ∷ set_bits Reg.rcc_cr rcc_cr_pll1on
      ∷ wait Wait.pll1_ready
      ∷ put Reg.rcc_d1cfgr (bit_or (bit_or d1cpre_div1 d1ppre_div2) hpre_div2)
      ∷ put Reg.rcc_d2cfgr (bit_or d2ppre2_div2 d2ppre1_div2)
      ∷ put Reg.rcc_d3cfgr d3ppre_div2
      ∷ replace Reg.flash_acr acr_latency acr_latency_2ws
      ∷ replace Reg.rcc_cfgr cfgr_sw cfgr_sw_pll1
      ∷ wait Wait.pll1_selected
      ∷ replace Reg.rcc_pllckselr divm3 (5 <<< divm3_pos)
      ∷ set_bits Reg.rcc_pllckselr (bit_or divm3_0 divm3_2)
      ∷ put Reg.rcc_pll3divr
          (bit_or (bit_or (bit_or ((2 - 1) <<< 24) ((5 - 1) <<< 16)) ((2 - 1) <<< 9)) (48 - 1))
      ∷ set_bits Reg.rcc_pllcfgr (bit_or pll3rge_2 divq3en)
      ∷ set_bits Reg.rcc_cr rcc_cr_pll3on
      ∷ wait Wait.pll3_ready
      ∷ replace Reg.rcc_d2ccip2r usbsel usbsel_1
      ∷ []
