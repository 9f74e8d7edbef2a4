-- ===== src/Chip/Shadow.antt =====
-- What rows of register accesses do to the bits that only the program changes, without the chip.
use cs7000p_bootloader.Base.{
  ℕ, ◌^◌, Bool, true, false, not, ◌&&◌, ◌||◌, List, [], ◌∷◌, ltb, leb, ◌==◌, if◌then◌else◌, bit,
  get_or, ◌≡◌, refl, sym, ap, ◌∙◌, arith,
}
use cs7000p_bootloader.Chip.{Reg, Wait, Op}

abbrev pub index : Reg → ℕ
index Reg.pwr_cr1 = 0
index Reg.pwr_cr3 = 1
index Reg.pwr_d3cr = 2
index Reg.rcc_cr = 3
index Reg.rcc_pllckselr = 4
index Reg.rcc_pll1divr = 5
index Reg.rcc_pllcfgr = 6
index Reg.rcc_d1cfgr = 7
index Reg.rcc_d2cfgr = 8
index Reg.rcc_d3cfgr = 9
index Reg.flash_acr = 10
index Reg.rcc_cfgr = 11
index Reg.rcc_pll3divr = 12
index Reg.rcc_d2ccip2r = 13
index Reg.rcc_apb4enr = 14
index Reg.rcc_ahb1enr = 15
index Reg.rcc_ahb4enr = 16
index Reg.otg_gotgctl = 17
index Reg.otg_gusbcfg = 18

-- Registers with one number are the same.
reg_at : ℕ → Reg
reg_at n =
    get_or
      (Reg.pwr_cr1 ∷ Reg.pwr_cr3 ∷ Reg.pwr_d3cr ∷ Reg.rcc_cr ∷ Reg.rcc_pllckselr ∷ Reg.rcc_pll1divr
        ∷ Reg.rcc_pllcfgr ∷ Reg.rcc_d1cfgr ∷ Reg.rcc_d2cfgr ∷ Reg.rcc_d3cfgr ∷ Reg.flash_acr
        ∷ Reg.rcc_cfgr ∷ Reg.rcc_pll3divr ∷ Reg.rcc_d2ccip2r ∷ Reg.rcc_apb4enr ∷ Reg.rcc_ahb1enr
        ∷ Reg.rcc_ahb4enr ∷ Reg.otg_gotgctl ∷ Reg.otg_gusbcfg ∷ [])
      n Reg.pwr_cr1

reg_at-index : (r : Reg) → reg_at (index r) ≡ r
unfolding reg_at
reg_at-index Reg.pwr_cr1 = refl
reg_at-index Reg.pwr_cr3 = refl
reg_at-index Reg.pwr_d3cr = refl
reg_at-index Reg.rcc_cr = refl
reg_at-index Reg.rcc_pllckselr = refl
reg_at-index Reg.rcc_pll1divr = refl
reg_at-index Reg.rcc_pllcfgr = refl
reg_at-index Reg.rcc_d1cfgr = refl
reg_at-index Reg.rcc_d2cfgr = refl
reg_at-index Reg.rcc_d3cfgr = refl
reg_at-index Reg.flash_acr = refl
reg_at-index Reg.rcc_cfgr = refl
reg_at-index Reg.rcc_pll3divr = refl
reg_at-index Reg.rcc_d2ccip2r = refl
reg_at-index Reg.rcc_apb4enr = refl
reg_at-index Reg.rcc_ahb1enr = refl
reg_at-index Reg.rcc_ahb4enr = refl
reg_at-index Reg.otg_gotgctl = refl
reg_at-index Reg.otg_gusbcfg = refl

pub same_index : (r r' : Reg) → (index r' == index r) ≡ true → r' ≡ r
same_index r r' e =
    let same : index r' ≡ index r = ground arith in
    sym (reg_at-index r') ∙ ap reg_at same ∙ reg_at-index r

-- The bits of every register.
abbrev pub Bits : Type 0
Bits = Reg → ℕ → Bool

-- The bits that only the program changes, and that keep what it writes.
abbrev pub owned : Reg → ℕ → Bool
owned Reg.pwr_cr1 i = i == 8
owned Reg.pwr_cr3 i = i == 24
owned Reg.pwr_d3cr i = leb 14 i && ltb i 16
owned Reg.rcc_cr i = (i == 16) || (i == 24) || (i == 26) || (i == 28)
owned Reg.rcc_pllckselr i =
    ltb i 2 || leb 4 i && ltb i 10 || leb 12 i && ltb i 18 || leb 20 i && ltb i 26
owned Reg.rcc_pll1divr i = ltb i 31
owned Reg.rcc_pllcfgr i = ltb i 25
owned Reg.rcc_d1cfgr i = ltb i 7 || leb 8 i && ltb i 12
owned Reg.rcc_d2cfgr i = leb 4 i && ltb i 7 || leb 8 i && ltb i 11
owned Reg.rcc_d3cfgr i = leb 4 i && ltb i 7
owned Reg.flash_acr i = ltb i 4
owned Reg.rcc_cfgr i = ltb i 3
owned Reg.rcc_pll3divr i = ltb i 31
owned Reg.rcc_d2ccip2r i = leb 20 i && ltb i 22
owned Reg.rcc_apb4enr i = (i == 1) || (i == 16)
owned Reg.rcc_ahb1enr i = i == 27
owned Reg.rcc_ahb4enr i = ltb i 5 || (i == 7)
owned Reg.otg_gotgctl i = leb 6 i && ltb i 8
owned Reg.otg_gusbcfg i = i == 30

-- The other bits: flags, the supply, which is chosen once, reserved bits, and what lies past a word.
abbrev pub volatile : Reg → ℕ → Bool
volatile r i = leb 32 i || not (owned r i)

-- The registers of USB are there once its clock is on.
abbrev pub powered : Reg → Bits → Bool
powered Reg.otg_gotgctl f = f Reg.rcc_ahb1enr 27
powered Reg.otg_gusbcfg f = f Reg.rcc_ahb1enr 27
powered _ f = true

-- The bits of the PLLs that a write does not change while a PLL is on: the source while any is, the
-- dividers, the input range and the outputs of a PLL while that one is.
abbrev pub locked_if : (pll1 pll2 pll3 : Bool) → Reg → ℕ → Bool
locked_if pll1 pll2 pll3 Reg.rcc_pllckselr i =
    if ltb i 2
    then pll1 || pll2 || pll3
    else if ltb i 10
    then pll1
    else if ltb i 20
    then pll2
    else pll3
locked_if pll1 pll2 pll3 Reg.rcc_pll1divr i = pll1
locked_if pll1 pll2 pll3 Reg.rcc_pll3divr i = pll3
locked_if pll1 pll2 pll3 Reg.rcc_pllcfgr i =
    if ltb i 4 || leb 16 i && ltb i 19
    then pll1
    else if leb 8 i && ltb i 12 || leb 22 i && ltb i 25
    then pll3
    else false
locked_if pll1 pll2 pll3 _ i = false

abbrev pub locked : Bits → Reg → ℕ → Bool
locked f r i = locked_if (f Reg.rcc_cr 24) (f Reg.rcc_cr 26) (f Reg.rcc_cr 28) r i

-- What has to be set for a flag to come: the write to DBP; the external oscillator; a PLL and its source;
-- the choice of PLL1.
abbrev pub needs : Wait → Bits → Bool
needs Wait.dbp_set f = f Reg.pwr_cr1 8
needs Wait.vos_ready f = true
needs Wait.hse_ready f = f Reg.rcc_cr 16
needs Wait.pll1_ready f = f Reg.rcc_cr 24 && f Reg.rcc_cr 16 && f Reg.rcc_pllckselr 1
needs Wait.pll1_selected f = f Reg.rcc_cfgr 0 && f Reg.rcc_cfgr 1 && not (f Reg.rcc_cfgr 2)
needs Wait.pll3_ready f = f Reg.rcc_cr 28 && f Reg.rcc_cr 16 && f Reg.rcc_pllckselr 1
needs Wait.usb33_ready f = f Reg.pwr_cr3 24

-- A write of the bits `v` to a register.
abbrev pub written : Reg → (ℕ → Bool) → Bits → Bits
written r v f r' i = if index r' == index r then if locked f r' i then f r' i else v i else f r' i

abbrev pub shadow_step : Op → Bits → Bits
shadow_step (Op.clear r mask) f = written r (λ i. if bit mask i then false else f r i) f
shadow_step (Op.set_bits r value) f = written r (λ i. if bit value i then true else f r i) f
shadow_step (Op.replace r mask value) f =
    written r (λ i. if bit value i then true else if bit mask i then false else f r i) f
shadow_step (Op.put r value) f = written r (bit value) f
shadow_step (Op.wait w) f = f
shadow_step Op.dsb f = f

abbrev pub shadow : List Op → Bits → Bits
shadow [] f = f
shadow (op ∷ ops) f = shadow ops (shadow_step op f)

-- Each loop waits for something that comes, each register that is written is there, and each mask is a
-- word.
abbrev pub sound_step : Op → Bits → Bool
sound_step (Op.clear r mask) f = powered r f && ltb mask (2 ^ 32)
sound_step (Op.set_bits r value) f = powered r f
sound_step (Op.replace r mask value) f = powered r f && ltb mask (2 ^ 32)
sound_step (Op.put r value) f = powered r f
sound_step (Op.wait w) f = needs w f
sound_step Op.dsb f = true

abbrev pub sound : List Op → Bits → Bool
sound [] f = true
sound (op ∷ ops) f = sound_step op f && sound ops (shadow_step op f)
