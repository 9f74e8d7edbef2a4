-- ===== src/Init/Laws.antt =====
-- What rows of statements of the set-up do, on the bits of Chip.Shadow.
use mathlib.Core.Option
use cs7000p_bootloader.Base.{
  ℕ, ◌<◌, ◌≡◌, refl, ◌∙◌, Bool, true, ◌&&◌, some, List, [], ◌∷◌, ◌++◌, ap, arith,
}
use cs7000p_bootloader.Bus.{Port, gpioa, gpiob, gpioc, gpiod, gpioe, gpioh}
use cs7000p_bootloader.Gpio.{Registers}
use cs7000p_bootloader.Gpio.Dev.{update_regs}
use cs7000p_bootloader.Chip.{Reg, Wait, Op, flag_reg, Chip, FlagMasks}
use cs7000p_bootloader.Chip.Shadow.{Bits, shadow_step, sound_step, powered}
use cs7000p_bootloader.Chip.Laws.{bits_of, IsChip, Follows, step-Follows}
use cs7000p_bootloader.Init.{
  Extern, Setup, on_chip, on_port, read_backup, write_backup, call, Mcu, clock_bit, set_up,
  set_up_all, is_there, accessible,
}

-- What is known of the state: the bits, the ports, the backup register, and the calls.
pub record View : Type 0 where
  pub bits : Bits
  pub regs : Port → Registers
  pub bkp0r : ℕ
  pub calls : List Extern

abbrev pub view_step : Setup → View → View
view_step (on_chip op) w = record w { bits = shadow_step op w.bits }
view_step (on_port port g) w = record w { regs = update_regs w.regs port (g (w.regs port)) }
view_step read_backup w = w
view_step (write_backup v) w = record w { bkp0r = v }
view_step (call e) w = record w { calls = w.calls ++ (e ∷ []) }

abbrev pub view : List Setup → View → View
view [] w = w
view (s ∷ ss) w = view ss (view_step s w)

-- Each loop comes to an end, and each peripheral that is accessed has its clock.
abbrev pub served_step : Setup → Bits → Bool
served_step (on_chip op) f = sound_step op f
served_step (on_port port g) f = f Reg.rcc_ahb4enr (clock_bit port)
served_step read_backup f = f Reg.rcc_apb4enr 16
served_step (write_backup v) f = f Reg.rcc_apb4enr 16 && f Reg.pwr_cr1 8
served_step (call e) f = true

abbrev pub served : List Setup → View → Bool
served [] w = true
served (s ∷ ss) w = served_step s w.bits && served ss (view_step s w)

module _ (K : Chip) (F : FlagMasks) {limit : ℕ} (L : IsChip K F limit) where
  open K use {Hw}

  pub record Matches (w : View) (m : Mcu Hw) : Type 0 where
    pub bits : Follows K F L w.bits m.hw
    pub regs : m.regs ≡ w.regs
    pub bkp0r : m.bkp0r ≡ w.bkp0r
    pub calls : m.calls ≡ w.calls

  -- The bits of the clocks are the program's.
  clock_bit-Follows :
      (f : Bits) (h : Hw) (port : Port)
      → Follows K F L f h
      → bits_of K h Reg.rcc_ahb4enr (clock_bit port) ≡ f Reg.rcc_ahb4enr (clock_bit port)
  clock_bit-Follows f h gpioa a = a Reg.rcc_ahb4enr 0 refl
  clock_bit-Follows f h gpiob a = a Reg.rcc_ahb4enr 1 refl
  clock_bit-Follows f h gpioc a = a Reg.rcc_ahb4enr 2 refl
  clock_bit-Follows f h gpiod a = a Reg.rcc_ahb4enr 3 refl
  clock_bit-Follows f h gpioe a = a Reg.rcc_ahb4enr 4 refl
  clock_bit-Follows f h gpioh a = a Reg.rcc_ahb4enr 7 refl

  is_there-Follows :
      (f : Bits) (h : Hw) (r : Reg)
      → Follows K F L f h
      → powered r f ≡ true
      → is_there K F r h ≡ true
  is_there-Follows f h Reg.otg_gotgctl a ok = a Reg.rcc_ahb1enr 27 refl ∙ ok
  is_there-Follows f h Reg.otg_gusbcfg a ok = a Reg.rcc_ahb1enr 27 refl ∙ ok
  is_there-Follows f h _ a ok = refl

  flag_there : (w : Wait) (h : Hw) → is_there K F (flag_reg K F w) h ≡ true
  flag_there Wait.dbp_set h = refl
  flag_there Wait.vos_ready h = refl
  flag_there Wait.hse_ready h = refl
  flag_there Wait.pll1_ready h = refl
  flag_there Wait.pll1_selected h = refl
  flag_there Wait.pll3_ready h = refl
  flag_there Wait.usb33_ready h = refl

  accessible-Follows :
      (f : Bits) (h : Hw) (op : Op)
      → Follows K F L f h
      → sound_step op f ≡ true
      → accessible K F op h ≡ true
  accessible-Follows f h (Op.clear r mask) a ok = is_there-Follows f h r a (ground arith)
  accessible-Follows f h (Op.set_bits r value) a ok = is_there-Follows f h r a ok
  accessible-Follows f h (Op.replace r mask value) a ok = is_there-Follows f h r a (ground arith)
  accessible-Follows f h (Op.put r value) a ok = is_there-Follows f h r a ok
  accessible-Follows f h (Op.wait w) a ok = flag_there w h
  accessible-Follows f h Op.dsb a ok = refl

  set_up-Matches :
      (fuel : ℕ) (s : Setup) (w : View) (m : Mcu Hw)
      → limit < fuel
      → served_step s w.bits ≡ true
      → Matches w m
      → (m' : Mcu Hw) × (set_up K F fuel s m ≡ some m') × Matches (view_step s w) m'
  unfolding set_up
  set_up-Matches fuel (on_chip op) w m enough ok a =
      let (h', e, b) = step-Follows K F L w.bits m.hw fuel op enough ok a.bits in
      (
        record m { hw = h' },
        rw (accessible-Follows w.bits m.hw op a.bits ok, e) refl,
        record { bits = b; regs = a.regs; bkp0r = a.bkp0r; calls = a.calls },
      )
  set_up-Matches fuel (on_port port g) w m enough ok a =
      let e = clock_bit-Follows w.bits m.hw port a.bits ∙ ok in
      (
        record m { regs = update_regs m.regs port (g (m.regs port)) },
        rw e refl,
        record {
          bits = a.bits;
          regs = ap (λ regs. update_regs regs port (g (regs port))) a.regs;
          bkp0r = a.bkp0r;
          calls = a.calls;
        },
      )
  set_up-Matches fuel read_backup w m enough ok a =
      (m, rw (a.bits Reg.rcc_apb4enr 16 refl ∙ ok) refl, a)
  set_up-Matches fuel (write_backup v) w m enough ok a = (
    record m { bkp0r = v },
    rw (a.bits Reg.rcc_apb4enr 16 refl, a.bits Reg.pwr_cr1 8 refl, ok) refl,
    record { bits = a.bits; regs = a.regs; bkp0r = refl; calls = a.calls },
  )
  set_up-Matches fuel (call e) w m enough ok a = (
    record m { calls = m.calls ++ (e ∷ []) },
    refl,
    record {
      bits = a.bits;
      regs = a.regs;
      bkp0r = a.bkp0r;
      calls = ap (λ l. l ++ (e ∷ [])) a.calls;
    },
  )

  pub set_up_all-Matches :
      (fuel : ℕ) (ss : List Setup) (w : View) (m : Mcu Hw)
      → limit < fuel
      → served ss w ≡ true
      → Matches w m
      → (m' : Mcu Hw) × (set_up_all K F fuel ss m ≡ some m') × Matches (view ss w) m'
  unfolding set_up_all Option.bind
  set_up_all-Matches fuel [] w m enough ok a = (m, refl, a)
  set_up_all-Matches fuel (s ∷ ss) w m enough ok a =
      let (m₁, e₁, a₁) = set_up-Matches fuel s w m enough (ground arith) a in
      let (m₂, e₂, a₂) = set_up_all-Matches fuel ss (view_step s w) m₁ enough (ground arith) a₁ in
      (m₂, rw e₁ e₂, a₂)
