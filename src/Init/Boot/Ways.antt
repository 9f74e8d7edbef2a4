-- ===== src/Init/Boot/Ways.antt =====
-- The three ways through `main`: no loop on them hangs, and no peripheral is accessed without its clock.
use cs7000p_bootloader.Base.{
  ℕ, ◌<◌, ◌≡◌, refl, ◌∙◌, true, some, List, ◌==◌, bit, ◌<<<◌, Bool-cases, inl, inr,
}
use cs7000p_bootloader.Main.{
  Call, boot_magic_go_app, bootflag_get, bootflag_set, bootflag_clear, reboot_into_application,
  main,
}
use cs7000p_bootloader.Main.Boot.{flag_after}
use cs7000p_bootloader.Chip.{Chip, FlagMasks}
use cs7000p_bootloader.Chip.Laws.{bits_of, IsChip}
use cs7000p_bootloader.Clock.{ClockMasks, start_pll}
use cs7000p_bootloader.Clock.Tree.{header, AreOff, known, known-Follows}
use cs7000p_bootloader.Init.{
  InitMasks, Setup, Mcu, set_up_all, backup_init, gpio_init, usb_init, irq_init,
}
use cs7000p_bootloader.Init.Laws.{View, view, served, Matches, set_up_all-Matches}
use cs7000p_bootloader.Init.Boot.{perform, perform_all}

-- What the manufacturer's header defines.
abbrev pub init_header : InitMasks
init_header = record {
  rtcapben = 0x10000;
  cr1_dbp = 0x100;
  gpioaen = 1;
  gpioben = 2;
  gpiocen = 4;
  gpioden = 8;
  gpioeen = 0x10;
  gpiohen = 0x80;
  syscfgen = 2;
  usb2otgfsen = 0x8000000;
  usb33den = 0x1000000;
  bvaloen = 0x40;
  bvaloval = 0x80;
  fdmod = 0x40000000;
  otg_fs_irqn = 101;
}

abbrev pub statements : List Call → List Setup
statements = perform_all header init_header

-- A view in which the PLLs are off.
abbrev pub off_view : View → View
off_view w = record w { bits = known w.bits }

served-main : (flag key : ℕ) (w : View) → served (statements (main flag key)) (off_view w) ≡ true
unfolding main bootflag_get bootflag_set bootflag_clear reboot_into_application perform perform_all
    backup_init gpio_init usb_init irq_init start_pll bit ◌<<<◌
served-main flag key w = elim (Bool-cases (flag == boot_magic_go_app)) [
  | inl e ↦ rw e refl
  | inr e ↦ elim (Bool-cases (key == 1)) [ inl k ↦ rw (e, k) refl | inr k ↦ rw (e, k) refl ]
]

bkp0r-main :
    (flag key : ℕ) (w : View)
    → (view (statements (main flag key)) (off_view w)).bkp0r ≡ flag_after (main flag key) w.bkp0r
unfolding main bootflag_get bootflag_set bootflag_clear reboot_into_application perform perform_all
    backup_init gpio_init usb_init irq_init start_pll flag_after
bkp0r-main flag key w = elim (Bool-cases (flag == boot_magic_go_app)) [
  | inl e ↦ rw e refl
  | inr e ↦ elim (Bool-cases (key == 1)) [ inl k ↦ rw (e, k) refl | inr k ↦ rw (e, k) refl ]
]

module _ (K : Chip) (F : FlagMasks) {limit : ℕ} (L : IsChip K F limit) where
  abbrev pub view_of : Mcu K.Hw → View
  view_of m = record { bits = bits_of K m.hw; regs = m.regs; bkp0r = m.bkp0r; calls = m.calls }

  off_view-Matches :
      (m : Mcu K.Hw) → AreOff (bits_of K m.hw) → Matches K F L (off_view (view_of m)) m
  off_view-Matches m off = record {
    bits = known-Follows K F L m.hw off;
    regs = refl;
    bkp0r = refl;
    calls = refl;
  }

  -- Any way through `main`, which the flag in the backup register and the key choose.
  pub main-Matches :
      (fuel key : ℕ) (m : Mcu K.Hw)
      → limit < fuel
      → AreOff (bits_of K m.hw)
      → let ss = statements (main m.bkp0r key) in
        (m' : Mcu K.Hw) × (set_up_all K F fuel ss m ≡ some m')
        × Matches K F L (view ss (off_view (view_of m))) m'
  main-Matches fuel key m enough off =
      set_up_all-Matches K F L fuel (statements (main m.bkp0r key)) (off_view (view_of m)) m enough
        (served-main m.bkp0r key (view_of m)) (off_view-Matches m off)

  -- With the constants of the manufacturer's header, from a state with the PLLs off, on a chip as the
  -- reference manual describes it: whatever the backup register and the key say, the calls of `main` up
  -- to the one that does not return come to an end, each loop within `limit` rounds; no port and no
  -- register of USB is accessed without its clock, and the backup register not without access to it; and
  -- that register ends with what Main.Boot says.
  pub main-bkp0r :
      (C : ClockMasks) (M : InitMasks) (fuel key : ℕ) (m : Mcu K.Hw)
      → C ≡ header
      → M ≡ init_header
      → limit < fuel
      → AreOff (bits_of K m.hw)
      → let calls = main m.bkp0r key in
        (m' : Mcu K.Hw) × (set_up_all K F fuel (perform_all C M calls) m ≡ some m')
        × (m'.bkp0r ≡ flag_after calls m.bkp0r)
  main-bkp0r C M fuel key m c i enough off =
      let (m', ran, a) = main-Matches fuel key m enough off in
      (m', rw (c, i) ran, a.bkp0r ∙ bkp0r-main m.bkp0r key (view_of m))
