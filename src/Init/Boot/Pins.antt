-- ===== src/Init/Boot/Pins.antt =====
-- The two pins of USB after `usb_init` of src/init.c.
use cs7000p_bootloader.Base.{
  ℕ, zero, suc, ◌+◌, ◌-◌, ◌*◌, ◌^◌, ◌<◌, ◌≡◌, refl, true, arith, bit, if◌then◌else◌,
}
use cs7000p_bootloader.Gpio.{Registers, case_of, set_mode, set_output_speed}
use cs7000p_bootloader.Gpio.Fields.{IsField, IsRegisters, IsConfigured, set_mode-IsConfigured}
use cs7000p_bootloader.Gpio.Speed.{
  set_mode-IsRegisters, set_output_speed-IsField, set_output_speed-lt,
}
use cs7000p_bootloader.Init.{high}

-- The number in the `w` bits of a word from bit `p` on.
abbrev pub bits_at : (word p : ℕ) → ℕ → ℕ
bits_at word p zero = 0
bits_at word p (suc w) = (if bit word p then 1 else 0) + 2 * bits_at word (suc p) w

-- Pin 8 or above has the alternate function 10, push-pull, without a pull-up or pull-down, at high speed.
pub record IsUsbPin (pin : ℕ) (r : Registers) : Type 0 where
  pub moder : bits_at r.moder (pin * 2) 2 ≡ 2
  pub otyper : bits_at r.otyper pin 1 ≡ 0
  pub pupdr : bits_at r.pupdr (pin * 2) 2 ≡ 0
  pub afr_1 : bits_at r.afr_1 ((pin - 8) * 4) 4 ≡ 10
  pub ospeedr : bits_at r.ospeedr (pin * 2) 2 ≡ 3

-- The mode that `usb_init` sets.
abbrev usb_mode : ℕ
usb_mode = 0x0A07

-- Port A with the speeds of `gpio_init`, and with the settings of `usb_init`.
abbrev pub default_speeds : Registers → Registers
default_speeds r = record r { ospeedr = 0xaaaaaaaa }

abbrev pub usb_modes : Registers → Registers
usb_modes r = set_mode 12 usb_mode (set_mode 11 usb_mode r)

abbrev pub usb_speeds : Registers → Registers
usb_speeds r = set_output_speed 12 high (set_output_speed 11 high r)

module _ (r : Registers) (v : IsRegisters r) where
  first : Registers
  first = set_mode 11 usb_mode r

  first-IsConfigured : IsConfigured 11 (case_of 7) 10 r first
  unfolding first
  first-IsConfigured = set_mode-IsConfigured 11 usb_mode r (omega arith) (omega arith) v

  second-IsConfigured : IsConfigured 12 (case_of 7) 10 first (usb_modes r)
  unfolding first
  second-IsConfigured =
      set_mode-IsConfigured 12 usb_mode (set_mode 11 usb_mode r) (omega arith) (omega arith)
        (set_mode-IsRegisters 11 usb_mode r v)

  pub usb_modes-IsRegisters : IsRegisters (usb_modes r)
  usb_modes-IsRegisters =
      set_mode-IsRegisters 12 usb_mode (set_mode 11 usb_mode r)
        (set_mode-IsRegisters 11 usb_mode r v)

  -- The speeds of the two pins.
  module _ (small : r.ospeedr < 2 ^ 32) where
    first_speed :
        IsField true 2 22 3 (usb_modes r).ospeedr (set_output_speed 11 high (usb_modes r)).ospeedr
    first_speed = set_output_speed-IsField 11 high (usb_modes r) (omega arith) (omega arith) kept
      where
        kept : (usb_modes r).ospeedr < 2 ^ 32
        kept = rw (second-IsConfigured.ospeedr, first-IsConfigured.ospeedr) small

    second_speed :
        IsField true 2 24 3
          (set_output_speed 11 high (usb_modes r)).ospeedr
          (usb_speeds (usb_modes r)).ospeedr
    second_speed =
        set_output_speed-IsField 12 high (set_output_speed 11 high (usb_modes r)) (omega arith)
          (omega arith) (set_output_speed-lt 11 high (usb_modes r))

    pub dm-IsUsbPin : IsUsbPin 11 (usb_speeds (usb_modes r))
    unfolding case_of bit set_output_speed first
    dm-IsUsbPin =
        let a = first-IsConfigured in
        let b = second-IsConfigured in
        record {
          moder = rw (b.moder 22, b.moder 23, a.moder 22, a.moder 23) refl;
          otyper = rw (b.otyper 11, a.otyper 11) refl;
          pupdr = rw (b.pupdr 22, b.pupdr 23, a.pupdr 22, a.pupdr 23) refl;
          afr_1 =
              rw
                (
                  b.afr_1 12,
                  b.afr_1 13,
                  b.afr_1 14,
                  b.afr_1 15,
                  a.afr_1 12,
                  a.afr_1 13,
                  a.afr_1 14,
                  a.afr_1 15,
                )
                refl;
          ospeedr = rw (second_speed 22, second_speed 23, first_speed 22, first_speed 23) refl;
        }

    pub dp-IsUsbPin : IsUsbPin 12 (usb_speeds (usb_modes r))
    unfolding case_of bit set_output_speed
    dp-IsUsbPin =
        let b = second-IsConfigured in
        record {
          moder = rw (b.moder 24, b.moder 25) refl;
          otyper = rw (b.otyper 12) refl;
          pupdr = rw (b.pupdr 24, b.pupdr 25) refl;
          afr_1 = rw (b.afr_1 16, b.afr_1 17, b.afr_1 18, b.afr_1 19) refl;
          ospeedr = rw (second_speed 24, second_speed 25) refl;
        }
