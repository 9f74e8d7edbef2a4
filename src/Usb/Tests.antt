-- ===== src/Usb/Tests.antt =====
-- Descriptors of a chip with a given unique id.
use cs7000p_bootloader.Base.{
  length, ◌-◌, ◌/◌, ◌%◌, ◌+◌, ◌*◌, ◌^◌, ℕ, ◌≡◌, refl, some, List, [], ◌∷◌, arith, take, drop,
  replicate,
}
use cs7000p_bootloader.Flash.{xfer_bufsize}
use cs7000p_bootloader.Usb.Descriptors.{Macros, desc_fs_configuration}
use cs7000p_bootloader.Usb.Descriptors.Sizes.{
  IsMacros, functional, told_length, desc_fs_configuration_lem,
}
use cs7000p_bootloader.Usb.{string_cb}
use cs7000p_bootloader.Usb.Strings.{Describes}
use cs7000p_bootloader.Usb.Serial.{read_hex, words_of}
use cs7000p_bootloader.Usb.Content.{content, string_cb_lem, serial_number}

abbrev blank : List ℕ
blank = replicate 37 0

-- The longest string: the flash, for the host's DfuSe tool.
string_cb_lem_example :
    (desc' : List ℕ) × (string_cb 3 0x12AB 0x34CD 0x56EF 5 0x0409 blank ≡ some desc')
    × Describes 3 (content 0x12AB 0x34CD 0x56EF 5) desc'
string_cb_lem_example = string_cb_lem 3 0x12AB 0x34CD 0x56EF 5 0x0409 blank (omega arith) refl

serial_number_example :
    (desc' : List ℕ) × (string_cb 3 0x12AB 0x34CD 0x56EF 3 0x0409 blank ≡ some desc')
    × (words_of (read_hex (drop 1 (take 25 desc'))) ≡ 0x12AB ∷ 0x34CD ∷ 0x56EF ∷ [])
serial_number_example =
    serial_number 3 0x12AB 0x34CD 0x56EF 0x0409 blank (omega arith) refl (omega arith) (omega arith)
      (omega arith)

-- Macros that make descriptors of the right lengths.
abbrev macros : Macros
macros = record {
  device_size = 18;
  device_type = 1;
  class_cdc = 2;
  config_desc_len = 9;
  cdc_desc_len = 66;
  dfu_desc_len = λ alts. 9 + alts * 9;
  dfu_can_upload = 2;
  dfu_can_download = 1;
  dfu_manifestation_tolerant = 4;
  dfu_functional = 0x21;
  config_descriptor = λ number interfaces string total attribute power.
      9
      ∷ 2
      ∷ total % 2 ^ 8
      ∷ total / 2 ^ 8 % 2 ^ 8
      ∷ interfaces
      ∷ number
      ∷ string
      ∷ attribute
      ∷ power
      ∷ [];
  cdc_descriptor = λ interface string notif notif_size out in_ size. replicate 66 size;
  dfu_alt_1 = λ interface alt string. replicate 9 interface;
  u16_to_u8s_le = λ n. n % 2 ^ 8 ∷ n / 2 ^ 8 % 2 ^ 8 ∷ [];
}

macros-IsMacros : IsMacros macros
macros-IsMacros = record {
  config_size = λ number interfaces string total attribute power. refl;
  config_len = refl;
  config_total = λ number interfaces string total attribute power. (refl, refl);
  cdc_len = refl;
  cdc_size = λ interface string notif notif_size out in_ size. refl;
  alt_size = λ interface alt string. refl;
  dfu_size = λ alts. refl;
  u16_bytes = λ n. refl;
}

desc_fs_configuration_lem_example :
    (told_length macros (desc_fs_configuration macros) ≡ length (desc_fs_configuration macros))
    × (lo : ℕ) × (hi : ℕ) × (drop
          (length (desc_fs_configuration macros) - 9)
          (desc_fs_configuration macros)
        ≡ functional macros lo hi)
    × (lo + hi * 2 ^ 8 ≡ xfer_bufsize)
desc_fs_configuration_lem_example = desc_fs_configuration_lem macros macros-IsMacros
