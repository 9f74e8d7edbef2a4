-- ===== src/Usb/Descriptors.antt =====
-- The device and configuration descriptors of src/usb_descriptors.c. What TinyUSB's headers define is a
-- parameter: the numbers, and the macros that make parts of a descriptor.
pub mod Sizes
use cs7000p_bootloader.Base.{ℕ, ◌+◌, List, [], ◌∷◌, ◌++◌, bit_or}
use cs7000p_bootloader.Flash.{xfer_bufsize}

-- `USB_VID` and `USB_PID`.
abbrev pub usb_vid : ℕ
usb_vid = 0x0483

abbrev pub usb_pid : ℕ
usb_pid = 0xdf11

abbrev pub endpoint_0_size : ℕ
endpoint_0_size = 64

pub record Macros : Type 0 where
  pub device_size : ℕ
  pub device_type : ℕ
  pub class_cdc : ℕ
  pub config_desc_len : ℕ
  pub cdc_desc_len : ℕ
  pub dfu_desc_len : ℕ → ℕ
  pub dfu_can_upload : ℕ
  pub dfu_can_download : ℕ
  pub dfu_manifestation_tolerant : ℕ
  pub dfu_functional : ℕ
  pub config_descriptor : (number interfaces string total attribute power : ℕ) → List ℕ
  pub cdc_descriptor : (interface string notif notif_size out in_ size : ℕ) → List ℕ
  pub dfu_alt_1 : (interface alt string : ℕ) → List ℕ
  pub u16_to_u8s_le : ℕ → List ℕ

pub record DeviceDescriptor : Type 0 where
  pub length' : ℕ
  pub descriptor_type : ℕ
  pub bcd_usb : ℕ
  pub device_class : ℕ
  pub device_sub_class : ℕ
  pub device_protocol : ℕ
  pub max_packet_size_0 : ℕ
  pub id_vendor : ℕ
  pub id_product : ℕ
  pub bcd_device : ℕ
  pub manufacturer : ℕ
  pub product : ℕ
  pub serial_number : ℕ
  pub num_configurations : ℕ

abbrev pub alt_count : ℕ
alt_count = 1

abbrev pub itf_num_cdc : ℕ
itf_num_cdc = 0

abbrev pub itf_num_dfu_mode : ℕ
itf_num_dfu_mode = 2

abbrev pub itf_num_total : ℕ
itf_num_total = 3

abbrev pub epnum_cdc_notif : ℕ
epnum_cdc_notif = 0x81

abbrev pub epnum_cdc_out : ℕ
epnum_cdc_out = 0x02

abbrev pub epnum_cdc_in : ℕ
epnum_cdc_in = 0x82

module _ (M : Macros) where
  open M use {
    config_desc_len, cdc_desc_len, dfu_desc_len, dfu_can_upload, dfu_can_download,
    dfu_manifestation_tolerant, dfu_functional, config_descriptor, cdc_descriptor, dfu_alt_1,
    u16_to_u8s_le,
  }

  -- `tud_descriptor_device_cb` returns `desc_device`.
  unfoldable pub desc_device : DeviceDescriptor
  desc_device = record {
    length' = M.device_size;
    descriptor_type = M.device_type;
    bcd_usb = 0x0200;
    device_class = M.class_cdc;
    device_sub_class = 0;
    device_protocol = 0;
    max_packet_size_0 = endpoint_0_size;
    id_vendor = usb_vid;
    id_product = usb_pid;
    bcd_device = 0x0100;
    manufacturer = 0x01;
    product = 0x02;
    serial_number = 0x03;
    num_configurations = 0x01;
  }

  -- `CONFIG_TOTAL_LEN` and `FUNC_ATTRS`.
  unfoldable pub config_total_len : ℕ
  config_total_len = config_desc_len + cdc_desc_len + dfu_desc_len alt_count

  unfoldable pub func_attrs : ℕ
  func_attrs = bit_or (bit_or dfu_can_upload dfu_can_download) dfu_manifestation_tolerant

  -- `TUD_DFU_DESCRIPTOR_V011a`, for the one setting that there is.
  unfoldable pub dfu_descriptor : (itfnum stridx attr timeout xfer_size : ℕ) → List ℕ
  dfu_descriptor itfnum stridx attr timeout xfer_size =
      dfu_alt_1 itfnum 0 stridx
      ++ (9
          ∷ dfu_functional
          ∷ attr
          ∷ (u16_to_u8s_le timeout ++ (u16_to_u8s_le xfer_size ++ u16_to_u8s_le 0x011A)))

  -- `tud_descriptor_configuration_cb` returns `desc_fs_configuration` for every index.
  unfoldable pub desc_fs_configuration : List ℕ
  unfolding config_total_len func_attrs dfu_descriptor
  desc_fs_configuration =
      config_descriptor 1 itf_num_total 0 config_total_len 0x00 100
      ++ (cdc_descriptor itf_num_cdc 4 epnum_cdc_notif 8 epnum_cdc_out epnum_cdc_in 64
          ++ dfu_descriptor itf_num_dfu_mode 5 func_attrs 1000 xfer_bufsize)
