-- ===== src/Usb/Descriptors/Sizes.antt =====
-- The sizes that the configuration descriptor tells the host, and those that the program has.
use cs7000p_bootloader.Base.{
  ℕ, ◌+◌, ◌-◌, ◌*◌, ◌/◌, ◌%◌, ◌^◌, ◌≡◌, refl, ap, ◌∙◌, List, [], ◌∷◌, ◌++◌, append_assoc, length,
  length-append, arith, drop, get_or, get_or-append_left, sym,
}
use cs7000p_bootloader.Flash.{xfer_bufsize}
use cs7000p_bootloader.Usb.Descriptors.{
  Macros, config_total_len, func_attrs, dfu_descriptor, desc_fs_configuration, itf_num_total,
  itf_num_cdc, epnum_cdc_notif, epnum_cdc_out, epnum_cdc_in, itf_num_dfu_mode,
}

-- What TinyUSB says of its macros: each makes as many bytes as its length tells, a configuration
-- descriptor is 9 bytes long and has the total length that it is given in its third and fourth, lower
-- byte first, a CDC descriptor is 66 bytes long, a DFU descriptor 9 for each setting and 9 for the rest,
-- and a 16-bit number is its low byte and its high byte.
pub record IsMacros (M : Macros) : Type 0 where
  pub config_size :
      (number interfaces string total attribute power : ℕ)
      → length (M.config_descriptor number interfaces string total attribute power)
        ≡ M.config_desc_len
  pub config_len : M.config_desc_len ≡ 9
  pub config_total :
      (number interfaces string total attribute power : ℕ)
      → let bytes = M.config_descriptor number interfaces string total attribute power in
        (get_or bytes 2 0 ≡ total % 2 ^ 8) × (get_or bytes 3 0 ≡ total / 2 ^ 8 % 2 ^ 8)
  pub cdc_len : M.cdc_desc_len ≡ 66
  pub cdc_size :
      (interface string notif notif_size out in_ size : ℕ)
      → length (M.cdc_descriptor interface string notif notif_size out in_ size) ≡ M.cdc_desc_len
  pub alt_size : (interface alt string : ℕ) → length (M.dfu_alt_1 interface alt string) ≡ 9
  pub dfu_size : (alts : ℕ) → M.dfu_desc_len alts ≡ 9 + alts * 9
  pub u16_bytes : (n : ℕ) → M.u16_to_u8s_le n ≡ n % 2 ^ 8 ∷ n / 2 ^ 8 % 2 ^ 8 ∷ []

drop-append : (xs ys : List ℕ) (n : ℕ) → n ≡ length xs → drop n (xs ++ ys) ≡ ys
drop-append xs ys n e = rw e (all xs ys)
  where
    all : (xs ys : List ℕ) → drop (length xs) (xs ++ ys) ≡ ys
    all [] ys = refl
    all (x ∷ xs) ys = all xs ys

module _ (M : Macros) where
  -- The last nine bytes: the attributes, the timeout, the transfer size and the version.
  abbrev pub functional : (lo hi : ℕ) → List ℕ
  functional lo hi =
      9 ∷ M.dfu_functional ∷ func_attrs M ∷ 1000 % 2 ^ 8 ∷ 1000 / 2 ^ 8 ∷ lo ∷ hi ∷ 0x1A ∷ 0x01 ∷ []

  abbrev front : List ℕ
  front =
      M.config_descriptor 1 itf_num_total 0 (config_total_len M) 0x00 100
      ++ (M.cdc_descriptor itf_num_cdc 4 epnum_cdc_notif 8 epnum_cdc_out epnum_cdc_in 64
          ++ M.dfu_alt_1 itf_num_dfu_mode 0 5)

  length-front : IsMacros M → length front + 9 ≡ config_total_len M
  unfolding config_total_len
  length-front L =
      let config = M.config_descriptor 1 itf_num_total 0 (config_total_len M) 0x00 100 in
      let cdc = M.cdc_descriptor itf_num_cdc 4 epnum_cdc_notif 8 epnum_cdc_out epnum_cdc_in 64 in
      let alt = M.dfu_alt_1 itf_num_dfu_mode 0 5 in
      omega (
        arith,
        length-append config (cdc ++ alt),
        length-append cdc alt,
        L.config_size 1 itf_num_total 0 (config_total_len M) 0x00 100,
        L.cdc_size itf_num_cdc 4 epnum_cdc_notif 8 epnum_cdc_out epnum_cdc_in 64,
        L.alt_size itf_num_dfu_mode 0 5,
        L.dfu_size 1,
      )

  as_parts :
      IsMacros M
      → desc_fs_configuration M ≡ front ++ functional (xfer_bufsize % 2 ^ 8) (xfer_bufsize / 2 ^ 8)
  unfolding desc_fs_configuration dfu_descriptor
  as_parts L =
      rw
        (L.u16_bytes 1000, L.u16_bytes xfer_bufsize, L.u16_bytes 0x011A, append_assoc, append_assoc)
        refl

  config_total_len-value : IsMacros M → config_total_len M ≡ 93
  unfolding config_total_len
  config_total_len-value L = omega (arith, L.config_len, L.cdc_len, L.dfu_size 1)

  -- The total length in the first part, behind its length and its kind.
  abbrev pub told_length : List ℕ → ℕ
  told_length bytes = get_or bytes 2 0 + get_or bytes 3 0 * 2 ^ 8

  told_length-total : IsMacros M → told_length (desc_fs_configuration M) ≡ config_total_len M
  unfolding desc_fs_configuration
  told_length-total L =
      let config = M.config_descriptor 1 itf_num_total 0 (config_total_len M) 0x00 100 in
      let size : length config ≡ 9 =
        L.config_size 1 itf_num_total 0 (config_total_len M) 0x00 100 ∙ L.config_len in
      let (lo, hi) = L.config_total 1 itf_num_total 0 (config_total_len M) 0x00 100 in
      rw
        (
          get_or-append_left config _ 2 0 (omega (arith, size)),
          get_or-append_left config _ 3 0 (omega (arith, size)),
          lo,
          hi,
        )
        (omega (arith, config_total_len-value L))

  -- The configuration descriptor is as long as its third and fourth bytes tell the host, and its last nine
  -- bytes tell the host to send blocks of at most the size of the buffer of the flash driver, if
  -- the macros of TinyUSB make what they say.
  pub desc_fs_configuration_lem :
      IsMacros M
      → (told_length (desc_fs_configuration M) ≡ length (desc_fs_configuration M))
        × (lo : ℕ) × (hi : ℕ) × (drop
              (length (desc_fs_configuration M) - 9)
              (desc_fs_configuration M)
            ≡ functional lo hi)
        × (lo + hi * 2 ^ 8 ≡ xfer_bufsize)
  desc_fs_configuration_lem L =
      let lo : ℕ = xfer_bufsize % 2 ^ 8 in
      let hi : ℕ = xfer_bufsize / 2 ^ 8 in
      let size = length-front L in
      let whole : length (desc_fs_configuration M) ≡ config_total_len M =
        ap length (as_parts L) ∙ omega (arith, length-append front (functional lo hi), size) in
      (
        told_length-total L ∙ sym whole,
        lo,
        hi,
        rw whole (
            ap (drop (config_total_len M - 9)) (as_parts L)
            ∙ drop-append front (functional lo hi) (config_total_len M - 9) (omega (arith, size))),
        refl,
      )
