-- ===== src/Usb/Content.antt =====
-- What `tud_descriptor_string_cb` of src/usb_descriptors.c answers, for every index.
use cs7000p_bootloader.Base.{
  ℕ, zero, suc, ◌+◌, ◌*◌, ◌^◌, ◌≤◌, ◌<◌, ◌≡◌, refl, ap, ◌∙◌, false, none, some, List, [], ◌∷◌, ltb,
  if◌then◌else◌, length, get_or, set, take, drop, u8, ◌==◌, length-set, length-take, arith,
}
use cs7000p_bootloader.Usb.{
  get_unique_id, get_serial, string_desc_arr, max_count, put_header, text_cb, string_cb,
}
use cs7000p_bootloader.Usb.Strings.{take-set, Describes, put_header-Describes, text_cb-Describes}
use cs7000p_bootloader.Usb.Serial.{
  hex_digits, length-serial_bytes, serial_bytes-take, read_hex, words_of, words_of-unique_id,
}

-- The characters of each descriptor: the language 0x0409, the digits of the unique id, and the strings
-- of the table.
abbrev pub content : (u0 u1 u2 index : ℕ) → List ℕ
content u0 u1 u2 index =
    if index == 0
    then 0x0409 ∷ []
    else if index == 3
    then hex_digits (get_unique_id u0 u1 u2)
    else get_or string_desc_arr index []

module _ (kind u0 u1 u2 langid : ℕ) (desc : List ℕ) (small : kind < 2 ^ 8)
    (size : length desc ≡ suc max_count) where
  language : Describes kind (0x0409 ∷ []) (
      put_header kind 1
        (set desc 1 (get_or (0x09 ∷ 0x04 ∷ []) 0 0 + get_or (0x09 ∷ 0x04 ∷ []) 1 0 * 2 ^ 8)))
  language =
      put_header-Describes kind (0x0409 ∷ []) (set desc 1 0x0409) (take 1 desc) small (omega arith)
        (omega (arith, length-take 1 desc)) (length-set desc 1 0x0409 ∙ size)
        (take-set desc 1 0x0409 (omega arith))

  serial :
      let (chr_count, desc') = get_serial u0 u1 u2 32 desc in
      Describes kind (hex_digits (get_unique_id u0 u1 u2)) (put_header kind (u8 chr_count) desc')
  unfolding get_serial get_unique_id
  serial =
      put_header-Describes kind (hex_digits (get_unique_id u0 u1 u2)) _ (take 1 desc) small
        (omega arith) (omega (arith, length-take 1 desc)) (length-serial_bytes _ desc 0 12 ∙ size)
        (serial_bytes-take (get_unique_id u0 u1 u2) desc 0 12 (omega arith) (omega arith))

  text : (str : List ℕ) → length str ≤ max_count → Describes kind str (text_cb kind str desc)
  text str fits = text_cb-Describes kind str desc small fits size

-- A descriptor is answered for the indices up to 5 and NULL past them. It holds the length and the
-- kind, and then the characters of the language, of the serial number or of the string, all of
-- them: each fits the buffer, which keeps its size.
pub string_cb_lem :
    (kind u0 u1 u2 index langid : ℕ) (desc : List ℕ)
    → kind < 2 ^ 8
    → length desc ≡ suc max_count
    → if ltb index 6
      then ((desc' : List ℕ) × (string_cb kind u0 u1 u2 index langid desc ≡ some desc')
          × Describes kind (content u0 u1 u2 index) desc')
      else (string_cb kind u0 u1 u2 index langid desc ≡ none)
unfolding string_cb
string_cb_lem kind u0 u1 u2 zero langid desc small size =
    (_, refl, language kind u0 u1 u2 langid desc small size)
string_cb_lem kind u0 u1 u2 (suc zero) langid desc small size =
    (_, refl, text kind u0 u1 u2 langid desc small size _ (omega arith))
string_cb_lem kind u0 u1 u2 (suc (suc zero)) langid desc small size =
    (_, refl, text kind u0 u1 u2 langid desc small size _ (omega arith))
string_cb_lem kind u0 u1 u2 (suc (suc (suc zero))) langid desc small size =
    (_, refl, serial kind u0 u1 u2 langid desc small size)
string_cb_lem kind u0 u1 u2 (suc (suc (suc (suc zero)))) langid desc small size =
    (_, refl, text kind u0 u1 u2 langid desc small size _ (omega arith))
string_cb_lem kind u0 u1 u2 (suc (suc (suc (suc (suc zero))))) langid desc small size =
    (_, refl, text kind u0 u1 u2 langid desc small size _ (omega arith))
string_cb_lem kind u0 u1 u2 (suc (suc (suc (suc (suc (suc index)))))) langid desc small size =
    let n = suc (suc (suc (suc (suc (suc index))))) in
    let past : ltb n 6 ≡ false = ground arith in
    let no_language : (n == 0) ≡ false = ground arith in
    let no_serial : (n == 3) ≡ false = ground arith in rw (past, no_language, no_serial) refl

-- The serial number that a host reads names the chip: its digits, read as bytes and these as words, are
-- the three words of the unique id.
pub serial_number :
    (kind u0 u1 u2 langid : ℕ) (desc : List ℕ)
    → kind < 2 ^ 8
    → length desc ≡ suc max_count
    → u0 < 2 ^ 32
    → u1 < 2 ^ 32
    → u2 < 2 ^ 32
    → (desc' : List ℕ) × (string_cb kind u0 u1 u2 3 langid desc ≡ some desc')
      × (words_of (read_hex (drop 1 (take 25 desc'))) ≡ u0 ∷ u1 ∷ u2 ∷ [])
unfolding get_unique_id
serial_number kind u0 u1 u2 langid desc small size h0 h1 h2 =
    let (desc', e, d) = string_cb_lem kind u0 u1 u2 3 langid desc small size in
    (desc', e, ap (λ l. words_of (read_hex (drop 1 l))) d.0 ∙ words_of-unique_id u0 u1 u2 h0 h1 h2)
