-- ===== src/Usb.antt =====
-- The string descriptors of src/usb_descriptors.c. The unique id of the chip is three words that a
-- caller gives, and `kind` is TinyUSB's `TUSB_DESC_STRING`.
pub mod Strings
pub mod Serial
pub mod Content
pub mod Descriptors
mod Tests
use cs7000p_bootloader.Base.{
  ℕ, zero, suc, ◌+◌, ◌-◌, ◌*◌, ◌/◌, ◌%◌, ◌^◌, Bool, true, false, Option, none, some, List, [], ◌∷◌,
  ◌++◌, bit_and, bit_or, ltb, ◌==◌, if◌then◌else◌, length, get_or, set, u8, u16, ◌<<<◌,
}

-- The four bytes of a word in memory.
abbrev pub word_bytes : ℕ → List ℕ
word_bytes w = w % 2 ^ 8 ∷ w / 2 ^ 8 % 2 ^ 8 ∷ w / 2 ^ 16 % 2 ^ 8 ∷ w / 2 ^ 24 % 2 ^ 8 ∷ []

-- `get_unique_id`: the bytes that it leaves in `id`, which it returns the number of.
unfoldable pub get_unique_id : (u0 u1 u2 : ℕ) → List ℕ
get_unique_id u0 u1 u2 = word_bytes u0 ++ (word_bytes u1 ++ word_bytes u2)

abbrev pub nibble_to_hex : List ℕ
nibble_to_hex = 48 ∷ 49 ∷ 50 ∷ 51 ∷ 52 ∷ 53 ∷ 54 ∷ 55 ∷ 56 ∷ 57 ∷ 65 ∷ 66 ∷ 67 ∷ 68 ∷ 69 ∷ 70 ∷ []

-- The body of the inner loop of `get_serial`, where `desc` is `_desc_str`: its `desc_str1` is one
-- entry further.
unfoldable pub serial_digit : List ℕ → (i j : ℕ) → List ℕ → List ℕ
serial_digit uid i j desc =
    let nibble = u8 (bit_and (get_or uid i 0 / 2 ^ (j * 4)) 0xF) in
    set desc (1 + (i * 2 + (1 - j))) (get_or nibble_to_hex nibble 0)

-- The loop on the bytes, at byte `i` with `n` to go.
unfoldable pub serial_bytes : List ℕ → List ℕ → (i n : ℕ) → List ℕ
serial_bytes uid desc i zero = desc
serial_bytes uid desc i (suc n) =
    serial_bytes uid (serial_digit uid i 1 (serial_digit uid i 0 desc)) (i + 1) n

-- `get_serial`: the number of characters, and `_desc_str` with them.
unfoldable pub get_serial : (u0 u1 u2 max_chars : ℕ) → List ℕ → ℕ × List ℕ
get_serial u0 u1 u2 max_chars desc =
    let uid = get_unique_id u0 u1 u2 in
    let uid_len = if ltb (max_chars / 2) (length uid) then max_chars / 2 else length uid in
    (2 * uid_len, serial_bytes uid desc 0 uid_len)

-- `string_desc_arr`, without the zero that ends a string.
abbrev pub string_desc_arr : List (List ℕ)
string_desc_arr =
    (0x09 ∷ 0x04 ∷ [])
    ∷ (84 ∷ 105 ∷ 110 ∷ 121 ∷ 85 ∷ 83 ∷ 66 ∷ [])
    ∷ (84 ∷ 105 ∷ 110 ∷ 121 ∷ 85 ∷ 83 ∷ 66 ∷ 32 ∷ 68 ∷ 101 ∷ 118 ∷ 105 ∷ 99 ∷ 101 ∷ [])
    ∷ []
    ∷ (84 ∷ 105 ∷ 110 ∷ 121 ∷ 85 ∷ 83 ∷ 66 ∷ 32 ∷ 67 ∷ 68 ∷ 67 ∷ [])
    ∷ (64 ∷ 73 ∷ 110 ∷ 116 ∷ 101 ∷ 114 ∷ 110 ∷ 97 ∷ 108 ∷ 32 ∷ 70 ∷ 108 ∷ 97 ∷ 115 ∷ 104 ∷ 47 ∷ 48
        ∷ 120 ∷ 48 ∷ 56 ∷ 49 ∷ 48 ∷ 48 ∷ 48 ∷ 48 ∷ 48 ∷ 47 ∷ 56 ∷ 42 ∷ 49 ∷ 50 ∷ 56 ∷ 75 ∷ 103 ∷ [])
    ∷ []

-- The loop that converts a string, at character `i` with `n` to go.
unfoldable pub convert : List ℕ → List ℕ → (i n : ℕ) → List ℕ
convert str desc i zero = desc
convert str desc i (suc n) = convert str (set desc (1 + i) (get_or str i 0)) (i + 1) n

-- `_desc_str` has 36 characters and the header.
abbrev pub max_count : ℕ
max_count = 36

-- The last statement but one of `tud_descriptor_string_cb`.
unfoldable pub put_header : (kind chr_count : ℕ) → List ℕ → List ℕ
put_header kind chr_count desc = set desc 0 (u16 (bit_or (kind <<< 8) (2 * chr_count + 2)))

-- The default of its `switch`, for a string of the table.
unfoldable pub text_cb : (kind : ℕ) → List ℕ → List ℕ → List ℕ
text_cb kind str desc =
    let strlen = u8 (length str) in
    let chr_count = if ltb max_count strlen then max_count else strlen in
    put_header kind chr_count (convert str desc 0 chr_count)

-- `tud_descriptor_string_cb`, where `none` is NULL and `_desc_str` is then as it was.
unfoldable pub string_cb : (kind u0 u1 u2 index langid : ℕ) → List ℕ → Option (List ℕ)
string_cb kind u0 u1 u2 index langid desc =
    if index == 0
    then (let id = get_or string_desc_arr 0 [] in
        some (put_header kind 1 (set desc 1 (get_or id 0 0 + get_or id 1 0 * 2 ^ 8))))
    else if index == 3
    then (let (chr_count, desc') = get_serial u0 u1 u2 32 desc in
        some (put_header kind (u8 chr_count) desc'))
    else if ltb index (length string_desc_arr)
    then some (text_cb kind (get_or string_desc_arr index []) desc)
    else none
