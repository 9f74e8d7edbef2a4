-- ===== src/Usb/Serial.antt =====
-- The serial number that src/usb_descriptors.c makes of the chip's unique id.
use cs7000p_bootloader.Base.{
  ℕ, zero, suc, ◌+◌, ◌-◌, ◌*◌, ◌/◌, ◌%◌, ◌^◌, ◌≤◌, ◌<◌, ◌≡◌, refl, ap, ◌∙◌, sym, List, [], ◌∷◌,
  ◌++◌, append_assoc, append-nil, bit_and, length, get_or, set, take, drop, u8, length-set, arith,
  bit_and_nibble,
}
use mathlib.Core.Path.{ap₂}
use cs7000p_bootloader.Main.Print.{digit_value, digit_value-hex_digit}
use cs7000p_bootloader.Usb.{word_bytes, get_unique_id, nibble_to_hex, serial_digit, serial_bytes}
use cs7000p_bootloader.Usb.Strings.{take-set_pair, take-drop}

-- The two digits of a byte, the high one first, and those of a row of bytes.
abbrev pub hex_digits : List ℕ → List ℕ
hex_digits [] = []
hex_digits (b ∷ bs) =
    get_or nibble_to_hex (b / 2 ^ 4 % 2 ^ 4) 0 ∷ get_or nibble_to_hex (b % 2 ^ 4) 0 ∷ hex_digits bs

-- The two bodies of the inner loop.
low_digit :
    (uid desc : List ℕ) (i : ℕ)
    → serial_digit uid i 0 desc
      ≡ set desc (suc (suc (i * 2))) (get_or nibble_to_hex (get_or uid i 0 % 2 ^ 4) 0)
unfolding serial_digit
low_digit uid desc i =
    let here : 1 + (i * 2 + (1 - 0)) ≡ suc (suc (i * 2)) = omega arith in
    let value : u8 (bit_and (get_or uid i 0 / 2 ^ (0 * 4)) 0xF) ≡ get_or uid i 0 % 2 ^ 4 =
      omega (arith, bit_and_nibble (get_or uid i 0 / 2 ^ (0 * 4))) in
    rw (here, value) refl

high_digit :
    (uid desc : List ℕ) (i : ℕ)
    → serial_digit uid i 1 desc
      ≡ set desc (suc (i * 2)) (get_or nibble_to_hex (get_or uid i 0 / 2 ^ 4 % 2 ^ 4) 0)
unfolding serial_digit
high_digit uid desc i =
    let here : 1 + (i * 2 + (1 - 1)) ≡ suc (i * 2) = omega arith in
    let value : u8 (bit_and (get_or uid i 0 / 2 ^ (1 * 4)) 0xF) ≡ get_or uid i 0 / 2 ^ 4 % 2 ^ 4 =
      omega (arith, bit_and_nibble (get_or uid i 0 / 2 ^ (1 * 4))) in
    rw (here, value) refl

-- One byte's worth of the buffer.
serial_byte :
    (uid desc : List ℕ) (i : ℕ)
    → suc (i * 2) + 1 < length desc
    → take (suc (suc (suc (i * 2)))) (serial_digit uid i 1 (serial_digit uid i 0 desc))
      ≡ take (suc (i * 2)) desc
        ++ (get_or nibble_to_hex (get_or uid i 0 / 2 ^ 4 % 2 ^ 4) 0
            ∷ get_or nibble_to_hex (get_or uid i 0 % 2 ^ 4) 0
            ∷ [])
serial_byte uid desc i h =
    rw (low_digit uid desc i, high_digit uid _ i)
      (take-set_pair desc (suc (i * 2)) _ _ (omega arith))

length-serial_digit :
    (uid desc : List ℕ) (i j : ℕ) → length (serial_digit uid i j desc) ≡ length desc
unfolding serial_digit
length-serial_digit uid desc i j = length-set desc _ _

pub length-serial_bytes :
    (uid desc : List ℕ) (i n : ℕ) → length (serial_bytes uid desc i n) ≡ length desc
unfolding serial_bytes
length-serial_bytes uid desc i zero = refl
length-serial_bytes uid desc i (suc n) =
    length-serial_bytes uid (serial_digit uid i 1 (serial_digit uid i 0 desc)) (i + 1) n
    ∙ length-serial_digit uid (serial_digit uid i 0 desc) i 1
    ∙ length-serial_digit uid desc i 0

-- The loop writes the digits of the bytes behind what was there.
pub serial_bytes-take :
    (uid desc : List ℕ) (i n : ℕ)
    → i + n ≤ length uid
    → (i + n) * 2 < length desc
    → take (suc ((i + n) * 2)) (serial_bytes uid desc i n)
      ≡ take (suc (i * 2)) desc ++ hex_digits (take n (drop i uid))
unfolding serial_bytes
serial_bytes-take uid desc i zero h q =
    let here : i + 0 ≡ i = omega arith in rw here (sym (append-nil (take (suc (i * 2)) desc)))
serial_bytes-take uid desc i (suc n) h q =
    let desc' = serial_digit uid i 1 (serial_digit uid i 0 desc) in
    let there : i + suc n ≡ i + 1 + n = omega arith in
    let next : (i + 1) * 2 ≡ suc (suc (i * 2)) = omega arith in
    let one : i + 1 ≡ suc i = omega arith in
    rw there (
      serial_bytes-take uid desc' (i + 1) n (omega arith) (
        omega (
          arith,
          length-serial_digit uid (serial_digit uid i 0 desc) i 1,
          length-serial_digit uid desc i 0,
        ))
      ∙ rw (next, serial_byte uid desc i (omega arith), one, take-drop uid i n (omega arith))
          (append_assoc (take (suc (i * 2)) desc) _ (hex_digits (take n (drop (suc i) uid)))))

-- Bytes that are read from hexadecimal digits.
abbrev pub read_hex : List ℕ → List ℕ
read_hex (h ∷ l ∷ cs) = (16 * digit_value h + digit_value l) ∷ read_hex cs
read_hex _ = []

-- Words that are read from bytes, the lowest first.
abbrev pub words_of : List ℕ → List ℕ
words_of (a ∷ b ∷ c ∷ d ∷ bs) = (a + b * 2 ^ 8 + c * 2 ^ 16 + d * 2 ^ 24) ∷ words_of bs
words_of _ = []

read_byte :
    (b : ℕ)
    → b < 2 ^ 8
    → 16 * digit_value (get_or nibble_to_hex (b / 2 ^ 4 % 2 ^ 4) 0)
        + digit_value (get_or nibble_to_hex (b % 2 ^ 4) 0)
      ≡ b
read_byte b h = omega (
  arith,
  digit_value-hex_digit (b / 2 ^ 4 % 2 ^ 4) (omega arith),
  digit_value-hex_digit (b % 2 ^ 4) (omega arith),
)

read_hex-word :
    (w : ℕ) (bs : List ℕ)
    → read_hex (hex_digits (word_bytes w ++ bs)) ≡ word_bytes w ++ read_hex (hex_digits bs)
read_hex-word w bs = ap₂ ◌∷◌ (read_byte (w % 2 ^ 8) (omega arith)) (
    ap₂ ◌∷◌ (read_byte (w / 2 ^ 8 % 2 ^ 8) (omega arith)) (
      ap₂ ◌∷◌ (read_byte (w / 2 ^ 16 % 2 ^ 8) (omega arith))
        (ap₂ ◌∷◌ (read_byte (w / 2 ^ 24 % 2 ^ 8) (omega arith)) refl)))

words_of-word : (w : ℕ) (bs : List ℕ) → w < 2 ^ 32 → words_of (word_bytes w ++ bs) ≡ w ∷ words_of bs
words_of-word w bs h = ap (λ v. v ∷ words_of bs) (omega arith)

-- The digits of the unique id read as its words.
pub words_of-unique_id :
    (u0 u1 u2 : ℕ)
    → u0 < 2 ^ 32
    → u1 < 2 ^ 32
    → u2 < 2 ^ 32
    → words_of (read_hex (hex_digits (get_unique_id u0 u1 u2))) ≡ u0 ∷ u1 ∷ u2 ∷ []
unfolding get_unique_id
words_of-unique_id u0 u1 u2 h0 h1 h2 =
    ap words_of (read_hex-word u0 (word_bytes u1 ++ word_bytes u2))
    ∙ words_of-word u0 (read_hex (hex_digits (word_bytes u1 ++ word_bytes u2))) h0
    ∙ ap (λ l. u0 ∷ words_of l) (read_hex-word u1 (word_bytes u2))
    ∙ ap (λ l. u0 ∷ l) (words_of-word u1 (read_hex (hex_digits (word_bytes u2))) h1)
    ∙ ap (λ l. u0 ∷ u1 ∷ words_of l) (read_hex-word u2 [])
    ∙ ap (λ l. u0 ∷ u1 ∷ l) (words_of-word u2 [] h2)
