-- ===== src/Main/Print.antt =====
-- The number that src/main.c prints, read back.
use cs7000p_bootloader.Base.{
  ℕ, zero, suc, ◌+◌, ◌-◌, ◌*◌, ◌/◌, ◌%◌, ◌^◌, ◌<◌, ◌≡◌, refl, List, [], ◌∷◌, ◌++◌, arith, ltb,
  if◌then◌else◌, get_or, length, bit_and_nibble,
}
use cs7000p_bootloader.Main.{hexdigits, fill_digits, print_unsigned_int}

-- The value of a hexadecimal digit, and of a row of them behind `acc`.
abbrev pub digit_value : ℕ → ℕ
digit_value c = if ltb c 58 then c - 48 else c - 55

abbrev pub hex_value : ℕ → List ℕ → ℕ
hex_value acc [] = acc
hex_value acc (c ∷ cs) = hex_value (16 * acc + digit_value c) cs

pub digit_value-hex_digit : (k : ℕ) → k < 16 → digit_value (get_or hexdigits k 0) ≡ k
digit_value-hex_digit zero h = refl
digit_value-hex_digit (suc zero) h = refl
digit_value-hex_digit (suc (suc zero)) h = refl
digit_value-hex_digit (suc (suc (suc zero))) h = refl
digit_value-hex_digit (suc (suc (suc (suc zero)))) h = refl
digit_value-hex_digit (suc (suc (suc (suc (suc zero))))) h = refl
digit_value-hex_digit (suc (suc (suc (suc (suc (suc zero)))))) h = refl
digit_value-hex_digit (suc (suc (suc (suc (suc (suc (suc zero))))))) h = refl
digit_value-hex_digit (suc (suc (suc (suc (suc (suc (suc (suc zero)))))))) h = refl
digit_value-hex_digit (suc (suc (suc (suc (suc (suc (suc (suc (suc zero))))))))) h = refl
digit_value-hex_digit (suc (suc (suc (suc (suc (suc (suc (suc (suc (suc zero)))))))))) h = refl
digit_value-hex_digit (suc (suc (suc (suc (suc (suc (suc (suc (suc (suc (suc zero))))))))))) h =
    refl
digit_value-hex_digit (suc (suc (suc (suc (suc (suc (suc (suc (suc (suc (suc (suc zero))))))))))))
      h =
    refl
digit_value-hex_digit
      (suc (suc (suc (suc (suc (suc (suc (suc (suc (suc (suc (suc (suc zero))))))))))))) h =
    refl
digit_value-hex_digit
      (suc (suc (suc (suc (suc (suc (suc (suc (suc (suc (suc (suc (suc (suc zero)))))))))))))) h =
    refl
digit_value-hex_digit
      (suc (suc (suc (suc (suc (suc (suc (suc (suc (suc (suc (suc (suc (suc (suc zero)))))))))))))))
      h =
    refl
digit_value-hex_digit
      (suc
        (suc (suc (suc (suc (suc (suc (suc (suc (suc (suc (suc (suc (suc (suc (suc k))))))))))))))))
      h =
    absurd (omega arith)

digit_printed : (x : ℕ) → digit_value (get_or hexdigits (x % 2 ^ 4) 0) ≡ x % 2 ^ 4
digit_printed x = digit_value-hex_digit (x % 2 ^ 4) (omega arith)

-- The eight digits, the most significant first.
abbrev digits_of : ℕ → ℕ → List ℕ → List ℕ
digits_of x zero l = l
digits_of x (suc n) l = digits_of (x / 2 ^ 4) n (get_or hexdigits (x % 2 ^ 4) 0 ∷ l)

print_unsigned_int-digits : (x : ℕ) → print_unsigned_int x ≡ 48 ∷ 120 ∷ digits_of x 8 (13 ∷ 10 ∷ [])
unfolding print_unsigned_int fill_digits
print_unsigned_int-digits x = simp bit_and_nibble refl

-- A 32-bit number is printed as "0x", eight digits and a line end, and the digits read as a
-- hexadecimal number are that number.
pub hex_value-print :
    (x : ℕ)
    → x < 2 ^ 32
    → (digits : List ℕ) × (print_unsigned_int x ≡ 48 ∷ 120 ∷ (digits ++ (13 ∷ 10 ∷ [])))
      × (length digits ≡ 8)
      × (hex_value 0 digits ≡ x)
hex_value-print x h = (
  digits_of x 8 [],
  print_unsigned_int-digits x,
  refl,
  omega (
    arith,
    digit_printed x,
    digit_printed (x / 16),
    digit_printed (x / 16 / 16),
    digit_printed (x / 16 / 16 / 16),
    digit_printed (x / 16 / 16 / 16 / 16),
    digit_printed (x / 16 / 16 / 16 / 16 / 16),
    digit_printed (x / 16 / 16 / 16 / 16 / 16 / 16),
    digit_printed (x / 16 / 16 / 16 / 16 / 16 / 16 / 16),
  ),
)
