-- ===== src/Gpio/Outputs.antt =====
-- The outputs of src/gpio.c behind the shift register, as the program sees them.
use cs7000p_bootloader.Base.{
  ℕ, zero, suc, ◌%◌, ◌^◌, ◌<◌, ◌≡◌, refl, ◌∙◌, Bool, true, false, List, [], ◌∷◌, arith, length,
  length-set, get_or, set, bit_and, bit_or, bit, bit-bit_or, bit-clear, bit-u8, bit-one_<<<,
  <<<-fits, any_set-bit, not32, u8, ◌<<<◌, ltb, ◌==◌, Bool-cases, inl, inr, if◌then◌else◌,
}
use cs7000p_bootloader.Gpio.{ShiftReg, byte_of, shift_reg_modify, shift_reg_read}

-- The array has three bytes.
pub record IsShiftReg (s : ShiftReg) : Type 0 where
  pub size : length s.sr_data ≡ 3
  pub bytes : (i : ℕ) → get_or s.sr_data i 0 < 2 ^ 8

get_or-set :
    (xs : List ℕ) (i j v : ℕ)
    → i < length xs
    → get_or (set xs i v) j 0 ≡ (if i == j then v else get_or xs j 0)
get_or-set [] i j v h = absurd (omega arith)
get_or-set (x ∷ xs) zero zero v h = refl
get_or-set (x ∷ xs) zero (suc j) v h = ground arith
get_or-set (x ∷ xs) (suc i) zero v h = ground arith
get_or-set (x ∷ xs) (suc i) (suc j) v h = ground (arith, get_or-set xs i j v)

-- The new byte, digit by digit.
bit-written :
    (old b i : ℕ) (state : Bool)
    → old < 2 ^ 8
    → b < 8
    → i < 8
    → bit (if state then u8 (bit_or old (1 <<< b)) else u8 (bit_and old (not32 (1 <<< b)))) i
      ≡ (if i == b then state else bit old i)
bit-written old b i true ho hb hi = rw (bit-u8, bit-bit_or, bit-one_<<<) (ground arith)
bit-written old b i false ho hb hi =
    let one_in = <<<-fits b 1 1 (omega arith) (omega arith) in
    rw (bit-u8, bit-clear old (1 <<< b) i (omega arith) one_in, bit-one_<<<) (ground arith)

-- A read sees the last write to its output, and a write no other output: outputs are numbered from 0
-- to 23.
pub read-modify :
    (p q : ℕ) (state : Bool) (s : ShiftReg)
    → IsShiftReg s
    → p < 24
    → q < 24
    → shift_reg_read q (shift_reg_modify p state s) ≡ (if p == q then state else shift_reg_read q s)
unfolding shift_reg_read shift_reg_modify byte_of
read-modify p q state s v hp hq =
    let in_range : ltb 24 p ≡ false = ground arith in
    let readable : ltb 24 q ≡ false = ground arith in
    let old = get_or s.sr_data (byte_of p) 0 in
    rw
      (
        in_range,
        readable,
        any_set-bit,
        any_set-bit,
        get_or-set s.sr_data (byte_of p) (byte_of q) _ (omega arith),
      )
      (elim (Bool-cases (byte_of p == byte_of q)) [
        | inl same ↦
            rw (same, bit-written old (p % 8) (q % 8) state (v.bytes _) (omega arith) (omega arith))
              (ground arith)
        | inr other ↦ rw other (ground arith)
      ])

-- The array keeps its size, and its elements stay bytes.
pub modify-IsShiftReg :
    (p : ℕ) (state : Bool) (s : ShiftReg) → IsShiftReg s → IsShiftReg (shift_reg_modify p state s)
unfolding shift_reg_modify
modify-IsShiftReg p state s v = elim (Bool-cases (ltb 24 p)) [
  | inl e ↦ rw e v
  | inr e ↦ rw e (record {
    size = length-set s.sr_data (byte_of p) _ ∙ v.size;
    bytes = λ i.
        byte_set s.sr_data (byte_of p) _ (byte_new (get_or s.sr_data (byte_of p) 0) (p % 8)) v.bytes
          i;
  })
]
  where
    byte_new :
        (old b : ℕ)
        → (if state then u8 (bit_or old (1 <<< b)) else u8 (bit_and old (not32 (1 <<< b)))) < 2 ^ 8
    byte_new old b = ground arith

    byte_set :
        (xs : List ℕ) (i v : ℕ)
        → v < 2 ^ 8
        → ((j : ℕ) → get_or xs j 0 < 2 ^ 8)
        → (j : ℕ) → get_or (set xs i v) j 0 < 2 ^ 8
    byte_set [] i v h k j = k j
    byte_set (x ∷ xs) zero v h k zero = h
    byte_set (x ∷ xs) zero v h k (suc j) = k (suc j)
    byte_set (x ∷ xs) (suc i) v h k zero = k 0
    byte_set (x ∷ xs) (suc i) v h k (suc j) = byte_set xs i v h (λ l. k (suc l)) j

-- The guard lets number 24 through, which no output has: it is output 16, for writes and for reads.
pub modify_past_end :
    (state : Bool) (s : ShiftReg)
    → (shift_reg_modify 24 state s ≡ shift_reg_modify 16 state s)
      × (shift_reg_read 24 s ≡ shift_reg_read 16 s)
unfolding shift_reg_modify shift_reg_read byte_of
modify_past_end state s = (refl, refl)
