-- ===== src/Gpio/Wire.antt =====
-- What the chain of shift registers makes of the accesses of src/gpio.c: its outputs are what the
-- program reads.
use cs7000p_bootloader.Base.{
  ℕ, zero, suc, ◌+◌, ◌/◌, ◌^◌, ◌<◌, ◌≡◌, refl, ap, sym, ◌∙◌, Bool, false, List, [], ◌∷◌, ◌++◌,
  arith, length, any_set, ◌<<<◌, ltb, Bool-cases, inl, inr, take, replicate,
}
use cs7000p_bootloader.Bus.{Access, bsrr, gpioe, irq_off, irq_on, set_pin, clear_pin}
use cs7000p_bootloader.Gpio.{
  Registers, shift_reg_init, ShiftReg, send_bit, send_byte, send, strobe, byte_of, shift_reg_modify,
  shift_reg_read,
}
use cs7000p_bootloader.Gpio.Outputs.{IsShiftReg, modify-IsShiftReg}
use cs7000p_bootloader.Gpio.Chain.{
  Chain, on_access, receive, receive-append, on_access-one, no_rise,
}

-- What the register has of one bit.
record IsShifted (bits : List Bool) (c c' : Chain) : Type 0 where
  str : c'.str ≡ c.str
  shifted : c'.shifted ≡ bits
  latched : c'.latched ≡ c.latched

receive-send_bit :
    (value cnt : ℕ) (c : Chain)
    → IsShifted (any_set value (0x80 / 2 ^ cnt) ∷ c.shifted) c (receive (send_bit value cnt) c)
unfolding receive send_bit
receive-send_bit value cnt c = elim (Bool-cases (any_set value (0x80 / 2 ^ cnt))) [
  | inl e ↦ rw e (record {
    str = simp on_access-one refl;
    shifted = simp on_access-one refl;
    latched = simp (on_access-one, no_rise) refl;
  })
  | inr e ↦ rw e (record {
    str = simp on_access-one refl;
    shifted = simp on_access-one refl;
    latched = simp (on_access-one, no_rise) refl;
  })
]

-- The bits that `n` rounds from `cnt` on put before those that are there.
shifted_in : (value cnt : ℕ) → ℕ → List Bool → List Bool
shifted_in value cnt zero l = l
shifted_in value cnt (suc n) l = shifted_in value (cnt + 1) n (any_set value (0x80 / 2 ^ cnt) ∷ l)

IsShifted-then :
    {l m : List Bool} {c c' c'' : Chain} → IsShifted l c c' → IsShifted m c' c'' → IsShifted m c c''
IsShifted-then s t = record {
  str = t.str ∙ s.str;
  shifted = t.shifted;
  latched = t.latched ∙ s.latched;
}

receive-send_byte :
    (value cnt n : ℕ) (c : Chain)
    → IsShifted (shifted_in value cnt n c.shifted) c (receive (send_byte value cnt n) c)
unfolding receive send_byte shifted_in
receive-send_byte value cnt zero c = record { str = refl; shifted = refl; latched = refl }
receive-send_byte value cnt (suc n) c =
    let one = receive-send_bit value cnt c in
    rw receive-append (
      IsShifted-then one
        (rw (← one.shifted) (receive-send_byte value (cnt + 1) n (receive (send_bit value cnt) c))))

all_shifted_in : List ℕ → List Bool → List Bool
all_shifted_in [] l = l
all_shifted_in (value ∷ values) l = all_shifted_in values (shifted_in value 0 8 l)

receive-send :
    (txbuf : List ℕ) (c : Chain)
    → IsShifted (all_shifted_in txbuf c.shifted) c (receive (send txbuf) c)
unfolding receive send all_shifted_in
receive-send [] c = record { str = refl; shifted = refl; latched = refl }
receive-send (value ∷ txbuf) c =
    let one = receive-send_byte value 0 8 c in
    rw receive-append (
      IsShifted-then one
        (rw (← one.shifted) (receive-send txbuf (receive (send_byte value 0 8) c))))

strobe_low :
    (c : Chain)
    → let c' = on_access (bsrr gpioe (1 <<< (8 + 16))) c in
      (c'.str ≡ false) × (c'.shifted ≡ c.shifted)
strobe_low c = (simp on_access-one refl, simp (on_access-one, no_rise) refl)

strobe_high : (c : Chain) → c.str ≡ false → (on_access (bsrr gpioe (1 <<< 8)) c).latched ≡ c.shifted
strobe_high c e = simp (on_access-one, no_rise, e) refl

-- What the strobe brings to the outputs.
receive-strobe :
    (sr_data : List ℕ) (c : Chain)
    → (receive (strobe sr_data) c).latched ≡ all_shifted_in sr_data c.shifted
unfolding receive strobe set_pin clear_pin
receive-strobe sr_data c =
    let c₁ = on_access (bsrr gpioe (1 <<< (8 + 16))) c in
    let sent = receive-send sr_data c₁ in
    rw receive-append (
      strobe_high (receive (send sr_data) c₁) (sent.str ∙ (strobe_low c).0)
      ∙ sent.shifted
      ∙ ap (all_shifted_in sr_data) (strobe_low c).1)

-- The outputs as the program reads them, `n` from number `q` on.
unfoldable pub reads : ShiftReg → (q : ℕ) → ℕ → List Bool
reads s q zero = []
reads s q (suc n) = shift_reg_read q s ∷ reads s (q + 1) n

reads_of_three :
    (a b c : ℕ) (log : List Access) (l : List Bool)
    → take 24 (all_shifted_in (a ∷ b ∷ c ∷ []) l)
      ≡ reads (record { sr_data = a ∷ b ∷ c ∷ []; log = log }) 0 24
unfolding reads all_shifted_in shifted_in shift_reg_read byte_of ◌<<<◌
reads_of_three a b c log l = refl

latched_of_three :
    (xs : List ℕ) (log : List Access) (l : List Bool)
    → length xs ≡ 3
    → take 24 (all_shifted_in xs l) ≡ reads (record { sr_data = xs; log = log }) 0 24
latched_of_three [] log l h = absurd (omega arith)
latched_of_three (a ∷ []) log l h = absurd (omega arith)
latched_of_three (a ∷ b ∷ []) log l h = absurd (omega arith)
latched_of_three (a ∷ b ∷ c ∷ []) log l h = reads_of_three a b c log l
latched_of_three (a ∷ b ∷ c ∷ d ∷ xs) log l h = absurd (omega arith)

-- Interrupts off and on reach no line.
receive-guarded :
    (sr_data : List ℕ) (c : Chain)
    → (receive (irq_off ∷ (strobe sr_data ++ (irq_on ∷ []))) c).latched
      ≡ all_shifted_in sr_data c.shifted
unfolding receive on_access
receive-guarded sr_data c = rw receive-append (receive-strobe sr_data c)

pub modify-log :
    (p : ℕ) (state : Bool) (s : ShiftReg)
    → p < 24
    → let s' = shift_reg_modify p state s in
      s'.log ≡ s.log ++ (irq_off ∷ (strobe s'.sr_data ++ (irq_on ∷ [])))
unfolding shift_reg_modify
modify-log p state s h = let in_range : ltb 24 p ≡ false = ground arith in rw in_range refl

-- The accesses of a write to one of the 24 outputs, whatever levels the lines had and whatever had
-- been shifted in before, leave the shift register with its outputs as the program reads them: output
-- `q` holds what a read of `q` returns.
pub receive-modify :
    (p : ℕ) (state : Bool) (s : ShiftReg) (c : Chain)
    → IsShiftReg s
    → p < 24
    → let s' = shift_reg_modify p state s in
      (l : List Access) × (s'.log ≡ s.log ++ l) × (take 24 (receive l c).latched ≡ reads s' 0 24)
receive-modify p state s c v h =
    let s' = shift_reg_modify p state s in
    (
      irq_off ∷ (strobe s'.sr_data ++ (irq_on ∷ [])),
      modify-log p state s h,
      ap (take 24) (receive-guarded s'.sr_data c)
          ∙ latched_of_three s'.sr_data s'.log c.shifted (modify-IsShiftReg p state s v).size,
    )

-- `gpioShiftReg_init` leaves the shift register with its 24 outputs low, and the program reads them
-- so.
pub receive-init :
    (r : Registers) (s : ShiftReg) (c : Chain)
    → let s' = (shift_reg_init (r, s)).1 in
      (l : List Access) × (s'.log ≡ s.log ++ l)
      × (take 24 (receive l c).latched ≡ replicate 24 false)
      × (reads s' 0 24 ≡ replicate 24 false)
unfolding shift_reg_init all_shifted_in shifted_in any_set
receive-init r s c =
    let cleared : List ℕ = 0 ∷ 0 ∷ 0 ∷ [] in
    let same = latched_of_three cleared (s.log ++ strobe cleared) c.shifted refl in
    (
      strobe cleared,
      refl,
      ap (take 24) (receive-strobe cleared c) ∙ all_low c.shifted,
      sym same ∙ all_low c.shifted,
    )
  where
    all_low : (l : List Bool) → take 24 (all_shifted_in (0 ∷ 0 ∷ 0 ∷ []) l) ≡ replicate 24 false
    all_low l = refl
