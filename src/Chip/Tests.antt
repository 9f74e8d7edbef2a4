-- ===== src/Chip/Tests.antt =====
-- A chip that is as Chip.Laws describes it: its flags come three reads after a write.
use cs7000p_bootloader.Base.{
  ℕ, zero, suc, ◌+◌, ◌-◌, ◌*◌, ◌/◌, ◌^◌, ◌<◌, ◌≡◌, refl, sym, ◌∙◌, Bool, true, false, not, ◌&&◌,
  bit_and, ltb, ◌==◌, if◌then◌else◌, any_set, ◌<<<◌, min, bit, any_set-bit, bit-bit_and, bit_above,
  bit_ext, Bool-cases, inl, inr, arith,
}
use cs7000p_bootloader.Base.{bit_and-le}
use native.Mathlib.Nat.{pow-suc}
use cs7000p_bootloader.Chip.{Reg, Wait, Chip, FlagMasks, flag_reg, is_done}
use cs7000p_bootloader.Chip.Shadow.{Bits, owned, volatile, locked, needs, written}
use cs7000p_bootloader.Chip.Laws.{bits_of, IsChip}

-- The word that has some bits.
pub number : (ℕ → Bool) → ℕ → ℕ
number g zero = 0
number g (suc w) = (if g 0 then 1 else 0) + 2 * number (λ i. g (suc i)) w

bit-number : (g : ℕ → Bool) (w i : ℕ) → i < w → bit (number g w) i ≡ g i
unfolding bit number
bit-number g zero i h = absurd (omega arith)
bit-number g (suc w) zero h = elim (Bool-cases (g 0)) [
  | inl e ↦ rw e (ground arith)
  | inr e ↦ rw e (ground arith)
]
bit-number g (suc w) (suc i) h =
    let half : ((if g 0 then 1 else 0) + 2 * number (λ i. g (suc i)) w) / 2
        ≡ number (λ i. g (suc i)) w =
      ground arith in
    rw half (bit-number (λ i. g (suc i)) w i (omega arith))

number-lt : (g : ℕ → Bool) (w : ℕ) → number g w < 2 ^ w
unfolding number
number-lt g zero = omega arith
number-lt g (suc w) = ground (arith, number-lt (λ i. g (suc i)) w, pow-suc 2 w)

pub record State : Type 0 where
  pub bits : Bits
  pub wait : ℕ

-- All flags but the upper bit of SWS.
abbrev pub ready : Reg → ℕ → Bool
ready Reg.rcc_cfgr i = not (i == 5)
ready r i = true

abbrev pub seen : State → Reg → ℕ → Bool
seen s r i = if owned r i then s.bits r i else ready r i && (s.wait == 0)

abbrev pub slow : Chip
slow = record {
  Hw = State;
  read = λ r s. number (seen s r) 32;
  elapse = λ s. record s { wait = min s.wait 3 - 1 };
  write = λ r v s. record { bits = written r (bit v) s.bits; wait = 3 };
}

abbrev pub flags : FlagMasks
flags = record {
  dbp = 0x100;
  vosrdy = 0x2000;
  hserdy = 0x20000;
  pll1rdy = 0x2000000;
  sws = 0x38;
  sws_pll1 = 0x18;
  pll3rdy = 0x20000000;
  usb33rdy = 0x4000000;
}

read_bit : (s : State) (r : Reg) (i : ℕ) → i < 32 → bits_of slow s r i ≡ seen s r i
read_bit s r i h = bit-number (seen s r) 32 i h

kept_bit : (s : State) (r : Reg) (i : ℕ) → volatile r i ≡ false → bits_of slow s r i ≡ s.bits r i
kept_bit s r i v =
    let own : owned r i ≡ true = ground arith in read_bit s r i (ground arith) ∙ rw own refl

-- A flag is seen once nothing is left to wait for.
flag_seen :
    (s : State) (r : Reg) (p : ℕ)
    → p < 32
    → owned r p ≡ false
    → ready r p ≡ true
    → s.wait ≡ 0
    → any_set (slow.read r s) (1 <<< p) ≡ true
flag_seen s r p h c e z = any_set-bit p (slow.read r s) ∙ read_bit s r p h ∙ rw (c, e, z) refl

sws_seen : (s : State) → s.wait ≡ 0 → bit_and (slow.read Reg.rcc_cfgr s) 0x38 ≡ 0x18
unfolding bit
sws_seen s z = bit_ext 6 (bit_and v 0x38) 0x18 (omega (arith, bit_and-le v 0x38)) (omega arith) each
  where
    v : ℕ
    v = slow.read Reg.rcc_cfgr s

    digit : (i : ℕ) → i < 32 → bit (bit_and v 0x38) i ≡ (seen s Reg.rcc_cfgr i && bit 0x38 i)
    digit i h = bit-bit_and i v 0x38 ∙ rw (read_bit s Reg.rcc_cfgr i h) refl

    each : (i : ℕ) → bit (bit_and v 0x38) i ≡ bit 0x18 i
    each zero = digit 0 (omega arith) ∙ ground arith
    each (suc zero) = digit 1 (omega arith) ∙ ground arith
    each (suc (suc zero)) = digit 2 (omega arith) ∙ ground arith
    each (suc (suc (suc zero))) = digit 3 (omega arith) ∙ rw z refl
    each (suc (suc (suc (suc zero)))) = digit 4 (omega arith) ∙ rw z refl
    each (suc (suc (suc (suc (suc zero))))) = digit 5 (omega arith) ∙ refl
    each (suc (suc (suc (suc (suc (suc i)))))) =
        bit_above 6 (suc (suc (suc (suc (suc (suc i)))))) (bit_and v 0x38)
          (omega (arith, bit_and-le v 0x38)) (omega arith)
        ∙ sym (bit_above 6 (suc (suc (suc (suc (suc (suc i)))))) 0x18 (omega arith) (omega arith))

all_done :
    (w : Wait) (s : State)
    → s.wait ≡ 0
    → needs w (bits_of slow s) ≡ true
    → is_done slow flags w (slow.read (flag_reg slow flags w) s) ≡ true
unfolding ◌<<<◌
all_done Wait.dbp_set s z n = any_set-bit 8 (slow.read Reg.pwr_cr1 s) ∙ n
all_done Wait.vos_ready s z n = flag_seen s Reg.pwr_d3cr 13 (omega arith) refl refl z
all_done Wait.hse_ready s z n = flag_seen s Reg.rcc_cr 17 (omega arith) refl refl z
all_done Wait.pll1_ready s z n = flag_seen s Reg.rcc_cr 25 (omega arith) refl refl z
all_done Wait.pll1_selected s z n = rw (sws_seen s z) refl
all_done Wait.pll3_ready s z n = flag_seen s Reg.rcc_cr 29 (omega arith) refl refl z
all_done Wait.usb33_ready s z n = flag_seen s Reg.pwr_cr3 26 (omega arith) refl refl z

locked_kept : (s : State) (r : Reg) (i : ℕ) → locked (bits_of slow s) r i ≡ locked s.bits r i
locked_kept s r i =
    rw (kept_bit s Reg.rcc_cr 24 refl, kept_bit s Reg.rcc_cr 26 refl, kept_bit s Reg.rcc_cr 28 refl)
      refl

pub slow-IsChip : IsChip slow flags 3
slow-IsChip = record {
  word = λ r s. number-lt (seen s r) 32;
  elapse_kept =
      λ r i s v. kept_bit (record s { wait = min s.wait 3 - 1 }) r i v ∙ sym (kept_bit s r i v);
  write_bits = λ r r' v i s on p.
      kept_bit (record { bits = written r (bit v) s.bits; wait = 3 }) r' i p
      ∙ rw (locked_kept s r' i, kept_bit s r' i p) refl;
  left = λ w s. min s.wait 3;
  left_limit = λ w s. omega arith;
  left_less = λ w s n d. elim (Bool-cases (s.wait == 0)) [
    | inl z ↦ absurd (not_both (all_done w s (ground arith) n) d)
    | inr z ↦ (let some_left : 0 < s.wait = ground arith in omega (arith, some_left))
  ];
}
  where
    not_both : {b : Bool} → b ≡ true → b ≡ false → ⊥
    not_both e d = grind arith

-- Its state after a reset: no bit is set, and no flag has come.
abbrev pub after_reset : State
after_reset = record { bits = λ r i. false; wait = 3 }

pub after_reset-bits : (r : Reg) (i : ℕ) → bits_of slow after_reset r i ≡ false
after_reset-bits r i = elim (Bool-cases (ltb i 32)) [
  | inl h ↦
      read_bit after_reset r i (ground arith)
      ∙ elim (Bool-cases (owned r i)) [ inl c ↦ rw c refl | inr c ↦ rw c (unset (ready r i)) ]
  | inr h ↦
      bit_above 32 i (slow.read r after_reset) (number-lt (seen after_reset r) 32) (ground arith)
]
  where
    unset : (b : Bool) → (b && false) ≡ false
    unset true = refl
    unset false = refl
