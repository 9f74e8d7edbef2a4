-- ===== src/Gpio/Meaning.antt =====
-- What the modes of include/gpio.h mean, in the terms of the reference manual.
use cs7000p_bootloader.Base.{
  ℕ, ◌≡◌, refl, Bool, true, false, ◌==◌, if◌then◌else◌, ◌<◌, zero, suc, [], ◌∷◌, get_or, arith,
}
use cs7000p_bootloader.Gpio.{ModeCase, mode_case, case_of}

pub data Use : Type 0 where
  as_input as_output as_alternate as_analog : Use

pub data Pull : Type 0 where
  no_pull pull_up pull_down : Pull

pub record Wiring : Type 0 where
  pub usage : Use
  pub drain_open : Bool
  pub pull : Pull

-- The numbers of the reference manual for MODER, OTYPER and PUPDR.
abbrev pub moder_bits : Use → ℕ
moder_bits Use.as_input = 0
moder_bits Use.as_output = 1
moder_bits Use.as_alternate = 2
moder_bits Use.as_analog = 3

abbrev pub is_alternate : Use → Bool
is_alternate Use.as_alternate = true
is_alternate _ = false

abbrev pub pupdr_bits : Pull → ℕ
pupdr_bits Pull.no_pull = 0
pupdr_bits Pull.pull_up = 1
pupdr_bits Pull.pull_down = 2

abbrev pub setting : Wiring → ModeCase
setting w =
    mode_case (moder_bits w.usage) (if w.drain_open then 1 else 0) (pupdr_bits w.pull)
      (is_alternate w.usage)

abbrev pub wired : Use → Bool → Pull → Wiring
wired u o p = record { usage = u; drain_open = o; pull = p }

-- The comments on the modes in the order of their numbers, the one on `OPEN_DRAIN_PU` aside: that mode is an open drain without a
-- pull-up here, as the code has it. A number that is no mode is an input.
unfoldable pub wiring : ℕ → Wiring
wiring m =
    get_or
      (wired Use.as_input false Pull.no_pull
        ∷ wired Use.as_input false Pull.pull_up
        ∷ wired Use.as_input false Pull.pull_down
        ∷ wired Use.as_analog false Pull.no_pull
        ∷ wired Use.as_output false Pull.no_pull
        ∷ wired Use.as_output true Pull.no_pull
        ∷ wired Use.as_output true Pull.no_pull
        ∷ wired Use.as_alternate false Pull.no_pull
        ∷ wired Use.as_alternate true Pull.no_pull
        ∷ wired Use.as_alternate true Pull.pull_up
        ∷ [])
      m (wired Use.as_input false Pull.no_pull)

differs : (i m : ℕ) → i < m → (m == i) ≡ false
differs i m h = ground arith

-- The `switch` sets what the modes mean.
pub case_of-wiring : (m : ℕ) → case_of m ≡ setting (wiring m)
unfolding case_of wiring
case_of-wiring zero = refl
case_of-wiring (suc zero) = refl
case_of-wiring (suc (suc zero)) = refl
case_of-wiring (suc (suc (suc zero))) = refl
case_of-wiring (suc (suc (suc (suc zero)))) = refl
case_of-wiring (suc (suc (suc (suc (suc zero))))) = refl
case_of-wiring (suc (suc (suc (suc (suc (suc zero)))))) = refl
case_of-wiring (suc (suc (suc (suc (suc (suc (suc zero))))))) = refl
case_of-wiring (suc (suc (suc (suc (suc (suc (suc (suc zero)))))))) = refl
case_of-wiring (suc (suc (suc (suc (suc (suc (suc (suc (suc zero))))))))) = refl
case_of-wiring (suc (suc (suc (suc (suc (suc (suc (suc (suc (suc m)))))))))) =
    let n : ℕ = suc (suc (suc (suc (suc (suc (suc (suc (suc (suc m))))))))) in
    rw
      (
        differs 0 n (omega arith),
        differs 1 n (omega arith),
        differs 2 n (omega arith),
        differs 3 n (omega arith),
        differs 4 n (omega arith),
        differs 5 n (omega arith),
        differs 6 n (omega arith),
        differs 7 n (omega arith),
        differs 8 n (omega arith),
        differs 9 n (omega arith),
      )
      refl
