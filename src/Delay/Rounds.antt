-- ===== src/Delay/Rounds.antt =====
-- The delays of src/delay.c come to an end, and agree.
use mathlib.Core.Option
use cs7000p_bootloader.Base.{
  ℕ, zero, suc, ◌+◌, ◌-◌, ◌*◌, ◌%◌, ◌^◌, ◌≤◌, ◌<◌, ◌≡◌, refl, ap, ◌∙◌, some, ltb, inl, inr, arith,
  Bool-cases,
}
use cs7000p_bootloader.Delay.{spin, count, delay_from, delay_ms, delay_us}

spin-ends :
    (bound r1 fuel : ℕ)
    → r1 ≤ bound
    → bound < 2 ^ 32
    → bound < fuel + r1
    → spin bound r1 fuel ≡ some (bound - r1)
unfolding spin
spin-ends bound r1 zero low small enough = absurd (omega arith)
spin-ends bound r1 (suc fuel) low small enough = elim (Bool-cases (ltb r1 bound)) [
  | inl e ↦
      let less : r1 < bound = ground arith in
      let next : (r1 + 1) % 2 ^ 32 ≡ r1 + 1 = omega arith in
      rw (e, next, spin-ends bound (r1 + 1) fuel (omega arith) small (omega arith))
        (ap some (omega (arith, less)))
  | inr e ↦ rw e (ap some (ground arith))
]

delay_from-ends :
    (mseconds i inner fuel : ℕ)
    → i ≤ mseconds
    → mseconds < 2 ^ 32
    → count < inner
    → mseconds < fuel + i
    → delay_from mseconds i inner fuel ≡ some ((mseconds - i) * count)
unfolding delay_from Option.bind
delay_from-ends mseconds i inner zero low small held enough = absurd (omega arith)
delay_from-ends mseconds i inner (suc fuel) low small held enough =
    elim (Bool-cases (ltb i mseconds)) [
      | inl e ↦
          let less : i < mseconds = ground arith in
          let next : (i + 1) % 2 ^ 32 ≡ i + 1 = omega arith in
          rw
            (
              e,
              next,
              spin-ends count 0 inner (omega arith) (omega arith) (omega arith),
              delay_from-ends mseconds (i + 1) inner fuel (omega arith) small held (omega arith),
            )
            (ap some (omega (arith, less)))
      | inr e ↦ rw e (ap some (ground arith))
    ]

-- A delay of some milliseconds, up to 32 seconds, comes to an end and makes 133000 rounds for each of
-- them, whether it is asked for in milliseconds or in microseconds; the fuel has to be more than the
-- rounds and more than those of one millisecond.
pub delay_us-delay_ms :
    (mseconds fuel : ℕ)
    → mseconds * 133000 < 2 ^ 32
    → mseconds * 133000 < fuel
    → 133000 < fuel
    → (delay_us (1000 * mseconds) fuel ≡ delay_ms mseconds fuel)
      × (delay_ms mseconds fuel ≡ some (mseconds * 133000))
unfolding delay_us delay_ms
delay_us-delay_ms mseconds fuel small enough held =
    let product : 1000 * mseconds * 133 % 2 ^ 32 ≡ mseconds * 133000 = omega arith in
    let in_ms : delay_from mseconds 0 fuel fuel ≡ some (mseconds * 133000) =
      delay_from-ends mseconds 0 fuel fuel (omega arith) (omega arith) held (omega arith)
      ∙ ap some (omega arith) in
    let in_us : spin (mseconds * 133000) 0 fuel ≡ some (mseconds * 133000) =
      spin-ends (mseconds * 133000) 0 fuel (omega arith) small (omega arith)
      ∙ ap some (omega arith) in
    (rw (product, in_us, in_ms) refl, in_ms)
