-- ===== src/Delay.antt =====
-- src/delay.c: how many rounds the loops of the delays make. How long a round takes is the core's.
pub mod Rounds
mod Tests
use cs7000p_bootloader.Base.{ℕ, zero, suc, ◌+◌, ◌*◌, Option, none, some, ltb, u32, if◌then◌else◌}
use mathlib.Core.Option

-- The loop in assembly from its `cmp` on, with fuel: as long as `r1` is lower than the bound, one is added
-- to it. The value is the number of rounds, and `none` if the fuel runs out.
unfoldable pub spin : (bound r1 : ℕ) → ℕ → Option ℕ
spin bound r1 zero = none
spin bound r1 (suc fuel) =
    let rest = spin bound (u32 (r1 + 1)) fuel in
    if ltb r1 bound then Option.map suc rest else some 0

-- The local `count` of `delayMs`.
abbrev pub count : ℕ
count = 133000

-- The loop of `delayMs`, with fuel for it and for each of the loops in it.
unfoldable pub delay_from : (mseconds i : ℕ) → (inner fuel : ℕ) → Option ℕ
delay_from mseconds i inner zero = none
delay_from mseconds i inner (suc fuel) =
    let rest = delay_from mseconds (u32 (i + 1)) inner fuel in
    if ltb i mseconds
    then Option.bind (spin count 0 inner) (λ n. Option.map (λ k. n + k) rest)
    else some 0

-- `delayMs` and `delayUs`.
unfoldable pub delay_ms : (mseconds fuel : ℕ) → Option ℕ
delay_ms mseconds fuel = delay_from mseconds 0 fuel fuel

unfoldable pub delay_us : (useconds fuel : ℕ) → Option ℕ
delay_us useconds fuel = spin (u32 (useconds * 133)) 0 fuel
