-- ===== src/Main/Blink.antt =====
-- The timing of the LED in src/main.c.
use cs7000p_bootloader.Base.{
  ℕ, ◌+◌, ◌-◌, ◌^◌, ◌≤◌, ◌<◌, ◌≡◌, refl, not, [], ◌∷◌, arith, ltb, Bool-cases, inl, inr,
  if◌then◌else◌, u32,
}
use cs7000p_bootloader.Main.{Led, led_blinking_task}

-- The time since the last change was due, which wraps with the tick count.
abbrev pub elapsed : ℕ → Led → ℕ
elapsed tick l = u32 (tick + 2 ^ 32 - l.start_ms)

-- With 32-bit counters, a call before the interval is over writes nothing and changes nothing. A
-- call after it writes the LED once, the next will write the opposite, and the time over the
-- interval counts for the next change, also when the counters wrap.
pub led_blinking_task_lem :
    (tick : ℕ) (l : Led)
    → tick < 2 ^ 32
    → l.start_ms < 2 ^ 32
    → let (writes, l') = led_blinking_task tick l in
      if ltb (elapsed tick l) 250
      then (writes ≡ []) × (l' ≡ l)
      else ((writes ≡ l.led_state ∷ [])
          × (l'.led_state ≡ not l.led_state)
          × (elapsed tick l' + 250 ≡ elapsed tick l)
          × (l'.start_ms < 2 ^ 32))
unfolding led_blinking_task
led_blinking_task_lem tick l ht hs = elim (Bool-cases (ltb (elapsed tick l) 250)) [
  | inl e ↦ rw e (refl, refl)
  | inr e ↦ rw e (refl, refl, wrapped (ground arith), omega arith)
]
  where
    wrapped :
        250 ≤ elapsed tick l → u32 (tick + 2 ^ 32 - u32 (l.start_ms + 250)) + 250 ≡ elapsed tick l
    wrapped h = omega arith
