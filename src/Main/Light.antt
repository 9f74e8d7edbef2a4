-- ===== src/Main/Light.antt =====
-- The LED task of src/main.c on the outputs of the board.
use cs7000p_bootloader.Base.{
  if◌then◌else◌, ℕ, ◌+◌, ◌-◌, ◌^◌, ◌<◌, ◌≡◌, ◌≢◌, ◌⊎◌, inl, inr, refl, ap, ◌∙◌, Bool, true, false,
  not, List, [], ◌∷◌, arith, ltb, Bool-cases, u32, ◌==◌,
}
use cs7000p_bootloader.Gpio.Chain.{Chain}
use cs7000p_bootloader.Gpio.Levels.{ext_pin, ext_level, pin_write}
use cs7000p_bootloader.Gpio.Shown.{IsShown}
use cs7000p_bootloader.Gpio.Writes.{pin_write-level, pin_write-IsShown}
use cs7000p_bootloader.Gpio.Dev.{Board, dev_set, dev_clear, pin_set, pin_clear}
use cs7000p_bootloader.Main.{Led, led_write, red_led_pin, led_blinking_task}

abbrev pub write_all : List Bool → Board → Board
write_all [] b = b
write_all (state ∷ states) b = write_all states (led_write state b)

-- The task at a row of tick counts.
abbrev pub blink_all : List ℕ → Led × Board → Led × Board
blink_all [] s = s
blink_all (tick ∷ ticks) (l, b) =
    let (writes, l') = led_blinking_task tick l in blink_all ticks (l', write_all writes b)

-- The levels of the other outputs of the shift register are those of `b`, and so is that of the LED if
-- the task has not changed its state; otherwise it is the opposite of what is written next. The chain
-- was `c` before the first access. The configuration of the ports is kept.
pub record IsLit (c : Chain) (l : Led) (b : Board) (l' : Led) (b' : Board) : Type 0 where
  pub led : ((l' ≡ l) × (b' ≡ b)) ⊎ (ext_level c red_led_pin b' ≡ not l'.led_state)
  pub others : (q : ℕ) → q < 24 → q ≢ red_led_pin → ext_level c q b' ≡ ext_level c q b
  pub regs : b'.regs ≡ b.regs
  pub shown : IsShown c b'.outputs

led_write-pin_write :
    (state : Bool) (b : Board) → led_write state b ≡ pin_write (ext_pin red_led_pin) state b
unfolding led_write dev_set dev_clear pin_set pin_clear
led_write-pin_write true b = refl
led_write-pin_write false b = refl

led_write-level :
    (c : Chain) (q : ℕ) (state : Bool) (b : Board)
    → q < 24
    → IsShown c b.outputs
    → ext_level c q (led_write state b) ≡ (if 13 == q then state else ext_level c q b)
led_write-level c q state b h v =
    ap (ext_level c q) (led_write-pin_write state b)
    ∙ pin_write-level (λ p n. false) c (ext_pin 13) (ext_pin q) state b (omega arith) h refl refl v

led_write-regs : (state : Bool) (b : Board) → (led_write state b).regs ≡ b.regs
unfolding led_write dev_set dev_clear
led_write-regs true b = refl
led_write-regs false b = refl

written-IsLit :
    (c : Chain) (b b' : Board) (l₀ l l' : Led) (state : Bool)
    → l'.led_state ≡ not state
    → IsLit c l₀ b l b'
    → IsLit c l₀ b l' (led_write state b')
written-IsLit c b b' l₀ l l' state e v = record {
  led = inr (led_write-level c 13 state b' (omega arith) v.shown ∙ rw e twice);
  others = λ q h ne. led_write-level c q state b' h v.shown ∙ rw (other q ne) (v.others q h ne);
  regs = led_write-regs state b' ∙ v.regs;
  shown =
      rw (led_write-pin_write state b')
        (pin_write-IsShown c (ext_pin 13) state b' (omega arith) refl v.shown);
}
  where
    twice : state ≡ not (not state)
    twice = ground arith

    other : (q : ℕ) → q ≢ 13 → (13 == q) ≡ false
    other q ne = ground arith

step-IsLit :
    (c : Chain) (tick : ℕ) (b b' : Board) (l₀ l : Led)
    → IsLit c l₀ b l b'
    → let (writes, l') = led_blinking_task tick l in IsLit c l₀ b l' (write_all writes b')
unfolding led_blinking_task
step-IsLit c tick b b' l₀ l v = elim (Bool-cases (ltb (u32 (tick + 2 ^ 32 - l.start_ms)) 250)) [
  | inl e ↦ rw e v
  | inr e ↦ rw e (written-IsLit c b b' l₀ l _ l.led_state refl v)
]

rows-IsLit :
    (c : Chain) (ticks : List ℕ) (b b' : Board) (l₀ l : Led)
    → IsLit c l₀ b l b'
    → let (l', b'') = blink_all ticks (l, b') in IsLit c l₀ b l' b''
rows-IsLit c [] b b' l₀ l v = v
rows-IsLit c (tick ∷ ticks) b b' l₀ l v =
    let (writes, l') = led_blinking_task tick l in
    rows-IsLit c ticks b (write_all writes b') l₀ l' (step-IsLit c tick b b' l₀ l v)

-- However often the LED task runs, and at whatever tick counts: no other output of the chain of shift
-- registers changes its level, no port is configured anew, and from the first change of its state on
-- the output of the LED has the opposite of what the task writes next. The levels are those that the
-- chain has latched after the accesses; before the task runs, they are what the program reads.
pub blink_all-IsLit :
    (c : Chain) (ticks : List ℕ) (l : Led) (b : Board)
    → IsShown c b.outputs
    → let (l', b') = blink_all ticks (l, b) in IsLit c l b l' b'
blink_all-IsLit c ticks l b v =
    rows-IsLit c ticks b b l l
      (record { led = inl (refl, refl); others = λ q h ne. refl; regs = refl; shown = v })
