-- ===== src/BootJump/Handover.antt =====
-- The state in which src/boot_jump.c leaves the core to the application.
use mathlib.Core.Option.{Option, none, some}
use cs7000p_bootloader.Base.{
  ℕ, zero, suc, ◌+◌, ◌<◌, ◌≡◌, refl, ◌∙◌, Bool, true, false, ◌&&◌, List, [], ◌∷◌, ◌++◌, arith,
  bit_and, and_zero_below, not32, ltb, leb, ◌==◌, if◌then◌else◌,
}
use cs7000p_bootloader.BootJump.{
  Step, disable_irq, isb, systick_ctrl, vtor, set_msp, nvic_icer, nvic_icpr, call, app_base_addr,
  nvic_steps, jump_to_application,
}

-- What of the core matters to the code that it runs next: the mask, the timer, the interrupts that are
-- enabled and those that are pending, 32 to a register, the vector table, the stack pointer, and
-- whether an instruction barrier has followed the changes of these two.
pub record Core : Type 0 where
  pub masked : Bool
  pub timer : ℕ
  pub enabled : ℕ → ℕ
  pub pending : ℕ → ℕ
  pub vectors : ℕ
  pub msp : ℕ
  pub synced : Bool

-- A one that is written to ICER or ICPR clears its bit.
cleared : (ℕ → ℕ) → (i v : ℕ) → ℕ → ℕ
cleared regs i v j = if j == i then bit_and (regs j) (not32 v) else regs j

pub on_step : Step → Core → Core
on_step disable_irq c = record c { masked = true }
on_step (systick_ctrl v) c = record c { timer = v }
on_step (nvic_icer i v) c = record c { enabled = cleared c.enabled i v }
on_step (nvic_icpr i v) c = record c { pending = cleared c.pending i v }
on_step (vtor v) c = record c { vectors = v; synced = false }
on_step (set_msp v) c = record c { msp = v; synced = false }
on_step isb c = record c { synced = true }
on_step _ c = c

run : List Step → Core → Core
run [] c = c
run (s ∷ l) c = run l (on_step s c)

-- The first call, with its target and the core at that time.
unfoldable pub at_call : List Step → Core → Option (ℕ × Core)
at_call [] c = none
at_call (call v ∷ l) c = some (v, c)
at_call (s ∷ l) c = at_call l (on_step s c)

-- The loop calls nothing.
nvic_steps-quiet :
    (i n : ℕ) (l : List Step) (c : Core)
    → at_call (nvic_steps i n ++ l) c ≡ at_call l (run (nvic_steps i n) c)
unfolding at_call run nvic_steps on_step
nvic_steps-quiet i zero l c = refl
nvic_steps-quiet i (suc n) l c = nvic_steps-quiet (i + 1) n l _

cleared-all :
    (regs : ℕ → ℕ) (i j : ℕ) → cleared regs i 0xFFFFFFFF j ≡ (if j == i then 0 else regs j)
unfolding cleared not32
cleared-all regs i j = rw (and_zero_below (regs j) (regs j) (omega arith)) refl

-- The loop clears the registers that it passes, and nothing else changes.
record IsCleared (i n : ℕ) (c c' : Core) : Type 0 where
  enabled : (j : ℕ) → c'.enabled j ≡ (if leb i j && ltb j (i + n) then 0 else c.enabled j)
  pending : (j : ℕ) → c'.pending j ≡ (if leb i j && ltb j (i + n) then 0 else c.pending j)
  masked : c'.masked ≡ c.masked
  timer : c'.timer ≡ c.timer

nvic_steps-IsCleared : (i n : ℕ) (c : Core) → IsCleared i n c (run (nvic_steps i n) c)
unfolding run nvic_steps on_step
nvic_steps-IsCleared i zero c = record {
  enabled = λ j. ground arith;
  pending = λ j. ground arith;
  masked = refl;
  timer = refl;
}
nvic_steps-IsCleared i (suc n) c =
    let c' : Core = record c {
      enabled = cleared c.enabled i 0xFFFFFFFF;
      pending = cleared c.pending i 0xFFFFFFFF;
    } in
    let rest = nvic_steps-IsCleared (i + 1) n c' in
    record {
      enabled = λ j. rest.enabled j ∙ rw cleared-all (ground arith);
      pending = λ j. rest.pending j ∙ rw cleared-all (ground arith);
      masked = rest.masked;
      timer = rest.timer;
    }

-- The core as the application finds it.
pub record IsHandedOver (word : ℕ → ℕ) (c : Core) : Type 0 where
  pub masked : c.masked ≡ true
  pub timer_off : c.timer ≡ 0
  pub none_enabled : (j : ℕ) → j < 8 → c.enabled j ≡ 0
  pub none_pending : (j : ℕ) → j < 8 → c.pending j ≡ 0
  pub vectors : c.vectors ≡ app_base_addr
  pub stack : c.msp ≡ word app_base_addr
  pub synced : c.synced ≡ true

-- From every state of the core, the first call that `jump_to_application` makes is that of the second
-- word of the application, and at that time interrupts are masked, the timer is stopped, no interrupt
-- of the first 256 is enabled or pending, the vector table is the application's, the stack pointer is
-- its first word, and an instruction barrier has followed both.
pub jump_to_application-IsHandedOver :
    (word : ℕ → ℕ) (c : Core)
    → (c' : Core) × (at_call (jump_to_application word) c ≡ some (word (app_base_addr + 4), c'))
      × IsHandedOver word c'
unfolding jump_to_application at_call on_step
jump_to_application-IsHandedOver word c =
    let start : Core = record c { masked = true; timer = 0 } in
    let quiet = nvic_steps-IsCleared 0 8 start in
    (
      _,
      nvic_steps-quiet 0 8 _ start,
      record {
        masked = quiet.masked;
        timer_off = quiet.timer;
        none_enabled = λ j h. quiet.enabled j ∙ ground arith;
        none_pending = λ j h. quiet.pending j ∙ ground arith;
        vectors = refl;
        stack = refl;
        synced = refl;
      },
    )
