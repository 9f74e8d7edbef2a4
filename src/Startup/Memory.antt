-- ===== src/Startup/Memory.antt =====
-- What the memory holds when `main` of src/main.c is called.
use cs7000p_bootloader.Base.{
  ℕ, zero, suc, ◌+◌, ◌-◌, ◌≤◌, ◌≡◌, refl, ◌∙◌, ◌⊎◌, inl, inr, Bool, true, false, some, [], ◌∷◌,
  ◌&&◌, arith, leb, ltb, ◌==◌, if◌then◌else◌, Bool-cases,
}
use cs7000p_bootloader.Startup.{
  Memory, store, Layout, Step, Cpu, memcpy, memset, program_startup, on_step, at_main,
}

-- Whether an address lies in a range.
abbrev pub inside : (lo hi a : ℕ) → Bool
inside lo hi a = leb lo a && ltb a hi

-- A copy between ranges that do not overlap.
memcpy_lem :
    (dst src n : ℕ) (m : Memory) (a : ℕ)
    → (src + n ≤ dst) ⊎ (dst + n ≤ src)
    → memcpy dst src n m a ≡ (if inside dst (dst + n) a then m (src + (a - dst)) else m a)
unfolding memcpy
memcpy_lem dst src zero m a apart = ground arith
memcpy_lem dst src (suc n) m a apart =
    memcpy_lem (dst + 1) (src + 1) n (store dst (m src) m) a (next apart)
    ∙ elim (Bool-cases (a == dst)) [
      | inl e ↦
          let here : src + (a - dst) ≡ src = ground arith in
          let first : inside dst (dst + suc n) a ≡ true = ground arith in
          let past : inside (dst + 1) (dst + 1 + n) a ≡ false = ground arith in
          rw (first, past, here, e) refl
      | inr e ↦ elim (Bool-cases (inside (dst + 1) (dst + 1 + n) a)) [
        | inl h ↦
            let there : src + 1 + (a - (dst + 1)) ≡ src + (a - dst) = ground arith in
            let other : (src + (a - dst) == dst) ≡ false = ground arith in
            let within : inside dst (dst + suc n) a ≡ true = ground arith in
            rw (h, within, there, other) refl
        | inr h ↦
            let outside : inside dst (dst + suc n) a ≡ false = ground arith in
            rw (h, outside, e) refl
      ]
    ]
  where
    next :
        (src + suc n ≤ dst) ⊎ (dst + suc n ≤ src)
        → (src + 1 + n ≤ dst + 1) ⊎ (dst + 1 + n ≤ src + 1)
    next (inl h) = inl (omega arith)
    next (inr h) = inr (omega arith)

memset_lem :
    (dst v n : ℕ) (m : Memory) (a : ℕ)
    → memset dst v n m a ≡ (if inside dst (dst + n) a then v else m a)
unfolding memset
memset_lem dst v zero m a = ground arith
memset_lem dst v (suc n) m a = memset_lem (dst + 1) v n (store dst v m) a ∙ ground arith

-- The layout that the linker script makes: the sections do not overlap, and neither does the image of
-- the data that is kept in flash.
pub record IsLayout (l : Layout) : Type 0 where
  pub data_order : l.data_start ≤ l.edata
  pub bss_order : l.bss_start ≤ l.bss_end
  pub sections : l.edata ≤ l.bss_start
  pub image : (l.etext + (l.edata - l.data_start) ≤ l.data_start) ⊎ (l.edata ≤ l.etext)

-- The memory as `main` finds it, at an address.
abbrev pub memory_at : (init : Memory → Memory) → Layout → Memory → ℕ → ℕ
memory_at init l m a =
    if inside l.data_start l.edata a
    then init m (l.etext + (a - l.data_start))
    else if inside l.bss_start l.bss_end a
    then 0
    else init m a

cleared :
    (init : Memory → Memory) (l : Layout) (m : Memory) (a : ℕ)
    → IsLayout l
    → memset l.bss_start 0
        (l.bss_end - l.bss_start)
        (memcpy l.data_start l.etext (l.edata - l.data_start) (init m))
        a
      ≡ memory_at init l m a
cleared init l m a h =
    let size : l.data_start + (l.edata - l.data_start) ≡ l.edata = omega (arith, h.data_order) in
    let bss : l.bss_start + (l.bss_end - l.bss_start) ≡ l.bss_end = omega (arith, h.bss_order) in
    memset_lem l.bss_start 0 (l.bss_end - l.bss_start) _ a
    ∙ rw
        (
          memcpy_lem l.data_start l.etext (l.edata - l.data_start) (init m) a (rw size h.image),
          size,
          bss,
        )
        (apart (omega (arith, h.sections)) _ _)
  where
    apart :
        l.edata ≤ l.bss_start
        → (x y : ℕ)
        → (if inside l.bss_start l.bss_end a
            then 0
            else if inside l.data_start l.edata a
            then x
            else y)
          ≡ (if inside l.data_start l.edata a
              then x
              else if inside l.bss_start l.bss_end a
              then 0
              else y)
    apart k x y = ground arith

-- `program_startup` calls `main` with interrupts masked, and at that time the data section holds its
-- image, the bss section zeros, and the memory is elsewhere as `SystemInit` has left it. Behind a
-- `main` that returns there is only the reset.
pub program_startup_lem :
    (init : Memory → Memory) (l : Layout) (c : Cpu)
    → IsLayout l
    → (c' : Cpu) × (at_main init (program_startup l) c ≡ some (c', Step.system_reset ∷ []))
      × (c'.masked ≡ true)
      × ((a : ℕ) → c'.memory a ≡ memory_at init l c.memory a)
unfolding program_startup at_main on_step
program_startup_lem init l c h = (_, refl, refl, λ a. cleared init l c.memory a h)
