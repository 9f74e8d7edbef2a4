-- ===== src/Startup/Vectors/Dispatch.antt =====
-- What the chip does on each exception of the core and each interrupt.
use cs7000p_bootloader.Base.{
  ℕ, zero, suc, ◌+◌, ◌<◌, ◌≡◌, refl, sym, ap, ◌∙◌, Bool, false, ◌||◌, Option, some, none, List, [],
  ◌∷◌, ◌==◌, if◌then◌else◌, length, get_or, arith,
}
use cs7000p_bootloader.Startup.Vectors.{
  Routine, definition, weak_alias, Entry, estack, reserved, handled, vector_table,
}

-- What the chip finds behind an entry: the initial stack pointer, a routine, or no address.
pub data Response : Type 0 where
  stack_pointer nowhere : Response
  runs : Routine → Response

abbrev linked : Option Routine → Option Routine → Response
linked (some r) _ = runs r
linked none (some r) = runs r
linked none none = nowhere

-- A definition takes the place of the weak alias.
unfoldable pub respond : Entry → Response
unfolding definition weak_alias
respond estack = stack_pointer
respond reserved = nowhere
respond (handled h) = linked (definition h) (weak_alias h)

abbrev member : ℕ → List ℕ → Bool
member n [] = false
member n (k ∷ ks) = (n == k) || member n ks

-- The numbers that the core and the chip reserve.
abbrev pub reserved_numbers : List ℕ
reserved_numbers =
    7 ∷ 8 ∷ 9 ∷ 10 ∷ 13 ∷ 58 ∷ 80 ∷ 81 ∷ 82 ∷ 83 ∷ 95 ∷ 139 ∷ 142 ∷ 159 ∷ 163 ∷ 164 ∷ []

-- What is meant to happen: 1 is a reset, 15 the timer, 117 the USB interrupt.
abbrev pub intended : ℕ → Response
intended n =
    if n == 0
    then stack_pointer
    else if n == 1
    then runs Routine.program_startup
    else if n == 15
    then runs Routine.sys_tick_handler
    else if n == 117
    then runs Routine.otg_fs_irq_handler
    else if member n reserved_numbers
    then nowhere
    else runs Routine.default_handler

abbrev responses : List Entry → List Response
responses [] = []
responses (e ∷ es) = respond e ∷ responses es

abbrev intentions : (k n : ℕ) → List Response
intentions k zero = []
intentions k (suc n) = intended k ∷ intentions (k + 1) n

get_or-responses :
    (es : List Entry) (n : ℕ)
    → n < length es
    → get_or (responses es) n nowhere ≡ respond (get_or es n reserved)
get_or-responses [] n h = absurd (omega arith)
get_or-responses (e ∷ es) zero h = refl
get_or-responses (e ∷ es) (suc n) h = get_or-responses es n (omega arith)

get_or-intentions : (k n i : ℕ) → i < n → get_or (intentions k n) i nowhere ≡ intended (k + i)
get_or-intentions k zero i h = absurd (omega arith)
get_or-intentions k (suc n) zero h = let here : k + 0 ≡ k = omega arith in rw here refl
get_or-intentions k (suc n) (suc i) h =
    let there : k + suc i ≡ k + 1 + i = omega arith in
    rw there (get_or-intentions (k + 1) n i (omega arith))

table_intended : responses vector_table ≡ intentions 0 166
unfolding respond definition weak_alias
table_intended = refl

-- Every entry of the table is linked to what its number asks for: only the timer and the USB
-- interrupt have a routine of their own, any other exception that is not reserved resets the
-- chip, and the table ends behind number 165.
pub respond-vector_table : (n : ℕ) → n < 166 → respond (get_or vector_table n reserved) ≡ intended n
respond-vector_table n small =
    let start : 0 + n ≡ n = omega arith in
    sym (get_or-responses vector_table n small)
    ∙ ap (λ l. get_or l n nowhere) table_intended
    ∙ (rw start at (get_or-intentions 0 166 n small))
