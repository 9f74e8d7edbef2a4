-- ===== src/Chip/Laws.antt =====
-- The chip as the reference manual describes it, and that it follows the bits of Chip.Shadow.
use mathlib.Core.Option
use cs7000p_bootloader.Base.{
  ℕ, zero, suc, ◌^◌, ◌≤◌, ◌<◌, ◌≡◌, refl, ◌∙◌, Bool, true, false, some, List, [], ◌∷◌, bit_and,
  bit_or, ◌==◌, if◌then◌else◌, bit, bit-bit_or, bit-clear, not32, Bool-cases, inl, inr, arith,
}
use cs7000p_bootloader.Chip.{Reg, Wait, Op, Chip, FlagMasks, flag_reg, is_done, await, step, run}
use cs7000p_bootloader.Chip.Shadow.{
  Bits, index, volatile, locked, powered, needs, written, shadow_step, shadow, sound_step, sound,
  same_index,
}

-- The bits of the registers of a chip.
abbrev pub bits_of : (K : Chip) → K.Hw → Bits
bits_of K h r i = bit (K.read r h) i

-- Registers are words. A read changes no bit that is the program's; a write changes those of its register
-- that are not locked, if it is there. A flag whose needs are met comes within `limit` reads.
pub record IsChip (K : Chip) (F : FlagMasks) (limit : ℕ) : Type 0 where
  pub word : (r : Reg) (h : K.Hw) → K.read r h < 2 ^ 32
  pub elapse_kept :
      (r : Reg) (i : ℕ) (h : K.Hw)
      → volatile r i ≡ false
      → bits_of K (K.elapse h) r i ≡ bits_of K h r i
  pub write_bits :
      (r r' : Reg) (v i : ℕ) (h : K.Hw)
      → powered r (bits_of K h) ≡ true
      → volatile r' i ≡ false
      → bits_of K (K.write r v h) r' i ≡ written r (bit v) (bits_of K h) r' i
  pub left : Wait → K.Hw → ℕ
  pub left_limit : (w : Wait) (h : K.Hw) → left w h ≤ limit
  pub left_less :
      (w : Wait) (h : K.Hw)
      → needs w (bits_of K h) ≡ true
      → is_done K F w (K.read (flag_reg K F w) h) ≡ false
      → left w (K.elapse h) < left w h

module _ (K : Chip) (F : FlagMasks) {limit : ℕ} (L : IsChip K F limit) where
  open K use {Hw, read, elapse, write}

  -- The program's bits are those of the shadow.
  abbrev pub Follows : Bits → Hw → Type 0
  Follows f h = (r : Reg) (i : ℕ) → volatile r i ≡ false → bits_of K h r i ≡ f r i

  elapse-Follows : (f : Bits) (h : Hw) → Follows f h → Follows f (elapse h)
  elapse-Follows f h a r i v = L.elapse_kept r i h v ∙ a r i v

  locked_same :
      (f : Bits) (h : Hw)
      → Follows f h
      → (r : Reg) (i : ℕ) → locked (bits_of K h) r i ≡ locked f r i
  locked_same f h a r i = rw (a Reg.rcc_cr 24 refl, a Reg.rcc_cr 26 refl, a Reg.rcc_cr 28 refl) refl

  needs_same : (f : Bits) (h : Hw) → Follows f h → (w : Wait) → needs w (bits_of K h) ≡ needs w f
  needs_same f h a Wait.dbp_set = a Reg.pwr_cr1 8 refl
  needs_same f h a Wait.vos_ready = refl
  needs_same f h a Wait.hse_ready = a Reg.rcc_cr 16 refl
  needs_same f h a Wait.pll1_ready =
      rw (a Reg.rcc_cr 24 refl, a Reg.rcc_cr 16 refl, a Reg.rcc_pllckselr 1 refl) refl
  needs_same f h a Wait.pll1_selected =
      rw (a Reg.rcc_cfgr 0 refl, a Reg.rcc_cfgr 1 refl, a Reg.rcc_cfgr 2 refl) refl
  needs_same f h a Wait.pll3_ready =
      rw (a Reg.rcc_cr 28 refl, a Reg.rcc_cr 16 refl, a Reg.rcc_pllckselr 1 refl) refl
  needs_same f h a Wait.usb33_ready = a Reg.pwr_cr3 24 refl

  powered_same :
      (f : Bits) (h : Hw) → Follows f h → (r : Reg) → powered r (bits_of K h) ≡ powered r f
  powered_same f h a Reg.otg_gotgctl = a Reg.rcc_ahb1enr 27 refl
  powered_same f h a Reg.otg_gusbcfg = a Reg.rcc_ahb1enr 27 refl
  powered_same f h a _ = refl

  write-Follows :
      (f : Bits) (h : Hw) (r : Reg) (v : ℕ) (g : ℕ → Bool)
      → powered r f ≡ true
      → Follows f h
      → ((i : ℕ) → volatile r i ≡ false → bit v i ≡ g i)
      → Follows (written r g f) (write r v h)
  write-Follows f h r v g on a e r' i p =
      L.write_bits r r' v i h (powered_same f h a r ∙ on) p
      ∙ rw (locked_same f h a r' i, a r' i p)
          (elim (Bool-cases (index r' == index r)) [
            | inl s ↦
                let kept : volatile r i ≡ false = rw (← same_index r r' s) p in
                rw (s, e i kept) refl
            | inr s ↦ rw s refl
          ])

  -- Waiting for a flag whose needs are met comes to an end, and changes nothing.
  await-Follows :
      (f : Bits) (w : Wait) (fuel : ℕ) (h : Hw)
      → needs w f ≡ true
      → Follows f h
      → L.left w h < fuel
      → (h' : Hw) × (await K F w fuel h ≡ some h') × Follows f h'
  unfolding await
  await-Follows f w zero h n a enough = absurd (omega arith)
  await-Follows f w (suc fuel) h n a enough =
      elim (Bool-cases (is_done K F w (read (flag_reg K F w) h))) [
        | inl done ↦ (elapse h, rw done refl, elapse-Follows f h a)
        | inr more ↦
            let less = L.left_less w h (needs_same f h a w ∙ n) more in
            rw more (
              await-Follows f w fuel (elapse h) n (elapse-Follows f h a)
                (omega (arith, less, enough)))
      ]

  -- The three ways to change a register give the bits of the shadow.
  cleared :
      (f : Bits) (h : Hw) (r : Reg) (mask i : ℕ)
      → mask < 2 ^ 32
      → bits_of K h r i ≡ f r i
      → bit (bit_and (read r h) (not32 mask)) i ≡ (if bit mask i then false else f r i)
  cleared f h r mask i small e =
      bit-clear (read r h) mask i (L.word r h) small ∙ rw e (ground arith)

  pub step-Follows :
      (f : Bits) (h : Hw) (fuel : ℕ) (op : Op)
      → limit < fuel
      → sound_step op f ≡ true
      → Follows f h
      → (h' : Hw) × (step K F fuel op h ≡ some h') × Follows (shadow_step op f) h'
  unfolding step
  step-Follows f h fuel (Op.clear r mask) enough ok a = (
    _,
    refl,
    write-Follows f (elapse h) r (bit_and (read r h) (not32 mask)) _ (ground arith)
        (elapse-Follows f h a) (λ i p. cleared f h r mask i (ground arith) (a r i p)),
  )
  step-Follows f h fuel (Op.set_bits r value) enough ok a = (
    _,
    refl,
    write-Follows f (elapse h) r (bit_or (read r h) value) _ ok (elapse-Follows f h a)
        (λ i p. bit-bit_or i (read r h) value ∙ rw (a r i p) (ground arith)),
  )
  step-Follows f h fuel (Op.replace r mask value) enough ok a = (
    _,
    refl,
    write-Follows f (elapse h) r (bit_or (bit_and (read r h) (not32 mask)) value) _ (ground arith)
        (elapse-Follows f h a)
        (λ i p.
          bit-bit_or i (bit_and (read r h) (not32 mask)) value
          ∙ rw (cleared f h r mask i (ground arith) (a r i p)) (ground arith)),
  )
  step-Follows f h fuel (Op.put r value) enough ok a =
      (_, refl, write-Follows f h r value _ ok a (λ i p. refl))
  step-Follows f h fuel (Op.wait w) enough ok a =
      await-Follows f w fuel h ok a (omega (arith, L.left_limit w h))
  step-Follows f h fuel Op.dsb enough ok a = (h, refl, a)

  -- A row of statements whose loops each wait for something that comes is run to its end, and leaves the
  -- program's bits as the shadow has them.
  pub run-Follows :
      (fuel : ℕ) (ops : List Op) (f : Bits) (h : Hw)
      → limit < fuel
      → sound ops f ≡ true
      → Follows f h
      → (h' : Hw) × (run K F fuel ops h ≡ some h') × Follows (shadow ops f) h'
  unfolding run Option.bind
  run-Follows fuel [] f h enough ok a = (h, refl, a)
  run-Follows fuel (op ∷ ops) f h enough ok a =
      let (h₁, e, a₁) = step-Follows f h fuel op enough (ground arith) a in
      let (h₂, e₂, a₂) = run-Follows fuel ops (shadow_step op f) h₁ enough (ground arith) a₁ in
      (h₂, rw e e₂, a₂)
