-- ===== src/Flash/Started.antt =====
-- The start of a write in src/dfu_flash.c: what `flash_write_async` leaves behind.
use cs7000p_bootloader.Base.{
  ℕ, ◌≤◌, ◌≡◌, refl, ap, sym, Bool, true, false, not, Option, some, List, arith, Bool-cases, inl,
  inr, if◌then◌else◌, length,
}
use cs7000p_bootloader.Bus.{Hardware, emit, set_pin, gpioa}
use cs7000p_bootloader.Flash.{
  OpState, idle, write_pending, erase_pending, FlashMasks, Flash, is_idle, xfer_bufsize,
  write_async, erase_sector_async,
}
use cs7000p_bootloader.Flash.Image.{image, placed, IsBytes, image-emit}
use cs7000p_bootloader.Flash.Write.{IsWriting}
use cs7000p_bootloader.Flash.Buffer.{IsCopied}

module _ (H : Hardware) (C : FlashMasks) where
  -- `f₁` is `f` after `flash_write_async` has accepted the first `n` bytes of `src` for `addr`.
  pub record IsStarted (addr n : ℕ) (src : List ℕ) (f f₁ : Flash H.Hw) : Type 0 where
    pub accepts : write_async H C addr src n f ≡ some (true, f₁)
    pub pending : f₁.state ≡ write_pending
    pub same_len : f₁.len ≡ n
    pub bytes : IsBytes f₁.buffer
    pub size : length f₁.buffer ≡ length f.buffer
    pub image_of : placed f₁.buffer addr 0 n ≡ placed src addr 0 n
    pub writing : IsWriting (image f.bus.log) addr n f₁.buffer f₁

  pub write_async-IsStarted :
      (addr n : ℕ) (src : List ℕ) (f : Flash H.Hw)
      → f.state ≡ idle
      → n ≤ xfer_bufsize
      → IsBytes src
      → IsBytes f.buffer
      → IsCopied f.buffer src n
      → (f₁ : Flash H.Hw) × IsStarted addr n src f f₁
  unfolding write_async set_pin placed
  write_async-IsStarted addr n src f st fits bs bf c = (
    f₁,
    record {
      accepts = rw (st, c.copies) refl;
      pending = refl;
      same_len = refl;
      bytes = c.bytes bs bf;
      size = c.size;
      image_of = c.image_of addr;
      writing = record {
        writes = refl;
        same_addr = refl;
        same_len = refl;
        same_buffer = refl;
        fits = fits;
        within = omega arith;
        complete = λ e. cc;
        so_far = image-emit H (set_pin gpioa 0) f.bus;
      };
    },
  )
    where
      f₁ : Flash H.Hw
      f₁ = record {
        state = write_pending;
        addr = addr;
        buffer = c.out;
        len = n;
        offset = 0;
        bus = emit H (set_pin gpioa 0) f.bus;
      }

  accepted_inversion :
      (b : Bool) (f g f₁ : Flash H.Hw)
      → ◌≡◌ {A = Bool × Flash H.Hw} (if not b then (false, f) else (true, g)) (true, f₁)
      → (b ≡ true) × (f₁ ≡ g)
  accepted_inversion true f g f₁ h = (refl, ap (λ t. t.1) (sym h))
  accepted_inversion false f g f₁ h = cc

  idle_of : (s : OpState) → is_idle s ≡ true → s ≡ idle
  idle_of s e = ground arith

  -- An erase that is accepted was requested in the idle state.
  pub erase_accepted :
      (addr : ℕ) (f f₁ : Flash H.Hw)
      → erase_sector_async H C addr f ≡ (true, f₁)
      → (f.state ≡ idle) × (f₁ ≡ record f { addr = addr; state = erase_pending })
  unfolding erase_sector_async
  erase_accepted addr f f₁ h =
      let (e, same) = accepted_inversion (is_idle f.state) f _ f₁ h in (idle_of f.state e, same)

  -- So was a write.
  pub write_accepted :
      (addr n : ℕ) (src : List ℕ) (f f₁ : Flash H.Hw)
      → write_async H C addr src n f ≡ some (true, f₁)
      → f.state ≡ idle
  unfolding write_async
  write_accepted addr n src f f₁ h = elim (Bool-cases (is_idle f.state)) [
    | inl e ↦ ground arith
    | inr e ↦ absurd (refused (is_idle f.state) e _ h)
  ]
    where
      refused :
          (b : Bool)
          → b ≡ false
          → (o : Option (Bool × Flash H.Hw))
          → (if not b then some (false, f) else o) ≡ some (true, f₁)
          → ⊥
      refused true e o k = cc
      refused false e o k = cc
