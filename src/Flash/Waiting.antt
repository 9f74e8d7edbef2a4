-- ===== src/Flash/Waiting.antt =====
-- The blocking erase of src/dfu_flash.c: it returns, and stores nothing.
use cs7000p_bootloader.Base.{
  ℕ, ◌+◌, ◌*◌, ◌≤◌, ◌≡◌, inl, inr, refl, ap, ◌∙◌, Bool, true, false, some, arith, Bool-cases,
}
use cs7000p_bootloader.Bus.{Hardware, Bus}
use cs7000p_bootloader.Flash.{
  OpState, idle, erase_pending, erase_busy, write_pending, write_busy, FlashMasks, Flash,
  xfer_bufsize, op_complete, start_erase, process_erase_pending, process_erase_busy, process_in,
  process, erase_sector_async, erase_sector_blocking,
}
use cs7000p_bootloader.Flash.Image.{image}
use cs7000p_bootloader.Flash.Write.{image-update_cr2, image-op_complete}
use cs7000p_bootloader.Flash.Progress.{Timing}
use cs7000p_bootloader.Flash.Blocking.{wait_idle-total}

abbrev pub in_erase : OpState → Bool
in_erase write_pending = false
in_erase write_busy = false
in_erase _ = true

-- An erase that is requested, under way or over, since `f₀` was there: no byte has been stored, and
-- the data of the last write are as they were.
pub record IsErasing {Hw : Type 0} (f₀ f : Flash Hw) : Type 0 where
  pub erases : in_erase f.state ≡ true
  pub same_addr : f.addr ≡ f₀.addr
  pub same_buffer : f.buffer ≡ f₀.buffer
  pub same_len : f.len ≡ f₀.len
  pub same_offset : f.offset ≡ f₀.offset
  pub no_stores : image f.bus.log ≡ image f₀.bus.log

module _ (H : Hardware) (C : FlashMasks) where
  image-start_erase : (addr : ℕ) (b : Bus H.Hw) → image (start_erase H C addr b).log ≡ image b.log
  unfolding start_erase
  image-start_erase addr b = simp image-update_cr2 refl

  no_write : (b : Bool) → b ≡ false → b ≡ true → ⊥
  no_write b h k = cc

  moved :
      {f₀ f : Flash H.Hw}
      → IsErasing f₀ f
      → (s : OpState) (b : Bus H.Hw) → image b.log ≡ image f.bus.log
      → in_erase s ≡ true
      → IsErasing f₀ (record f { state = s; bus = b })
  moved e s b same h = record {
    erases = h;
    same_addr = e.same_addr;
    same_buffer = e.same_buffer;
    same_len = e.same_len;
    same_offset = e.same_offset;
    no_stores = same ∙ e.no_stores;
  }

  process_in-IsErasing :
      (s : OpState) (f₀ f : Flash H.Hw)
      → f.state ≡ s
      → IsErasing f₀ f
      → IsErasing f₀ (process_in H C s f)
  unfolding process_in process_erase_pending process_erase_busy
  process_in-IsErasing idle f₀ f st e = e
  process_in-IsErasing erase_pending f₀ f st e = elim (Bool-cases (op_complete H C f.bus).0) [
    | inl h ↦
        rw h (moved e erase_busy _ (image-start_erase f.addr _ ∙ image-op_complete H C f.bus) refl)
    | inr h ↦ rw h (moved e f.state _ (image-op_complete H C f.bus) e.erases)
  ]
  process_in-IsErasing erase_busy f₀ f st e = elim (Bool-cases (op_complete H C f.bus).0) [
    | inl h ↦ rw h (moved e idle _ (image-update_cr2 H C _ _ ∙ image-op_complete H C f.bus) refl)
    | inr h ↦ rw h (moved e f.state _ (image-op_complete H C f.bus) e.erases)
  ]
  process_in-IsErasing write_pending f₀ f st e = absurd (no_write _ (ap in_erase st) e.erases)
  process_in-IsErasing write_busy f₀ f st e = absurd (no_write _ (ap in_erase st) e.erases)

  pub process-IsErasing : (f₀ f : Flash H.Hw) → IsErasing f₀ f → IsErasing f₀ (process H C f)
  unfolding process
  process-IsErasing f₀ f e = process_in-IsErasing f.state f₀ f refl e

module _ (H : Hardware) (C : FlashMasks) {limit : ℕ} (T : Timing H C limit) where
  -- From the idle state, `flash_erase_sector_blocking` returns after at most `3 * (limit + 1)` calls
  -- of `flash_process`. The state is idle again, and no byte has been stored: the address is kept, as
  -- are the buffer, the length and the offset of the last write.
  pub erase_sector_blocking-ends :
      (addr fuel : ℕ) (f : Flash H.Hw)
      → f.state ≡ idle
      → f.offset ≤ f.len
      → f.len ≤ xfer_bufsize
      → 3 * (limit + 1) ≤ fuel
      → (g : Flash H.Hw) × (erase_sector_blocking H C fuel addr f ≡ some g)
        × (g.state ≡ idle)
        × IsErasing (record f { addr = addr }) g
  unfolding erase_sector_blocking
  erase_sector_blocking-ends addr fuel f st within fits enough = rw (accepts f st) (
      wait_idle-total H C T (IsErasing f₀) (process-IsErasing H C f₀)
        (λ g e. ground (arith, e.same_len, e.same_offset)) fuel f₁ started
        (inr (omega (arith, T.wait_limit f.bus.hw))) (omega arith))
    where
      accepts :
          (g : Flash H.Hw)
          → g.state ≡ idle
          → erase_sector_async H C addr g ≡ (true, record g { addr = addr; state = erase_pending })
      accepts g e = unfold erase_sector_async in rw e refl

      f₀ : Flash H.Hw
      f₀ = record f { addr = addr }

      f₁ : Flash H.Hw
      f₁ = record f { addr = addr; state = erase_pending }

      started : IsErasing f₀ f₁
      started = record {
        erases = refl;
        same_addr = refl;
        same_buffer = refl;
        same_len = refl;
        same_offset = refl;
        no_stores = refl;
      }
