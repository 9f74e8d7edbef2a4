-- ===== src/Flash/Blocking.antt =====
-- The blocking functions of src/dfu_flash.c, and the asynchronous ones followed by calls of
-- `flash_process` until the state is idle: what they have done when they end, and that they do.
use mathlib.Core.Option
use cs7000p_bootloader.Base.{
  ℕ, zero, suc, ◌+◌, ◌*◌, ◌≤◌, ◌<◌, ◌≡◌, ◌⊎◌, inl, inr, refl, ap, ◌∙◌, true, false, some, List,
  ◌++◌, arith, Bool-cases, length,
}
use cs7000p_bootloader.Bus.{Hardware}
use cs7000p_bootloader.Flash.{
  OpState, idle, FlashMasks, Flash, is_idle, xfer_bufsize, process, is_busy, wait_idle,
  write_blocking,
}
use cs7000p_bootloader.Flash.Image.{image, placed, IsBytes}
use cs7000p_bootloader.Flash.Write.{IsWriting, process-IsWriting}
use cs7000p_bootloader.Flash.Progress.{Timing, rounds, calls, process-IsNearer}
use cs7000p_bootloader.Flash.Started.{IsStarted, write_async-IsStarted}
use cs7000p_bootloader.Flash.Buffer.{memcpy-IsCopied}

module _ (H : Hardware) (C : FlashMasks) {limit : ℕ} (T : Timing H C limit) where
  pub idle_of : (s : OpState) → is_idle s ≡ true → s ≡ idle
  idle_of s e = ground arith

  calls-pos : (f : Flash H.Hw) → is_idle f.state ≡ false → 0 < calls H C T f
  calls-pos f e = grind (arith, stage-pos)
    where
      stage-pos : 0 < rounds H C T f
      stage-pos = ground arith

  -- The loop ends in the idle state, with what each call keeps.
  module _ (P : Flash H.Hw → Type 0) (keep : (f : Flash H.Hw) → P f → P (process H C f))
      (bounds : (f : Flash H.Hw) → P f → (f.offset ≤ f.len) × (f.len ≤ xfer_bufsize)) where
    pub wait_idle-total :
        (fuel : ℕ) (f : Flash H.Hw)
        → P f
        → (f.state ≡ idle) ⊎ (calls H C T f < fuel)
        → 0 < fuel
        → (g : Flash H.Hw) × (wait_idle H C fuel f ≡ some g) × (g.state ≡ idle) × P g
    unfolding wait_idle is_busy
    wait_idle-total zero f p h pos = absurd (omega arith)
    wait_idle-total (suc fuel) f p h pos = elim (Bool-cases (is_idle f.state)) [
      | inl e ↦ (f, rw e refl, idle_of f.state e, p)
      | inr e ↦ rw e (
          wait_idle-total fuel (process H C f) (keep f p) (next e)
            (omega (arith, calls-pos f e, enough e)))
    ]
      where
        enough : is_idle f.state ≡ false → calls H C T f < suc fuel
        enough e = ground (arith, h)

        next :
            is_idle f.state ≡ false
            → ((process H C f).state ≡ idle) ⊎ (calls H C T (process H C f) < fuel)
        next e = elim (process-IsNearer H C T f (bounds f p).0 (bounds f p).1) [
          | inl i ↦ inl i
          | inr c ↦ inr (omega (arith, enough e))
        ]

  calls_of_started :
      {addr n : ℕ} {src : List ℕ} {f : Flash H.Hw} (f₁ : Flash H.Hw)
      → IsStarted H C addr n src f f₁
      → calls H C T f₁ < (3 * n + 5) * (limit + 1)
  calls_of_started {n = n} f₁ s =
      let e : rounds H C T f₁ ≡ 3 * n + 4 = ground (arith, s.pending, s.same_len) in
      omega (arith, ap (λ (t : ℕ). t * (limit + 1)) e, T.wait_limit f₁.bus.hw)

  pub started-stores :
      (addr n fuel : ℕ) (src : List ℕ) (f f₁ : Flash H.Hw)
      → IsStarted H C addr n src f f₁
      → (3 * n + 5) * (limit + 1) ≤ fuel
      → (g : Flash H.Hw) × (wait_idle H C fuel f₁ ≡ some g)
        × (g.state ≡ idle)
        × (image g.bus.log ≡ image f.bus.log ++ placed src addr 0 n)
        × (g.buffer ≡ f₁.buffer)
  started-stores addr n fuel src f f₁ s fuel_enough =
      let before = image f.bus.log in
      let (g, returns, ended, w) =
        wait_idle-total (IsWriting before addr n f₁.buffer)
          (process-IsWriting H C before addr n f₁.buffer s.bytes) (λ h v. ground arith) fuel f₁
          s.writing (inr (omega (arith, calls_of_started f₁ s)))
          (omega (arith, calls_of_started f₁ s)) in
      (
        g,
        returns,
        ended,
        w.so_far ∙ ap (λ l. before ++ l) (all_placed g.offset (w.complete ended)),
        w.same_buffer,
      )
    where
      all_placed : (k : ℕ) → k ≡ n → placed f₁.buffer addr 0 k ≡ placed src addr 0 n
      all_placed k e = rw e s.image_of

  -- From the idle state, with `n` bytes that fit the internal buffer, `flash_write_blocking` returns
  -- after at most `(3 * n + 5) * (limit + 1)` calls of `flash_process`. The state is idle again, and
  -- the accesses have stored the `n` bytes of the data, each once, in order, from `addr` on, and
  -- nothing else.
  pub write_blocking-stores :
      (addr n fuel : ℕ) (src : List ℕ) (f : Flash H.Hw)
      → f.state ≡ idle
      → length f.buffer ≡ xfer_bufsize
      → n ≤ xfer_bufsize
      → n ≤ length src
      → IsBytes src
      → IsBytes f.buffer
      → (3 * n + 5) * (limit + 1) ≤ fuel
      → (g : Flash H.Hw) × (write_blocking H C fuel addr src n f ≡ some g)
        × (g.state ≡ idle)
        × (image g.bus.log ≡ image f.bus.log ++ placed src addr 0 n)
  unfolding write_blocking Option.bind
  write_blocking-stores addr n fuel src f st size fits enough bs bf fuel_enough =
      let copied = memcpy-IsCopied f.buffer src n (omega arith) enough in
      let (f₁, s) = write_async-IsStarted H C addr n src f st fits bs bf copied in
      let (g, returns, ended, stored, kept) = started-stores addr n fuel src f f₁ s fuel_enough in
      (g, rw s.accepts returns, ended, stored)
