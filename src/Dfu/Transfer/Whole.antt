-- ===== src/Dfu/Transfer/Whole.antt =====
-- The download of an image, from a quiet device to a quiet device.
use mathlib.Core.Option
use cs7000p_bootloader.Base.{
  ℕ, zero, suc, ◌+◌, ◌-◌, ◌*◌, ◌^◌, ◌≤◌, ◌<◌, ◌≡◌, ◌≢◌, refl, ap, sym, ◌∙◌, true, some, List, [],
  ◌∷◌, ◌++◌, arith, length, take, drop, u16, u32, min, ◌==◌, append_assoc, append-nil, length-take,
  length-drop,
}
use native.Mathlib.Nat.{mul-le-mul_right}
use cs7000p_bootloader.Bus.{Hardware}
use cs7000p_bootloader.Flash.{FlashMasks, OpState, xfer_bufsize}
use cs7000p_bootloader.Flash.Image.{image, placed, IsBytes}
use cs7000p_bootloader.Flash.Progress.{Timing}
use cs7000p_bootloader.Dfu.{
  idle, DfuCodes, Response, Dfuse, respond, set_poll_timeout, no_callbacks,
}
use cs7000p_bootloader.Dfu.Download.{IsDownloaded, download-IsDownloaded}
use cs7000p_bootloader.Dfu.Transfer.{expect, block_of, send_block, send_image}
use cs7000p_bootloader.Dfu.Transfer.Slices.{take-IsBytes, drop-IsBytes, placed-u32, placed-slices}

-- Nothing is under way, and there is a base address.
pub record IsQuiet {Hw : Type 0} (d : Dfuse Hw) : Type 0 where
  pub have_addr : d.have_addr ≡ true
  pub op : d.op ≡ idle
  pub rests : d.flash.state ≡ OpState.idle
  pub size : length d.flash.buffer ≡ xfer_bufsize
  pub bytes : IsBytes d.flash.buffer

-- `d'` is `d` after the `n` bytes of `bytes` have been stored from `addr` on, and nothing else.
pub record IsSent {Hw : Type 0} (addr n : ℕ) (bytes : List ℕ) (d d' : Dfuse Hw) : Type 0 where
  pub stored : image d'.flash.bus.log ≡ image d.flash.bus.log ++ placed bytes addr 0 n
  pub same_base : d'.base_addr ≡ d.base_addr
  pub quiet : IsQuiet d'

module _ (H : Hardware) (C : FlashMasks) (U : DfuCodes) where
  open U use {dnload_sync, dnbusy, dnload_idle, ok}

  expect-respond :
      (state ms : ℕ) (r : Response) (d : Dfuse H.Hw)
      → expect H C U state (record {
        handled = true;
        resp = respond ok state ms r;
        ctl = no_callbacks H C U;
        dfu = d;
      })
        ≡ some d
  unfolding expect respond set_poll_timeout
  expect-respond state ms r d =
      let first : (ok == ok) ≡ true = ground arith in
      let second : (state == state) ≡ true = ground arith in rw (first, second) refl

  send_block-answered :
      (fuel k : ℕ) (bytes : List ℕ) (r : Response) (d : Dfuse H.Hw)
      → (q : IsDownloaded H C U fuel (block_of H C U dnload_sync k bytes) r r d)
      → send_block H C U fuel k bytes r d
        ≡ some (record d {
          op = idle;
          current_addr = u32 (d.base_addr + (u16 (2 + k) - 2) * xfer_bufsize);
          flash = q.g;
        })
  unfolding send_block Option.bind
  send_block-answered fuel k bytes r d q =
      let sent : Dfuse H.Hw = record d {
        op = idle;
        current_addr = u32 (d.base_addr + (u16 (2 + k) - 2) * xfer_bufsize);
        flash = q.g;
      } in
      rw
        (
          q.first,
          expect-respond dnbusy 3 r q.busy,
          q.rests,
          q.last,
          expect-respond dnload_idle 0 r sent,
        )
        refl

  module _ {limit : ℕ} (T : Timing H C limit) (ne : dnload_sync ≢ dnbusy) where
    -- One block.
    send_block-IsSent :
        (fuel k : ℕ) (x : ℕ) (xs : List ℕ) (r : Response) (d : Dfuse H.Hw)
        → IsQuiet d
        → IsBytes (x ∷ xs)
        → 2 + k < 2 ^ 16
        → (3 * xfer_bufsize + 5) * (limit + 1) ≤ fuel
        → let n = min xfer_bufsize (length (x ∷ xs)) in
          (d' : Dfuse H.Hw) × (send_block H C U fuel k (x ∷ xs) r d ≡ some d')
          × IsSent (d.base_addr + k * xfer_bufsize) n (take xfer_bufsize (x ∷ xs)) d d'
    send_block-IsSent fuel k x xs r d v bytes small enough =
        let bytes' = take xfer_bufsize (x ∷ xs) in
        let n = min xfer_bufsize (length (x ∷ xs)) in
        let number : u16 (2 + k) ≡ 2 + k = omega arith in
        let held : n ≤ length bytes' = omega (arith, length-take xfer_bufsize (x ∷ xs)) in
        let some_bytes : 0 < n = omega arith in
        let few : 3 * n + 5 ≤ 3 * xfer_bufsize + 5 = omega arith in
        let q =
          download-IsDownloaded H C U T fuel (block_of H C U dnload_sync k (x ∷ xs)) r r d ne
            (omega (arith, number)) some_bytes (omega arith) held
            (take-IsBytes xfer_bufsize (x ∷ xs) bytes) refl v.have_addr v.op v.rests v.size v.bytes
            (omega (arith, mul-le-mul_right (limit + 1) few)) in
        let place : d.base_addr + (u16 (2 + k) - 2) * xfer_bufsize
            ≡ d.base_addr + k * xfer_bufsize =
          omega (arith, number) in
        (
          _,
          send_block-answered fuel k (x ∷ xs) r d q,
          record {
            stored =
                q.stored
                ∙ ap (λ (l : List (ℕ × ℕ)). image d.flash.bus.log ++ l)
                    (placed-u32 bytes' (d.base_addr + (u16 (2 + k) - 2) * xfer_bufsize) n
                      ∙ ap (λ a. placed bytes' a 0 n) place);
            same_base = refl;
            quiet = record {
              have_addr = v.have_addr;
              op = refl;
              rests = q.idle_again;
              size = q.size;
              bytes = q.bytes;
            };
          },
        )

    -- The blocks from number `2 + k` on.
    send_image-IsSent :
        (fuel k n : ℕ) (bytes : List ℕ) (r : Response) (d : Dfuse H.Hw)
        → IsQuiet d
        → IsBytes bytes
        → 2 + k + n ≤ 2 ^ 16
        → length bytes ≤ n * xfer_bufsize
        → (3 * xfer_bufsize + 5) * (limit + 1) ≤ fuel
        → (d' : Dfuse H.Hw) × (send_image H C U fuel k bytes r n d ≡ some d')
          × IsSent (d.base_addr + k * xfer_bufsize) (length bytes) bytes d d'
    unfolding send_image Option.bind placed
    send_image-IsSent fuel k n [] r d v b small fits enough = (
      d,
      refl,
      record { stored = sym (append-nil (image d.flash.bus.log)); same_base = refl; quiet = v },
    )
    send_image-IsSent fuel k zero (x ∷ xs) r d v b small fits enough = absurd (omega arith)
    send_image-IsSent fuel k (suc n) (x ∷ xs) r d v b small fits enough =
        let bytes = x ∷ xs in
        let rest = drop xfer_bufsize bytes in
        let (d₁, ran₁, s₁) = send_block-IsSent fuel k x xs r d v b (omega arith) enough in
        let (d₂, ran₂, s₂) =
          send_image-IsSent fuel (k + 1) n rest r d₁ s₁.quiet (drop-IsBytes xfer_bufsize bytes b)
            (omega arith) (omega (arith, length-drop xfer_bufsize bytes)) enough in
        let next : u32 (d₁.base_addr + (k + 1) * xfer_bufsize)
            ≡ u32 (d.base_addr + k * xfer_bufsize + xfer_bufsize) =
          omega (arith, s₁.same_base) in
        (
          d₂,
          rw ran₁ ran₂,
          record {
            stored =
                s₂.stored
                ∙ ap
                    (λ (l : List (ℕ × ℕ)).
                      l ++ placed rest (d₁.base_addr + (k + 1) * xfer_bufsize) 0 (length rest))
                    s₁.stored
                ∙ append_assoc (image d.flash.bus.log) _ _
                ∙ ap (λ (l : List (ℕ × ℕ)). image d.flash.bus.log ++ l)
                    (placed-slices xfer_bufsize bytes (d.base_addr + k * xfer_bufsize)
                      (d₁.base_addr + (k + 1) * xfer_bufsize) next);
            same_base = s₂.same_base ∙ s₁.same_base;
            quiet = s₂.quiet;
          },
        )

    -- A whole image from a quiet device: blocks 2, 3 and so on.
    pub send_image-whole :
        (fuel n : ℕ) (bytes : List ℕ) (r : Response) (d : Dfuse H.Hw)
        → IsQuiet d
        → IsBytes bytes
        → 2 + n ≤ 2 ^ 16
        → length bytes ≤ n * xfer_bufsize
        → (3 * xfer_bufsize + 5) * (limit + 1) ≤ fuel
        → (d' : Dfuse H.Hw) × (send_image H C U fuel 0 bytes r n d ≡ some d')
          × IsSent d.base_addr (length bytes) bytes d d'
    send_image-whole fuel n bytes r d v b small fits enough =
        let (d', ran, s) = send_image-IsSent fuel 0 n bytes r d v b small fits enough in
        let start : d.base_addr + 0 * xfer_bufsize ≡ d.base_addr = omega arith in
        (
          d',
          ran,
          record {
            stored =
                s.stored ∙ ap (λ a. image d.flash.bus.log ++ placed bytes a 0 (length bytes)) start;
            same_base = s.same_base;
            quiet = s.quiet;
          },
        )
