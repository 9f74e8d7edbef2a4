-- ===== src/Flash/Write.antt =====
-- A write operation of src/dfu_flash.c: which bytes it has stored after each call of
-- `flash_process`.
use cs7000p_bootloader.Base.{
  ℕ, ◌+◌, ◌-◌, min, ◌≤◌, ◌<◌, ◌≡◌, inl, inr, refl, ap, ◌∙◌, Bool, true, false, List, ◌++◌, arith,
  append_assoc, append-nil, ltb, leb, Bool-cases, any_set,
}
use cs7000p_bootloader.Bus.{isb, dsb, Hardware, Bus, read, emit, update_cr2, update_ccr2, clear_pin}
use cs7000p_bootloader.Flash.{
  OpState, idle, erase_pending, erase_busy, write_pending, write_busy, FlashMasks, Flash,
  xfer_bufsize, clear_eop, op_complete, enable_programming, write_chunk, finish_write,
  process_write_busy, process_write_pending, process_in, process,
}
use cs7000p_bootloader.Flash.Image.{
  image, placed, IsBytes, placed-append, image-emit, image-emit_all, image-byte_stores,
  image-word_stores,
}

abbrev pub in_write : OpState → Bool
in_write erase_pending = false
in_write erase_busy = false
in_write _ = true

-- A write operation of `n` bytes at `addr` under way or ended, before which the accesses had stored
-- `before`: since then exactly the first `offset` bytes have been stored, and all of them at the end.
pub record IsWriting {Hw : Type 0} (before : List (ℕ × ℕ)) (addr n : ℕ) (buf : List ℕ)
    (f : Flash Hw) : Type 0 where
  pub writes : in_write f.state ≡ true
  pub same_addr : f.addr ≡ addr
  pub same_len : f.len ≡ n
  pub same_buffer : f.buffer ≡ buf
  pub fits : n ≤ xfer_bufsize
  pub within : f.offset ≤ n
  pub complete : f.state ≡ idle → f.offset ≡ n
  pub so_far : image f.bus.log ≡ before ++ placed buf addr 0 f.offset

module _ (H : Hardware) (C : FlashMasks) where
  pub image-update_cr2 : (g : ℕ → ℕ) (b : Bus H.Hw) → image (update_cr2 H g b).log ≡ image b.log
  unfolding update_cr2 read
  image-update_cr2 g b = rw (image-emit, append-nil)

  image-update_ccr2 : (g : ℕ → ℕ) (b : Bus H.Hw) → image (update_ccr2 H g b).log ≡ image b.log
  unfolding update_ccr2 read
  image-update_ccr2 g b = rw (image-emit, append-nil)

  pub image-op_complete : (b : Bus H.Hw) → image (op_complete H C b).1.log ≡ image b.log
  unfolding op_complete clear_eop read
  image-op_complete b = grind (arith, image-update_ccr2)

  image-enable_programming : (b : Bus H.Hw) → image (enable_programming H C b).log ≡ image b.log
  unfolding enable_programming
  image-enable_programming b = simp (image-emit, image-update_cr2, append-nil)

  image-barriers : (b : Bus H.Hw) → image (emit H dsb (emit H isb b)).log ≡ image b.log
  image-barriers b = simp (image-emit, append-nil)

  -- The bytes of the next chunk.
  abbrev pub chunk_size : Flash H.Hw → ℕ
  chunk_size f = min 32 (f.len - f.offset)

  pub write_chunk-offset :
      (f : Flash H.Hw)
      → f.offset < f.len
      → f.len ≤ xfer_bufsize
      → (write_chunk H C f).offset ≡ f.offset + chunk_size f
  unfolding write_chunk
  write_chunk-offset f more fits = elim (Bool-cases (leb 32 (f.len - f.offset))) [
    | inl e ↦ rw e (ground arith)
    | inr e ↦ rw e (ground arith)
  ]

  write_chunk-image :
      (f : Flash H.Hw)
      → IsBytes f.buffer
      → image (write_chunk H C f).bus.log
        ≡ image f.bus.log ++ placed f.buffer f.addr f.offset (chunk_size f)
  unfolding write_chunk
  write_chunk-image f bytes = elim (Bool-cases (leb 32 (f.len - f.offset))) [
    | inl e ↦
        rw (e, image-barriers, image-emit_all, image-word_stores f.buffer f.addr f.offset 0 8 bytes)
          (ground arith)
    | inr e ↦
        rw
          (
            e,
            image-barriers,
            image-emit_all,
            image-byte_stores f.buffer f.addr f.offset 0 (f.len - f.offset),
          )
          (ground arith)
  ]

  pub write_chunk-keeps :
      (f : Flash H.Hw)
      → let f' = write_chunk H C f in
        (f'.state ≡ f.state) × (f'.addr ≡ f.addr) × (f'.len ≡ f.len) × (f'.buffer ≡ f.buffer)
  unfolding write_chunk
  write_chunk-keeps f = elim (Bool-cases (leb 32 (f.len - f.offset))) [
    | inl e ↦ rw e (refl, refl, refl, refl)
    | inr e ↦ rw e (refl, refl, refl, refl)
  ]

  module _ (before : List (ℕ × ℕ)) (addr n : ℕ) (buf : List ℕ) (bytes : IsBytes buf) where
    abbrev Writing : Flash H.Hw → Type 0
    Writing = IsWriting before addr n buf

    write_chunk-IsWriting :
        (f : Flash H.Hw)
        → Writing f
        → f.state ≡ write_busy
        → f.offset < f.len
        → Writing (write_chunk H C f)
    write_chunk-IsWriting f w st more = ground (
      arith,
      write_chunk-keeps f,
      write_chunk-offset f more,
      write_chunk-image f (rw w.same_buffer bytes),
      placed-append buf addr 0 f.offset (chunk_size f),
      append_assoc before (placed buf addr 0 f.offset) (placed buf addr f.offset (chunk_size f)),
    )

    -- An operation is not moved on by accesses that store nothing.
    Writing-bus :
        (f : Flash H.Hw) (s : OpState) (b : Bus H.Hw)
        → Writing f
        → image b.log ≡ image f.bus.log
        → in_write s ≡ true
        → (s ≡ idle → f.offset ≡ n)
        → Writing (record f { state = s; bus = b })
    Writing-bus f s b w e i d = ground arith

    finish_write-IsWriting :
        (f : Flash H.Hw) → Writing f → f.offset ≡ f.len → Writing (finish_write H C f)
    unfolding finish_write read clear_pin
    finish_write-IsWriting f w d = elim (Bool-cases (any_set (H.sr2 f.bus.hw) C.sr_wbne)) [
      | inl h ↦ rw h (
          Writing-bus f f.state _ w (image-update_cr2 _ (read H f.bus)) w.writes
            (λ _. d ∙ w.same_len))
      | inr h ↦ rw h (elim (Bool-cases (op_complete H C (read H f.bus)).0) [
        | inl k ↦ rw k (
            Writing-bus f idle _ w
              (rw (image-emit, append-nil, image-update_cr2, image-op_complete (read H f.bus)) refl)
              refl (λ _. d ∙ w.same_len))
        | inr k ↦ rw k (
            Writing-bus f f.state _ w (image-op_complete (read H f.bus)) w.writes
              (λ _. d ∙ w.same_len))
      ])
    ]

    process_write_busy-IsWriting :
        (f : Flash H.Hw) → Writing f → f.state ≡ write_busy → Writing (process_write_busy H C f)
    unfolding process_write_busy
    process_write_busy-IsWriting f w st = elim (Bool-cases (op_complete H C f.bus).0) [
      | inl h ↦ rw h (elim (Bool-cases (ltb f.offset f.len)) [
        | inl more ↦ rw more (write_chunk-IsWriting f₁ w₁ st (ground arith))
        | inr end ↦ rw end (finish_write-IsWriting f₁ w₁ (ground arith))
      ])
      | inr h ↦ rw h w₁
    ]
      where
        f₁ : Flash H.Hw
        f₁ = record f { bus = (op_complete H C f.bus).1 }

        w₁ : Writing f₁
        w₁ = Writing-bus f f.state _ w (image-op_complete f.bus) w.writes w.complete

    process_write_pending-IsWriting :
        (f : Flash H.Hw)
        → Writing f
        → f.state ≡ write_pending
        → Writing (process_write_pending H C f)
    unfolding process_write_pending
    process_write_pending-IsWriting f w st = elim (Bool-cases (op_complete H C f.bus).0) [
      | inl h ↦ rw h (
          process_write_busy-IsWriting
            (record f {
              state = write_busy;
              bus = enable_programming H C (op_complete H C f.bus).1;
            })
            (Writing-bus f write_busy _ w (image-enable_programming _ ∙ image-op_complete f.bus)
              refl (λ e. cc))
            refl)
      | inr h ↦ rw h (Writing-bus f f.state _ w (image-op_complete f.bus) w.writes w.complete)
    ]

    process_in-IsWriting :
        (s : OpState) (f : Flash H.Hw) → Writing f → f.state ≡ s → Writing (process_in H C s f)
    unfolding process_in
    process_in-IsWriting idle f w e = w
    process_in-IsWriting erase_pending f w e = cc (w.writes, ap in_write e)
    process_in-IsWriting erase_busy f w e = cc (w.writes, ap in_write e)
    process_in-IsWriting write_pending f w e = process_write_pending-IsWriting f w e
    process_in-IsWriting write_busy f w e = process_write_busy-IsWriting f w e

    -- If a buffer of bytes is being written, it still is after a call of `flash_process`: what the
    -- accesses have stored since the start is the first `offset` bytes of the buffer, each once, in
    -- order and at its place, and all of them when the state is idle.
    pub process-IsWriting : (f : Flash H.Hw) → Writing f → Writing (process H C f)
    unfolding process
    process-IsWriting f w = process_in-IsWriting f.state f w refl
