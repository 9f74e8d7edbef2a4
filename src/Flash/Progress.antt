-- ===== src/Flash/Progress.antt =====
-- Every call of `flash_process` brings an operation nearer to its end, if the flash works its queue
-- off: the loops of the blocking functions end.
use cs7000p_bootloader.Base.{
  ℕ, ◌+◌, ◌-◌, ◌*◌, ◌≤◌, ◌<◌, ◌≡◌, ◌≢◌, ◌⊎◌, inl, inr, refl, Bool, true, false, arith, bit_or, ltb,
  Bool-cases, any_set,
}
use cs7000p_bootloader.Bus.{Access, Hardware, Bus, read, emit, update_cr2, update_ccr2}
use cs7000p_bootloader.Flash.{
  OpState, idle, erase_pending, erase_busy, write_pending, write_busy, FlashMasks, Flash,
  xfer_bufsize, clear_eop, op_complete, enable_programming, write_chunk, finish_write,
  process_write_busy, process_write_pending, process_erase_pending, process_erase_busy, process_in,
  process,
}
use cs7000p_bootloader.Flash.Write.{write_chunk-offset, write_chunk-keeps}

-- What the reference manual says of the status register. QW is set while an operation is queued: it
-- falls within `limit` reads, and does not rise again by itself. WBNE is set while the write buffer
-- holds data (`flush` is not 0); once FW is set (`flush` is at most 1), the buffer is empty when the
-- queue is.
pub record Timing (H : Hardware) (C : FlashMasks) (limit : ℕ) : Type 0 where
  pub wait : H.Hw → ℕ
  pub flush : H.Hw → ℕ
  pub wait_limit : (h : H.Hw) → wait h ≤ limit
  pub wait_elapse : (h : H.Hw) → wait (H.elapse h) ≤ wait h
  pub wait_queued : (h : H.Hw) → any_set (H.sr2 h) C.sr_qw ≡ true → wait (H.elapse h) < wait h
  pub wait_ccr2 : (h : H.Hw) (v : ℕ) → wait (H.write (Access.ccr2 v) h) ≤ wait h
  pub flush_limit : (h : H.Hw) → flush h ≤ 2
  pub flush_elapse : (h : H.Hw) → flush (H.elapse h) ≤ flush h
  pub flush_ccr2 : (h : H.Hw) (v : ℕ) → flush (H.write (Access.ccr2 v) h) ≤ flush h
  pub flush_forced : (h : H.Hw) (v : ℕ) → flush (H.write (Access.cr2 (bit_or v C.cr_fw)) h) ≤ 1
  pub flush_done :
      (h : H.Hw) → any_set (H.sr2 h) C.sr_qw ≡ false → flush h ≤ 1 → flush (H.elapse h) ≡ 0
  pub flush_wbne : (h : H.Hw) → any_set (H.sr2 h) C.sr_wbne ≡ true → flush h ≢ 0

module _ (H : Hardware) (C : FlashMasks) {limit : ℕ} (T : Timing H C limit) where
  open T use {wait, flush}

  clear_eop-calm :
      (b : Bus H.Hw)
      → (wait (clear_eop H C b).hw ≤ wait b.hw) × (flush (clear_eop H C b).hw ≤ flush b.hw)
  unfolding clear_eop read update_ccr2 emit
  clear_eop-calm b = elim (Bool-cases (any_set (H.sr2 b.hw) C.sr_eop)) [
    | inl e ↦
        rw e
          (omega (arith, T.wait_elapse, T.wait_ccr2), omega (arith, T.flush_elapse, T.flush_ccr2))
    | inr e ↦ rw e (T.wait_elapse b.hw, T.flush_elapse b.hw)
  ]

  -- What `flash_op_complete` tells of the queue.
  record IsPolled (b : Bus H.Hw) (r : Bool × Bus H.Hw) : Type 0 where
    calm : wait r.1.hw ≤ wait b.hw
    queued : r.0 ≡ false → wait r.1.hw < wait b.hw
    no_dirt : flush r.1.hw ≤ flush b.hw
    clean : r.0 ≡ true → flush b.hw ≤ 1 → flush r.1.hw ≡ 0

  op_complete-IsPolled : (b : Bus H.Hw) → IsPolled b (op_complete H C b)
  unfolding op_complete read
  op_complete-IsPolled b = elim (Bool-cases (any_set (H.sr2 b.hw) C.sr_qw)) [
    | inl e ↦ rw e (ground (arith, T.wait_elapse b.hw, T.wait_queued b.hw, T.flush_elapse b.hw))
    | inr e ↦ rw e (
        ground (
          arith,
          clear_eop-calm (record b { hw = H.elapse b.hw }),
          T.wait_elapse b.hw,
          T.flush_elapse b.hw,
          T.flush_done b.hw,
        ))
  ]

  -- The rounds that are left, without those that wait for the queue.
  abbrev pub stage : OpState → ℕ → ℕ → ℕ → ℕ
  stage idle len left dirty = 0
  stage erase_busy len left dirty = 1
  stage erase_pending len left dirty = 2
  stage write_busy len left dirty = 3 * left + dirty + 1
  stage write_pending len left dirty = 3 * len + 4

  abbrev pub rounds : Flash H.Hw → ℕ
  rounds f = stage f.state f.len (f.len - f.offset) (flush f.bus.hw)

  -- `f'` is nearer to the end than `f`, or at it.
  data IsNearer (f f' : Flash H.Hw) : Type 0 where
    ended : f'.state ≡ idle → IsNearer f f'
    round : rounds f' < rounds f → IsNearer f f'
    waited : rounds f' ≤ rounds f → wait f'.bus.hw < wait f.bus.hw → IsNearer f f'

  write_chunk-rounds :
      (f : Flash H.Hw)
      → f.offset < f.len
      → f.len ≤ xfer_bufsize
      → (f.len - (write_chunk H C f).offset < f.len - f.offset)
        × ((write_chunk H C f).offset ≤ f.len)
  write_chunk-rounds f more fits = ground (arith, write_chunk-offset H C f more fits)

  flush-forced : (b : Bus H.Hw) → flush (update_cr2 H (λ v. bit_or v C.cr_fw) b).hw ≤ 1
  unfolding update_cr2 emit
  flush-forced b = T.flush_forced _ _

  -- The last rounds: a set WBNE can be seen only before FW has been set.
  finish_write-IsNearer :
      (f : Flash H.Hw) (r : Bool × Bus H.Hw)
      → f.state ≡ write_busy
      → r.0 ≡ true
      → IsPolled f.bus r
      → IsNearer f (finish_write H C (record f { bus = r.1 }))
  unfolding finish_write read
  finish_write-IsNearer f r st ready p = elim (Bool-cases (any_set (H.sr2 r.1.hw) C.sr_wbne)) [
    | inl e ↦ rw e (round (rw st (omega (arith, flush-forced (read H r.1), dirty e))))
    | inr e ↦ rw e (elim (Bool-cases (op_complete H C (read H r.1)).0) [
      | inl k ↦ rw k (ended refl)
      | inr k ↦ rw k (waited (rw st (omega (arith, again, p.no_dirt))) (again.1 k))
    ])
  ]
    where
      dirty : any_set (H.sr2 r.1.hw) C.sr_wbne ≡ true → 1 < flush f.bus.hw
      dirty e = ground (arith, T.flush_wbne r.1.hw e, p.clean ready)

      again :
          (flush (op_complete H C (read H r.1)).1.hw ≤ flush r.1.hw)
          × ((op_complete H C (read H r.1)).0 ≡ false
              → wait (op_complete H C (read H r.1)).1.hw < wait f.bus.hw)
      again =
          ground
            (arith, op_complete-IsPolled (read H r.1), T.wait_elapse r.1.hw, T.flush_elapse r.1.hw)

  write_chunk-IsNearer :
      (f : Flash H.Hw) (r : Bool × Bus H.Hw)
      → f.state ≡ write_busy
      → IsPolled f.bus r
      → f.offset < f.len
      → f.len ≤ xfer_bufsize
      → IsNearer f (write_chunk H C (record f { bus = r.1 }))
  write_chunk-IsNearer f r st p more fits =
      let f₁ : Flash H.Hw = record f { bus = r.1 } in
      round (
        ground (
          arith,
          write_chunk-keeps H C f₁,
          write_chunk-rounds f₁,
          T.flush_limit (write_chunk H C f₁).bus.hw,
        ))

  process_write_busy-IsNearer :
      (f : Flash H.Hw)
      → f.state ≡ write_busy
      → f.offset ≤ f.len
      → f.len ≤ xfer_bufsize
      → IsNearer f (process_write_busy H C f)
  unfolding process_write_busy
  process_write_busy-IsNearer f st within fits =
      let p = op_complete-IsPolled f.bus in
      elim (Bool-cases (op_complete H C f.bus).0) [
        | inl h ↦ rw h (elim (Bool-cases (ltb f.offset f.len)) [
          | inl more ↦
              rw more (write_chunk-IsNearer f (op_complete H C f.bus) st p (ground arith) fits)
          | inr end ↦ rw end (finish_write-IsNearer f (op_complete H C f.bus) st h p)
        ])
        | inr h ↦ rw h (waited (rw st (omega (arith, p.no_dirt))) (p.queued h))
      ]

  IsNearer-skip : {f g f' : Flash H.Hw} → rounds g < rounds f → IsNearer g f' → IsNearer f f'
  IsNearer-skip h (ended e) = ended e
  IsNearer-skip h (round r) = round (omega arith)
  IsNearer-skip h (waited r w) = round (omega arith)

  process_write_pending-IsNearer :
      (f : Flash H.Hw)
      → f.state ≡ write_pending
      → f.offset ≤ f.len
      → f.len ≤ xfer_bufsize
      → IsNearer f (process_write_pending H C f)
  unfolding process_write_pending
  process_write_pending-IsNearer f st within fits =
      let p = op_complete-IsPolled f.bus in
      let b = enable_programming H C (op_complete H C f.bus).1 in
      let g : Flash H.Hw = record f { state = write_busy; bus = b } in
      elim (Bool-cases (op_complete H C f.bus).0) [
        | inl h ↦ rw h (
            IsNearer-skip (rw st (omega (arith, T.flush_limit b.hw)))
              (process_write_busy-IsNearer g refl within fits))
        | inr h ↦ rw h (waited (rw st (omega arith)) (p.queued h))
      ]

  process_erase_pending-IsNearer :
      (f : Flash H.Hw) → f.state ≡ erase_pending → IsNearer f (process_erase_pending H C f)
  unfolding process_erase_pending
  process_erase_pending-IsNearer f st = elim (Bool-cases (op_complete H C f.bus).0) [
    | inl h ↦ rw h (round (rw st (omega arith)))
    | inr h ↦ rw h (waited (rw st (omega arith)) ((op_complete-IsPolled f.bus).queued h))
  ]

  process_erase_busy-IsNearer :
      (f : Flash H.Hw) → f.state ≡ erase_busy → IsNearer f (process_erase_busy H C f)
  unfolding process_erase_busy
  process_erase_busy-IsNearer f st = elim (Bool-cases (op_complete H C f.bus).0) [
    | inl h ↦ rw h (ended refl)
    | inr h ↦ rw h (waited (rw st (omega arith)) ((op_complete-IsPolled f.bus).queued h))
  ]

  process_in-IsNearer :
      (s : OpState) (f : Flash H.Hw)
      → f.state ≡ s
      → f.offset ≤ f.len
      → f.len ≤ xfer_bufsize
      → IsNearer f (process_in H C s f)
  unfolding process_in
  process_in-IsNearer idle f st within fits = ended st
  process_in-IsNearer erase_pending f st within fits = process_erase_pending-IsNearer f st
  process_in-IsNearer erase_busy f st within fits = process_erase_busy-IsNearer f st
  process_in-IsNearer write_pending f st within fits =
      process_write_pending-IsNearer f st within fits
  process_in-IsNearer write_busy f st within fits = process_write_busy-IsNearer f st within fits

  -- The calls of `flash_process` that are enough.
  abbrev pub calls : Flash H.Hw → ℕ
  calls f = rounds f * (limit + 1) + wait f.bus.hw

  fewer_calls : (f f' : Flash H.Hw) → IsNearer f f' → (f'.state ≡ idle) ⊎ (calls f' < calls f)
  fewer_calls f f' (ended e) = inl e
  fewer_calls f f' (round r) = inr (grind (arith, T.wait_limit f'.bus.hw))
  fewer_calls f f' (waited r w) = inr (grind arith)

  -- If the offset is at most the length, and that at most the size of the buffer, then after a call of
  -- `flash_process` the state is idle, or fewer calls are left than before it.
  pub process-IsNearer :
      (f : Flash H.Hw)
      → f.offset ≤ f.len
      → f.len ≤ xfer_bufsize
      → ((process H C f).state ≡ idle) ⊎ (calls (process H C f) < calls f)
  unfolding process
  process-IsNearer f within fits =
      fewer_calls f (process_in H C f.state f) (process_in-IsNearer f.state f refl within fits)
