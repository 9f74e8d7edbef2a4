-- ===== src/Flash/Machine.antt =====
-- The state machine of src/dfu_flash.c: the moves of `flash_process`, and what it leaves alone while
-- an operation is queued.
use cs7000p_bootloader.Base.{ℕ, List, ◌≤◌, ◌≡◌, refl, true, false, any_set}
use cs7000p_bootloader.Bus.{Hardware, Bus, read}
use cs7000p_bootloader.Flash.{
  OpState, idle, erase_pending, erase_busy, write_pending, write_busy, is_idle, FlashMasks, Flash,
  op_complete, process_write_busy, process_write_pending, process_erase_pending, process_erase_busy,
  process_in, process,
}
use cs7000p_bootloader.Flash.Image.{image}

module _ (H : Hardware) (C : FlashMasks) where
  -- The first read of SR2 finds no operation queued.
  abbrev pub IsReady : Flash H.Hw → Type 0
  IsReady f = any_set (H.sr2 f.bus.hw) C.sr_qw ≡ false

  -- The edges of the diagram. The state is idle again after a write only once the stores so far are
  -- `goal`, those that were asked for; a write can end in the call that starts it only if there
  -- are none to be made.
  pub data Step (goal : List (ℕ × ℕ)) (f f' : Flash H.Hw) : Type 0 where
    rests : f.state ≡ idle → f' ≡ f → Step goal f f'
    waits :
        any_set (H.sr2 f.bus.hw) C.sr_qw ≡ true
        → f' ≡ record f { bus = read H f.bus }
        → Step goal f f'
    erase_starts : IsReady f → f.state ≡ erase_pending → f'.state ≡ erase_busy → Step goal f f'
    erase_ends : IsReady f → f.state ≡ erase_busy → f'.state ≡ idle → Step goal f f'
    write_starts : IsReady f → f.state ≡ write_pending → f'.state ≡ write_busy → Step goal f f'
    goes_on : IsReady f → f.state ≡ write_busy → f'.state ≡ write_busy → Step goal f f'
    write_ends :
        IsReady f
        → f.state ≡ write_busy
        → f.len ≤ f.offset
        → f'.state ≡ idle
        → image f'.bus.log ≡ goal
        → Step goal f f'
    nothing_written :
        IsReady f
        → f.state ≡ write_pending
        → f.len ≤ f.offset
        → f'.state ≡ idle
        → image f'.bus.log ≡ goal
        → Step goal f f'

  -- What is stored whenever the state is idle.
  abbrev IsWhole : List (ℕ × ℕ) → Flash H.Hw → Type 0
  IsWhole goal f' = f'.state ≡ idle → image f'.bus.log ≡ goal

  -- While an operation is queued, a call reads SR2 once and writes nothing: neither the state nor
  -- any register or byte of the memory is touched.
  pub process_queued :
      (f : Flash H.Hw)
      → any_set (H.sr2 f.bus.hw) C.sr_qw ≡ true
      → is_idle f.state ≡ false
      → process H C f ≡ record f { bus = read H f.bus }
  unfolding process
  process_queued f queued busy = by_state f.state f queued busy
    where
      by_state :
          (s : OpState) (f : Flash H.Hw)
          → any_set (H.sr2 f.bus.hw) C.sr_qw ≡ true
          → is_idle s ≡ false
          → process_in H C s f ≡ record f { bus = read H f.bus }
      by_state idle f q b = cc
      by_state erase_pending f q b =
          unfold process_in process_erase_pending op_complete in rw q refl
      by_state erase_busy f q b = unfold process_in process_erase_busy op_complete in rw q refl
      by_state write_pending f q b =
          unfold process_in process_write_pending op_complete in rw q refl
      by_state write_busy f q b = unfold process_in process_write_busy op_complete in rw q refl
