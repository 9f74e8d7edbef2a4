-- ===== src/Flash.antt =====
-- The code of src/dfu_flash.c: the asynchronous erase and write operations on bank 2 of the flash.
use cs7000p_bootloader.Base.{
  ℕ, zero, suc, ◌+◌, ◌-◌, ◌*◌, ◌/◌, ◌%◌, ◌^◌, ◌≡◌, Bool, true, false, not, ◌&&◌, Option, none, some,
  List, [], ◌∷◌, ◌++◌, bit_and, bit_or, ltb, leb, if◌then◌else◌, length, get_or, take, drop, u8,
  u16, u32, not32, ◌<<<◌, any_set,
}
pub mod Image
pub mod Machine
pub mod Layout
pub mod Erase
pub mod Buffer
pub mod Write
pub mod Progress
pub mod Started
pub mod Blocking
pub mod Waiting
pub mod Sound
pub mod Tests
use mathlib.Core.Option
use cs7000p_bootloader.Bus.{
  Access, keyr2, store32, store8, isb, dsb, gpioa, Hardware, Bus, read, emit, emit_all, update_cr2,
  update_ccr2, set_pin, clear_pin,
}

-- `flash_op_state_t`.
pub data OpState : Type 0 where
  idle erase_pending erase_busy write_pending write_busy : OpState

abbrev pub is_idle : OpState → Bool
is_idle idle = true
is_idle _ = false

-- The masks that the header stm32h7xx.h defines for the registers CR, SR and CCR.
pub record FlashMasks : Type 0 where
  pub cr_lock : ℕ
  pub cr_psize_0 : ℕ
  pub cr_psize_1 : ℕ
  pub cr_snb : ℕ
  pub cr_snb_pos : ℕ
  pub cr_ser : ℕ
  pub cr_start : ℕ
  pub cr_pg : ℕ
  pub cr_fw : ℕ
  pub sr_qw : ℕ
  pub sr_eop : ℕ
  pub sr_wbne : ℕ
  pub ccr_clr_eop : ℕ

-- `CFG_TUD_DFU_XFER_BUFSIZE`.
abbrev pub xfer_bufsize : ℕ
xfer_bufsize = 1024

-- `flash_ctx`, and the bus that the functions work on.
pub record Flash (Hw : Type 0) : Type 0 where
  pub state : OpState
  pub addr : ℕ
  pub buffer : List ℕ
  pub len : ℕ
  pub offset : ℕ
  pub bus : Bus Hw

-- Bank 2 at 0x08100000, 128KB sectors. `-` on `uint32_t` wraps.
unfoldable pub addr_to_sector : ℕ → ℕ
addr_to_sector addr = u8 (bit_and (u32 (addr + 2 ^ 32 - 0x08100000) / (128 * 1024)) 0x7)

-- `memcpy(dst, src, n)` into an array; `none` is a copy past the end of either.
unfoldable pub memcpy : List ℕ → List ℕ → ℕ → Option (List ℕ)
memcpy dst src n =
    if leb n (length dst) && leb n (length src) then some (take n src ++ drop n dst) else none

-- The little-endian 32-bit load from byte `k` of the buffer.
unfoldable pub word_at : List ℕ → ℕ → ℕ
word_at buf k =
    get_or buf k 0
    + 2 ^ 8 * get_or buf (k + 1) 0
    + 2 ^ 16 * get_or buf (k + 2) 0
    + 2 ^ 24 * get_or buf (k + 3) 0

-- The two copy loops, with `n` rounds left at index `i`: `dst` is the target address, `k` the
-- index of the first byte in the buffer.
unfoldable pub word_stores : List ℕ → (dst k : ℕ) → ℕ → ℕ → List Access
word_stores buf dst k i zero = []
word_stores buf dst k i (suc n) =
    store32 (u32 (dst + 4 * i)) (word_at buf (k + 4 * i)) ∷ word_stores buf dst k (i + 1) n

unfoldable pub byte_stores : List ℕ → (dst k : ℕ) → ℕ → ℕ → List Access
byte_stores buf dst k i zero = []
byte_stores buf dst k i (suc n) =
    store8 (u32 (dst + i)) (get_or buf (k + i) 0) ∷ byte_stores buf dst k (i + 1) n

module _ (H : Hardware) (C : FlashMasks) where
  open H use {Hw}
  open C use {
    cr_lock, cr_psize_0, cr_psize_1, cr_snb, cr_snb_pos, cr_ser, cr_start, cr_pg, cr_fw, sr_qw,
    sr_eop, sr_wbne, ccr_clr_eop,
  }

  -- `flash_init`.
  unfoldable pub init : Flash Hw → Flash Hw
  init f = record f {
    state = idle;
    bus =
        if any_set (H.cr2 f.bus.hw) cr_lock
        then emit H (keyr2 0xCDEF89AB) (emit H (keyr2 0x45670123) (read H f.bus))
        else read H f.bus;
  }

  -- `flash_get_state` and `flash_is_busy`.
  unfoldable pub get_state : Flash Hw → OpState
  get_state f = f.state

  unfoldable pub is_busy : Flash Hw → Bool
  is_busy f = not (is_idle f.state)

  unfoldable pub erase_sector_async : ℕ → Flash Hw → Bool × Flash Hw
  erase_sector_async addr f =
      if not (is_idle f.state)
      then (false, f)
      else (true, record f { addr = addr; state = erase_pending })

  -- `none` is a `memcpy` out of bounds.
  unfoldable pub write_async : ℕ → List ℕ → ℕ → Flash Hw → Option (Bool × Flash Hw)
  write_async addr data' length' f =
      if not (is_idle f.state)
      then some (false, f)
      else Option.map (λ buffer. (true, started buffer)) (memcpy f.buffer data' length')
    where
      started : List ℕ → Flash Hw
      started buffer = record {
        state = write_pending;
        addr = addr;
        buffer = buffer;
        len = length';
        offset = 0;
        bus = emit H (set_pin gpioa 0) f.bus;
      }

  -- `flash_op_complete`: reads SR2, and once more for EOP if no operation is queued.
  unfoldable pub clear_eop : Bus Hw → Bus Hw
  clear_eop b =
      if any_set (H.sr2 b.hw) sr_eop
      then update_ccr2 H (λ v. bit_or v ccr_clr_eop) (read H b)
      else read H b

  unfoldable pub op_complete : Bus Hw → Bool × Bus Hw
  op_complete b =
      if any_set (H.sr2 b.hw) sr_qw then (false, read H b) else (true, clear_eop (read H b))

  -- The sector erase sequence.
  unfoldable pub start_erase : ℕ → Bus Hw → Bus Hw
  start_erase addr b =
      let b₁ = update_cr2 H (λ v. bit_or v (bit_or cr_psize_1 cr_psize_0)) b in
      let b₂ = update_cr2 H (λ v. bit_and v (not32 cr_snb)) b₁ in
      let b₃ = update_cr2 H (λ v. bit_or v (addr_to_sector addr <<< cr_snb_pos)) b₂ in
      let b₄ = update_cr2 H (λ v. bit_or v cr_ser) b₃ in update_cr2 H (λ v. bit_or v cr_start) b₄

  unfoldable pub enable_programming : Bus Hw → Bus Hw
  enable_programming b =
      let b₁ = update_cr2 H (λ v. bit_or v (bit_or cr_psize_1 cr_psize_0)) b in
      let b₂ = update_cr2 H (λ v. bit_or v cr_pg) b₁ in emit H dsb (emit H isb b₂)

  -- The next chunk: 32 bytes as eight words, or the bytes that remain.
  unfoldable pub write_chunk : Flash Hw → Flash Hw
  write_chunk f =
      let remaining = f.len - f.offset in
      let dst = u32 (f.addr + f.offset) in
      if leb 32 remaining
      then record f {
        offset = u16 (f.offset + 32);
        bus = emit H dsb (emit H isb (emit_all H (word_stores f.buffer dst f.offset 0 8) f.bus));
      }
      else record f {
        offset = f.len;
        bus =
            emit H dsb
              (emit H isb (emit_all H (byte_stores f.buffer dst f.offset 0 remaining) f.bus));
      }

  -- All data is written: force the write buffer out if it holds data, or end the operation.
  unfoldable pub finish_write : Flash Hw → Flash Hw
  finish_write f =
      let b = read H f.bus in
      if any_set (H.sr2 f.bus.hw) sr_wbne
      then record f { bus = update_cr2 H (λ v. bit_or v cr_fw) b }
      else (let (done, b₁) = op_complete b in
          if done
          then record f {
            state = idle;
            bus = emit H (clear_pin gpioa 0) (update_cr2 H (λ v. bit_and v (not32 cr_pg)) b₁);
          }
          else record f { bus = b₁ })

  -- The cases of the `switch` of `flash_process`; the first falls through to the second.
  unfoldable pub process_write_busy : Flash Hw → Flash Hw
  process_write_busy f =
      let (done, b) = op_complete f.bus in
      let f₁ = record f { bus = b } in
      if done then (if ltb f.offset f.len then write_chunk f₁ else finish_write f₁) else f₁

  unfoldable pub process_write_pending : Flash Hw → Flash Hw
  process_write_pending f =
      let (done, b) = op_complete f.bus in
      if done
      then process_write_busy (record f { state = write_busy; bus = enable_programming b })
      else record f { bus = b }

  unfoldable pub process_erase_pending : Flash Hw → Flash Hw
  process_erase_pending f =
      let (done, b) = op_complete f.bus in
      if done
      then record f { state = erase_busy; bus = start_erase f.addr b }
      else record f { bus = b }

  unfoldable pub process_erase_busy : Flash Hw → Flash Hw
  process_erase_busy f =
      let (done, b) = op_complete f.bus in
      if done
      then record f { state = idle; bus = update_cr2 H (λ v. bit_and v (not32 cr_ser)) b }
      else record f { bus = b }

  unfoldable pub process_in : OpState → Flash Hw → Flash Hw
  process_in idle f = f
  process_in erase_pending f = process_erase_pending f
  process_in erase_busy f = process_erase_busy f
  process_in write_pending f = process_write_pending f
  process_in write_busy f = process_write_busy f

  unfoldable pub process : Flash Hw → Flash Hw
  process f = process_in f.state f

  -- `while (flash_is_busy()) flash_process();` with fuel; `none` means that the fuel ran out.
  unfoldable pub wait_idle : ℕ → Flash Hw → Option (Flash Hw)
  wait_idle zero f = none
  wait_idle (suc fuel) f =
      let rest = wait_idle fuel (process f) in if is_busy f then rest else some f

  unfoldable pub erase_sector_blocking : ℕ → ℕ → Flash Hw → Option (Flash Hw)
  erase_sector_blocking fuel addr f = wait_idle fuel (erase_sector_async addr f).1

  unfoldable pub write_blocking : ℕ → ℕ → List ℕ → ℕ → Flash Hw → Option (Flash Hw)
  write_blocking fuel addr data' length' f =
      Option.bind (write_async addr data' length' f) (λ (_, f₁). wait_idle fuel f₁)
