-- ===== src/Flash/Tests.antt =====
-- A small flash interface on which the theorems on src/dfu_flash.c are tried: an access queues an
-- operation for two reads of the status register, and a store fills the write buffer.
use cs7000p_bootloader.Base.{
  length-replicate, ℕ, zero, suc, ◌-◌, ◌/◌, ◌%◌, ◌^◌, min, ◌<◌, ◌≡◌, ◌⊎◌, refl, Bool, true, false,
  ◌&&◌, List, [], ◌∷◌, ◌++◌, arith, bit_and, bit_or, bit-bit_and, bit-bit_or, bit_above,
  bit-one_<<<, any_set, any_set-bit, ltb, leb, ◌==◌, if◌then◌else◌, replicate, some, bit-ones,
  bit_and-le, ◌<<<◌, ◌∙◌,
}
use cs7000p_bootloader.Bus.{Access, store32, store8, Hardware, Bus}
use cs7000p_bootloader.Flash.{
  OpState, idle, erase_pending, erase_busy, write_pending, write_busy, FlashMasks, Flash,
  op_complete, process, write_blocking, erase_sector_blocking, xfer_bufsize,
}
use cs7000p_bootloader.Flash.Image.{zeros-IsBytes, stored, image, placed, IsBytes}
use cs7000p_bootloader.Flash.Layout.{IsLayout, IsStable, IsEraseCommand, Disjoint}
use cs7000p_bootloader.Flash.Progress.{Timing, calls, process-IsNearer}
use cs7000p_bootloader.Flash.Erase.{process-erases}
use cs7000p_bootloader.Flash.Write.{IsWriting, process-IsWriting}
use cs7000p_bootloader.Flash.Blocking.{write_blocking-stores}
use cs7000p_bootloader.Flash.Waiting.{IsErasing, erase_sector_blocking-ends}

abbrev pub masks : FlashMasks
masks = record {
  cr_lock = 1;
  cr_psize_0 = 16;
  cr_psize_1 = 32;
  cr_snb = 0x700;
  cr_snb_pos = 8;
  cr_ser = 4;
  cr_start = 128;
  cr_pg = 2;
  cr_fw = 64;
  sr_qw = 4;
  sr_eop = 65536;
  sr_wbne = 2;
  ccr_clr_eop = 65536;
}

-- The reads for which the queue stays full, whether the write buffer holds data (2), is being forced
-- out (1) or is empty, the last value of CR2, and the bytes that were stored, latest first.
pub record Chip : Type 0 where
  pub queued : ℕ
  pub dirty : ℕ
  pub cr2 : ℕ
  pub bytes : List (ℕ × ℕ)

abbrev pub byte_at : List (ℕ × ℕ) → ℕ → ℕ
byte_at [] a = 0xff
byte_at ((a', v) ∷ l) a = let rest = byte_at l a in if a' == a then v else rest

abbrev pub status : (queued dirty : Bool) → ℕ
status true true = 6
status true false = 4
status false true = 2
status false false = 0

abbrev pub next_dirty : (queued dirty : ℕ) → ℕ
next_dirty queued dirty = if (queued == 0) && leb dirty 1 then 0 else dirty

abbrev pub stores : Access → Chip → Chip
stores a h = record h { queued = 2; dirty = 2; bytes = stored a ++ h.bytes }

abbrev pub on_access : Access → Chip → Chip
on_access (Access.cr2 v) h = record h {
  queued = 2;
  dirty = if any_set v 64 then min h.dirty 1 else h.dirty;
  cr2 = v;
}
on_access (store32 a v) h = stores (store32 a v) h
on_access (store8 a v) h = stores (store8 a v) h
on_access _ h = h

abbrev pub chip : Hardware
chip = record {
  Hw = Chip;
  sr2 = λ h. status (ltb 0 h.queued) (ltb 0 h.dirty);
  cr2 = λ h. bit_and h.cr2 0xffffffff;
  ccr2 = λ h. 0;
  mem = λ h a. byte_at h.bytes a;
  elapse = λ h. record h { queued = min h.queued 2 - 1; dirty = next_dirty h.queued h.dirty };
  write = on_access;
}

status-queued : (q d : Bool) → any_set (status q d) 4 ≡ q
unfolding any_set
status-queued true true = refl
status-queued true false = refl
status-queued false true = refl
status-queued false false = refl

status-dirty : (q d : Bool) → any_set (status q d) 2 ≡ d
unfolding any_set
status-dirty true true = refl
status-dirty true false = refl
status-dirty false true = refl
status-dirty false false = refl

forced : (v : ℕ) → any_set (bit_or v 64) 64 ≡ true
unfolding ◌<<<◌
forced v = any_set-bit 6 (bit_or v 64) ∙ rw (bit-bit_or, bit-one_<<< 6 6) (ground arith)

pub chip-Timing : Timing chip masks 2
chip-Timing = record {
  wait = λ h. min h.queued 2;
  flush = λ h. min h.dirty 2;
  wait_limit = λ h. omega arith;
  wait_elapse = λ h. omega arith;
  wait_queued = λ h e. ground (arith, status-queued (ltb 0 h.queued) (ltb 0 h.dirty));
  wait_ccr2 = λ h v. omega arith;
  flush_limit = λ h. omega arith;
  flush_elapse = λ h. ground arith;
  flush_ccr2 = λ h v. omega arith;
  flush_forced = λ h v. rw (forced v) (omega arith);
  flush_done = λ h e d. ground (arith, status-queued (ltb 0 h.queued) (ltb 0 h.dirty));
  flush_wbne = λ h e z. ground (arith, status-dirty (ltb 0 h.queued) (ltb 0 h.dirty));
}

disjoint : (a b : ℕ) → bit_and a b ≡ 0 → Disjoint a b
disjoint a b h i e = ground (arith, bit-bit_and i a b, bit_above 0 i 0)

pub masks-IsLayout : IsLayout masks
unfolding ◌<<<◌
masks-IsLayout = record {
  snb_field = refl;
  snb_in = omega arith;
  snb-psize_0 = disjoint 0x700 16 refl;
  snb-psize_1 = disjoint 0x700 32 refl;
  snb-ser = disjoint 0x700 4 refl;
  snb-start = disjoint 0x700 128 refl;
  snb-fw = disjoint 0x700 64 refl;
  ser-start = disjoint 4 128 refl;
  ser-fw = disjoint 4 64 refl;
  psize_0-start = disjoint 16 128 refl;
  psize_0-fw = disjoint 16 64 refl;
  psize_1-start = disjoint 32 128 refl;
  psize_1-fw = disjoint 32 64 refl;
}

pub chip-IsStable : IsStable chip masks
chip-IsStable = record {
  word = λ h. omega (arith, bit_and-le h.cr2 0xffffffff);
  holds = λ h v i small no_start no_fw. rw (bit-bit_and, bit-ones 32 i) (ground arith);
}

-- A chip at rest, and one that is still busy with a queue.
abbrev pub at_rest : Bus Chip
at_rest = record { hw = record { queued = 0; dirty = 0; cr2 = 0x732; bytes = [] }; log = [] }

abbrev pub queue_full : Bus Chip
queue_full = record { hw = record { queued = 2; dirty = 0; cr2 = 0x732; bytes = [] }; log = [] }

abbrev pub flash_in : OpState → Bus Chip → Flash Chip
flash_in s b = record {
  state = s;
  addr = 0x08140010;
  buffer = replicate xfer_bufsize 0;
  len = 40;
  offset = 32;
  bus = b;
}

abbrev pub six_bytes : List ℕ
six_bytes = 10 ∷ 20 ∷ 30 ∷ 40 ∷ 50 ∷ 255 ∷ []

pub six_bytes-IsBytes : IsBytes six_bytes
six_bytes-IsBytes zero = omega arith
six_bytes-IsBytes (suc zero) = omega arith
six_bytes-IsBytes (suc (suc zero)) = omega arith
six_bytes-IsBytes (suc (suc (suc zero))) = omega arith
six_bytes-IsBytes (suc (suc (suc (suc zero)))) = omega arith
six_bytes-IsBytes (suc (suc (suc (suc (suc zero))))) = omega arith
six_bytes-IsBytes (suc (suc (suc (suc (suc (suc k)))))) = omega arith

-- The bit of QW in what the chip reports.
at_rest-ready : any_set 0 4 ≡ false
unfolding any_set
at_rest-ready = refl

queue_full-queued : any_set 4 4 ≡ true
unfolding any_set
queue_full-queued = refl

write_blocking-stores_example :
    (g : Flash Chip) × (write_blocking chip masks 100 0x08100000 six_bytes 6 (flash_in idle at_rest)
      ≡ some g)
    × (g.state ≡ idle)
    × (image g.bus.log ≡ image [] ++ placed six_bytes 0x08100000 0 6)
write_blocking-stores_example =
    write_blocking-stores chip masks chip-Timing 0x08100000 6 100 six_bytes (flash_in idle at_rest)
      refl (length-replicate {A = ℕ} xfer_bufsize 0) (omega arith) (omega arith) six_bytes-IsBytes
      (zeros-IsBytes xfer_bufsize) (omega arith)

erase_sector_blocking-ends_example :
    (g : Flash Chip) × (erase_sector_blocking chip masks 9 0x08140000 (flash_in idle at_rest)
      ≡ some g)
    × (g.state ≡ idle)
    × IsErasing (record (flash_in idle at_rest) { addr = 0x08140000 }) g
erase_sector_blocking-ends_example =
    erase_sector_blocking-ends chip masks chip-Timing 0x08140000 9 (flash_in idle at_rest) refl
      (omega arith) (omega arith) (omega arith)

process-erases_example :
    let f = flash_in erase_pending at_rest in
    let f' = process chip masks f in
    let b = (op_complete chip masks at_rest).1 in
    (l : List Access) × (v : ℕ) × (f'.state ≡ erase_busy)
    × (f'.bus.log ≡ b.log ++ (l ++ (Access.cr2 v ∷ [])))
    × IsEraseCommand masks (0x08140010 / 2 ^ 17 % 8) (chip.cr2 b.hw) v
process-erases_example =
    process-erases chip masks chip-IsStable (flash_in erase_pending at_rest) masks-IsLayout refl
      (omega arith) at_rest-ready

process-IsNearer_example :
    let f = flash_in write_busy queue_full in
    ((process chip masks f).state ≡ idle)
    ⊎ (calls chip masks chip-Timing (process chip masks f) < calls chip masks chip-Timing f)
process-IsNearer_example =
    process-IsNearer chip masks chip-Timing (flash_in write_busy queue_full) (omega arith)
      (omega arith)

abbrev forty_two : List ℕ
forty_two = replicate xfer_bufsize 42

forty_two-IsBytes : (n : ℕ) → IsBytes (replicate n 42)
forty_two-IsBytes zero k = omega arith
forty_two-IsBytes (suc n) zero = omega arith
forty_two-IsBytes (suc n) (suc k) = forty_two-IsBytes n k

-- A write of 40 bytes that has been accepted.
abbrev accepted : Flash Chip
accepted = record {
  state = write_pending;
  addr = 0x08100000;
  buffer = forty_two;
  len = 40;
  offset = 0;
  bus = at_rest;
}

accepted-IsWriting : IsWriting [] 0x08100000 40 forty_two accepted
unfolding image placed
accepted-IsWriting = record {
  writes = refl;
  same_addr = refl;
  same_len = refl;
  same_buffer = refl;
  fits = omega arith;
  within = omega arith;
  complete = λ e. cc;
  so_far = refl;
}

process-IsWriting_example : IsWriting [] 0x08100000 40 forty_two (process chip masks accepted)
process-IsWriting_example =
    process-IsWriting chip masks [] 0x08100000 40 forty_two (forty_two-IsBytes xfer_bufsize)
      accepted accepted-IsWriting
