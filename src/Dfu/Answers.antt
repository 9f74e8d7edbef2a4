-- ===== src/Dfu/Answers.antt =====
-- What every answer of `tud_dfu_get_status_cb` has in common.
use mathlib.Core.Option
use cs7000p_bootloader.Base.{
  ℕ, ◌≤◌, ◌≡◌, ◌≢◌, inl, inr, refl, Bool, true, false, not, ◌&&◌, Option, some, arith, Bool-cases,
  length, leb, ltb, ◌==◌, get_or, List, if◌then◌else◌,
}
use cs7000p_bootloader.Bus.{Hardware, emit, set_pin, gpioa}
use cs7000p_bootloader.Flash.{
  Flash, FlashMasks, xfer_bufsize, is_idle, write_pending, write_async, erase_sector_async, is_busy,
}
use cs7000p_bootloader.Flash.Buffer.{IsCopied, memcpy-IsCopied}
use cs7000p_bootloader.Dfu.{
  DfuCodes, Request, Response, Dfuse, Answer, start_write, poll_write, write_memory, start_erase,
  poll_erase, erase_command, set_address, get_status, respond, no_callbacks, op_is_write,
  op_is_erase, op_is_set_addr, op_is_idle, unhandled, block_address, address_at_1, cmd_erase,
  cmd_set_address, cmd_get_commands,
}

module _ (H : Hardware) (C : FlashMasks) (U : DfuCodes) where
  open U use {dnload_sync, dnbusy, dnload_idle, error, ok, err_target, err_address}

  -- An answer to a request in `d`, whose response was `r`.
  pub record IsAnswer (r : Response) (d : Dfuse H.Hw) (a : Answer H.Hw) : Type 0 where
    pub no_calls : a.ctl ≡ no_callbacks H C U
    pub passes : a.handled ≡ false → (a.resp ≡ r) × (a.dfu ≡ d)
    pub fails : a.resp.state ≡ error → a.dfu ≡ d
    pub buffer_size : length a.dfu.flash.buffer ≡ xfer_bufsize

  pub data Answers (r : Response) (d : Dfuse H.Hw) : Option (Answer H.Hw) → Type 0 where
    answers : {a : Answer H.Hw} → IsAnswer r d a → Answers r d (some a)

  Answers-if :
      {r : Response} {d : Dfuse H.Hw} (b : Bool) (x y : Option (Answer H.Hw))
      → (b ≡ true → Answers r d x)
      → (b ≡ false → Answers r d y)
      → Answers r d (if b then x else y)
  Answers-if true x y hx hy = hx refl
  Answers-if false x y hx hy = hy refl

  -- A refused operation leaves the flash as it was; an accepted one keeps the size of the buffer.
  pub record IsTried (f : Flash H.Hw) (t : Bool × Flash H.Hw) : Type 0 where
    pub refused : t.0 ≡ false → t.1 ≡ f
    pub same_size : length t.1.buffer ≡ length f.buffer

  pub erase_sector_async-IsTried :
      (addr : ℕ) (f : Flash H.Hw) → IsTried f (erase_sector_async H C addr f)
  unfolding erase_sector_async
  erase_sector_async-IsTried addr f = elim (Bool-cases (is_idle f.state)) [
    | inl e ↦ rw e (ground arith)
    | inr e ↦ rw e (ground arith)
  ]

  pub write_async-IsTried :
      (addr n : ℕ) (src : List ℕ) (f : Flash H.Hw)
      → length f.buffer ≡ xfer_bufsize
      → n ≤ length src
      → n ≤ xfer_bufsize
      → (t : Bool × Flash H.Hw) × (write_async H C addr src n f ≡ some t) × IsTried f t
  unfolding write_async
  write_async-IsTried addr n src f size enough fits = elim (Bool-cases (is_idle f.state)) [
    | inl e ↦ ((true, accepted), rw (e, copied.copies) refl, ground (arith, copied.size))
    | inr e ↦ ((false, f), rw e refl, ground arith)
  ]
    where
      copied : IsCopied f.buffer src n
      copied = memcpy-IsCopied f.buffer src n (omega arith) enough

      accepted : Flash H.Hw
      accepted = record {
        state = write_pending;
        addr = addr;
        buffer = copied.out;
        len = n;
        offset = 0;
        bus = emit H (set_pin gpioa 0) f.bus;
      }

  module _ (no_error_busy : dnbusy ≢ error) (no_error_idle : dnload_idle ≢ error) (r : Response)
      (d : Dfuse H.Hw) (size : length d.flash.buffer ≡ xfer_bufsize) where
    unhandled-Answers : Answers r d (unhandled H C U r d)
    unhandled-Answers = answers (ground arith)

    poll_write-Answers : Answers r d (poll_write H C U r d)
    unfolding poll_write respond
    poll_write-Answers =
        Answers-if (not (is_busy H C d.flash)) _ _ (λ _. answers (ground arith))
          (λ _. answers (ground arith))

    poll_erase-Answers : Answers r d (poll_erase H C U r d)
    unfolding poll_erase respond
    poll_erase-Answers =
        Answers-if (not (is_busy H C d.flash)) _ _ (λ _. answers (ground arith))
          (λ _. answers (ground arith))

    start_write-Answers :
        (addr : ℕ) (t : Bool × Flash H.Hw)
        → IsTried d.flash t
        → Answers r d (start_write H C U addr r d t)
    unfolding start_write respond
    start_write-Answers addr (b, f) t =
        Answers-if b _ _ (λ e. answers (ground arith)) (λ e. answers (ground arith))

    start_erase-Answers :
        (addr : ℕ) (t : Bool × Flash H.Hw)
        → IsTried d.flash t
        → Answers r d (start_erase H C U addr r d t)
    unfolding start_erase respond
    start_erase-Answers addr (b, f) t =
        Answers-if b _ _ (λ e. answers (ground arith)) (λ e. answers (ground arith))

    module _ (req : Request) (enough : req.len ≤ length req.buffer)
        (fits : req.len ≤ xfer_bufsize) where
      write_started-Answers :
          (addr : ℕ)
          → Answers r d (
              Option.bind
                (write_async H C addr req.buffer req.len d.flash)
                (start_write H C U addr r d))
      unfolding Option.bind
      write_started-Answers addr =
          let (t, e, tried) =
            write_async-IsTried addr req.len req.buffer d.flash size enough fits in
          rw e (start_write-Answers addr t tried)

      write_memory-Answers : Answers r d (write_memory H C U req r d)
      unfolding write_memory
      write_memory-Answers =
          Answers-if (leb 2 req.block && ltb 0 req.len && d.have_addr) _ _
            (λ _.
              Answers-if ((req.state == dnload_sync) && op_is_idle d.op) _ _
                (λ _. write_started-Answers (block_address d.base_addr req.block))
                (λ _.
                  Answers-if ((req.state == dnbusy) && op_is_write d.op) _ _
                    (λ _. poll_write-Answers) (λ _. unhandled-Answers)))
            (λ _. unhandled-Answers)

      erase_command-Answers : Answers r d (erase_command H C U req r d)
      unfolding erase_command respond
      erase_command-Answers =
          Answers-if ((req.block == 0) && leb 1 req.len && (get_or req.buffer 0 0 == cmd_erase)) _ _
            (λ _.
              Answers-if (req.state == dnload_sync) _ _
                (λ _.
                  Answers-if (not (req.len == 5)) _ _ (λ _. answers (ground arith))
                    (λ _.
                      start_erase-Answers (address_at_1 req.buffer) _
                        (erase_sector_async-IsTried (address_at_1 req.buffer) d.flash)))
                (λ _.
                  Answers-if ((req.state == dnbusy) && op_is_erase d.op) _ _
                    (λ _. poll_erase-Answers) (λ _. write_memory-Answers)))
            (λ _. write_memory-Answers)

      set_address-Answers : Answers r d (set_address H C U req r d)
      unfolding set_address respond
      set_address-Answers =
          Answers-if
            ((req.block == 0) && (req.len == 5) && (get_or req.buffer 0 0 == cmd_set_address)) _ _
            (λ _.
              Answers-if (req.state == dnload_sync) _ _ (λ _. answers (ground arith))
                (λ _.
                  Answers-if ((req.state == dnbusy) && op_is_set_addr d.op) _ _
                    (λ _. answers (ground arith)) (λ _. erase_command-Answers)))
            (λ _. erase_command-Answers)

      -- If the codes of DNBUSY and DNLOAD_IDLE are not that of ERROR, the request's length is within
      -- its buffer and the transfer size, and the internal buffer has its size, then
      -- `tud_dfu_get_status_cb` copies nothing out of bounds. Its answer asks for no callback; if it
      -- leaves the request to TinyUSB, the response and the state are as they were; if it reports
      -- ERROR, the state is; and the internal buffer keeps its size.
      pub get_status-Answers : (alt : ℕ) → Answers r d (get_status H C U alt req r d)
      unfolding get_status respond
      get_status-Answers alt =
          Answers-if (not (alt == 0)) _ _ (λ _. unhandled-Answers)
            (λ _.
              Answers-if
                ((req.block == 0) && (req.len == 1) && (get_or req.buffer 0 0 == cmd_get_commands))
                _ _ (λ _. answers (ground arith)) (λ _. set_address-Answers))
