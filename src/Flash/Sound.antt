-- ===== src/Flash/Sound.antt =====
-- What src/dfu_flash.c has stored, against what it was asked to store.
use mathlib.Core.Path.{subst}
use cs7000p_bootloader.Base.{
  ℕ, ◌+◌, ◌-◌, ◌≤◌, ◌≡◌, refl, ap, sym, ◌∙◌, true, some, List, [], ◌++◌, arith, length, append-nil,
  append_assoc,
}
use cs7000p_bootloader.Bus.{Hardware, Bus}
use cs7000p_bootloader.Flash.{
  idle, FlashMasks, Flash, xfer_bufsize, process, write_async, erase_sector_async,
}
use cs7000p_bootloader.Flash.Image.{image, placed, IsBytes, placed-append}
use cs7000p_bootloader.Flash.Buffer.{memcpy-IsCopied}
use cs7000p_bootloader.Flash.Write.{IsWriting, process-IsWriting}
use cs7000p_bootloader.Flash.Waiting.{in_erase, process-IsErasing}
use cs7000p_bootloader.Flash.Started.{write_async-IsStarted, erase_accepted, write_accepted}

-- The context as the functions keep it.
pub record IsContext {Hw : Type 0} (f : Flash Hw) : Type 0 where
  pub within : f.offset ≤ f.len
  pub fits : f.len ≤ xfer_bufsize
  pub size : length f.buffer ≡ xfer_bufsize
  pub bytes : IsBytes f.buffer

-- The stores so far are `goal`, or they will be once the write under way has ended.
pub data Agrees {Hw : Type 0} (goal : List (ℕ × ℕ)) (f : Flash Hw) : Type 0 where
  calm : in_erase f.state ≡ true → image f.bus.log ≡ goal → Agrees goal f
  writing :
      (before : List (ℕ × ℕ))
      → IsWriting before f.addr f.len f.buffer f
      → before ++ placed f.buffer f.addr 0 f.len ≡ goal
      → Agrees goal f

pub record IsSound {Hw : Type 0} (goal : List (ℕ × ℕ)) (f : Flash Hw) : Type 0 where
  pub context : IsContext f
  pub agrees : Agrees goal f

-- In the idle state nothing is left to be stored.
pub IsSound-idle :
    {Hw : Type 0} {goal : List (ℕ × ℕ)} {f : Flash Hw}
    → IsSound goal f
    → f.state ≡ idle
    → image f.bus.log ≡ goal
IsSound-idle {Hw = Hw} {goal = goal} {f = f} s st = settled f s.agrees st
  where
    settled : (f : Flash Hw) → Agrees goal f → f.state ≡ idle → image f.bus.log ≡ goal
    settled f (calm e same) h = same
    settled f (writing before w e) h =
        w.so_far ∙ ap (λ k. before ++ placed f.buffer f.addr 0 k) (w.complete h) ∙ e

-- What is stored is the first part of it.
pub IsSound-prefix :
    {Hw : Type 0} {goal : List (ℕ × ℕ)} {f : Flash Hw}
    → IsSound goal f
    → (rest : List (ℕ × ℕ)) × (image f.bus.log ++ rest ≡ goal)
IsSound-prefix {Hw = Hw} {goal = goal} {f = f} s = by_case s.agrees
  where
    by_case : Agrees goal f → (rest : List (ℕ × ℕ)) × (image f.bus.log ++ rest ≡ goal)
    by_case (calm st same) = ([], append-nil (image f.bus.log) ∙ same)
    by_case (writing before w e) =
        let left = f.len - f.offset in
        let whole : f.offset + left ≡ f.len = omega (arith, w.within) in
        (
          placed f.buffer f.addr (0 + f.offset) left,
          ap (λ (l : List (ℕ × ℕ)). l ++ placed f.buffer f.addr (0 + f.offset) left) w.so_far
              ∙ append_assoc before (placed f.buffer f.addr 0 f.offset)
                  (placed f.buffer f.addr (0 + f.offset) left)
              ∙ ap (λ (l : List (ℕ × ℕ)). before ++ l)
                  (sym (placed-append f.buffer f.addr 0 f.offset left))
              ∙ ap (λ k. before ++ placed f.buffer f.addr 0 k) whole
              ∙ e,
        )

-- A write under way agrees with what it will have stored.
IsWriting-Agrees :
    {Hw : Type 0} (goal before : List (ℕ × ℕ)) (addr n : ℕ) (buf : List ℕ) (f : Flash Hw)
    → IsWriting before addr n buf f
    → before ++ placed buf addr 0 n ≡ goal
    → Agrees goal f
IsWriting-Agrees goal before addr n buf f w e =
    writing before
      (record {
        writes = w.writes;
        same_addr = refl;
        same_len = refl;
        same_buffer = refl;
        fits = omega (arith, w.fits, w.same_len);
        within = omega (arith, w.within, w.same_len);
        complete = λ st. w.complete st ∙ sym w.same_len;
        so_far =
            w.so_far
            ∙ ap (λ b. before ++ placed b addr 0 f.offset) (sym w.same_buffer)
            ∙ ap (λ a. before ++ placed f.buffer a 0 f.offset) (sym w.same_addr);
      })
      (ap (λ b. before ++ placed b f.addr 0 f.len) w.same_buffer
        ∙ ap (λ a. before ++ placed buf a 0 f.len) w.same_addr
        ∙ ap (λ k. before ++ placed buf addr 0 k) w.same_len
        ∙ e)

module _ (H : Hardware) (C : FlashMasks) where
  calm-process :
      (goal : List (ℕ × ℕ)) (f : Flash H.Hw)
      → IsContext f
      → in_erase f.state ≡ true
      → image f.bus.log ≡ goal
      → IsSound goal (process H C f)
  calm-process goal f c st same =
      let e = process-IsErasing H C f f (record {
        erases = st;
        same_addr = refl;
        same_buffer = refl;
        same_len = refl;
        same_offset = refl;
        no_stores = refl;
      }) in
      record {
        context = record {
          within = ground (arith, c.within, e.same_len, e.same_offset);
          fits = ground (arith, c.fits, e.same_len);
          size = ap length e.same_buffer ∙ c.size;
          bytes = rw e.same_buffer c.bytes;
        };
        agrees = calm e.erases (e.no_stores ∙ same);
      }

  writing-process :
      (goal before : List (ℕ × ℕ)) (f : Flash H.Hw)
      → IsContext f
      → IsWriting before f.addr f.len f.buffer f
      → before ++ placed f.buffer f.addr 0 f.len ≡ goal
      → IsSound goal (process H C f)
  writing-process goal before f c w e =
      let w' = process-IsWriting H C before f.addr f.len f.buffer c.bytes f w in
      record {
        context = record {
          within = ground (arith, w'.within, w'.same_len);
          fits = ground (arith, c.fits, w'.same_len);
          size = ap length w'.same_buffer ∙ c.size;
          bytes = rw w'.same_buffer c.bytes;
        };
        agrees = IsWriting-Agrees goal before f.addr f.len f.buffer (process H C f) w' e;
      }

  -- A call of `flash_process` keeps to what was asked for.
  pub process-IsSound :
      (goal : List (ℕ × ℕ)) (f : Flash H.Hw) → IsSound goal f → IsSound goal (process H C f)
  process-IsSound goal f s = by_case s.agrees
    where
      by_case : Agrees goal f → IsSound goal (process H C f)
      by_case (calm st same) = calm-process goal f s.context st same
      by_case (writing before w e) = writing-process goal before f s.context w e

  -- An accepted erase asks for no stores.
  pub erase-IsSound :
      (goal : List (ℕ × ℕ)) (addr : ℕ) (f f₁ : Flash H.Hw)
      → IsSound goal f
      → erase_sector_async H C addr f ≡ (true, f₁)
      → IsSound goal f₁
  erase-IsSound goal addr f f₁ s h =
      let (st, e) = erase_accepted H C addr f f₁ h in
      rw e (record {
        context = record {
          within = s.context.within;
          fits = s.context.fits;
          size = s.context.size;
          bytes = s.context.bytes;
        };
        agrees = calm refl (IsSound-idle s st);
      })

  -- An accepted write asks for its bytes.
  pub write-IsSound :
      (goal : List (ℕ × ℕ)) (addr n : ℕ) (src : List ℕ) (f f₁ : Flash H.Hw)
      → IsSound goal f
      → n ≤ xfer_bufsize
      → n ≤ length src
      → IsBytes src
      → write_async H C addr src n f ≡ some (true, f₁)
      → IsSound (goal ++ placed src addr 0 n) f₁
  write-IsSound goal addr n src f f₁ s fits enough bytes h =
      let st = write_accepted H C addr n src f f₁ h in
      let copied = memcpy-IsCopied f.buffer src n (omega (arith, s.context.size)) enough in
      let (g, started) =
        write_async-IsStarted H C addr n src f st fits bytes s.context.bytes copied in
      let same : g ≡ f₁ = same_of g started.accepts in
      subst (λ f₁. IsSound (goal ++ placed src addr 0 n) f₁) same
        (record {
          context = record {
            within = omega (arith, started.writing.within, started.writing.same_len);
            fits = omega (arith, started.writing.fits, started.writing.same_len);
            size = started.size ∙ s.context.size;
            bytes = started.bytes;
          };
          agrees = IsWriting-Agrees _ (image f.bus.log) addr n g.buffer g started.writing (
              ap (λ (l : List (ℕ × ℕ)). image f.bus.log ++ l) started.image_of
              ∙ ap (λ (l : List (ℕ × ℕ)). l ++ placed src addr 0 n) (IsSound-idle s st));
        })
    where
      same_of : (g : Flash H.Hw) → write_async H C addr src n f ≡ some (true, g) → g ≡ f₁
      same_of g k = cc

-- So does what leaves the state and stores nothing.
pub bus-IsSound :
    {Hw : Type 0} (goal : List (ℕ × ℕ)) (f : Flash Hw) (b : Bus Hw)
    → IsSound goal f
    → image b.log ≡ image f.bus.log
    → IsSound goal (record f { bus = b })
bus-IsSound {Hw} goal f b s same = record {
  context = record {
    within = s.context.within;
    fits = s.context.fits;
    size = s.context.size;
    bytes = s.context.bytes;
  };
  agrees = by_case s.agrees;
}
  where
    by_case : Agrees goal f → Agrees goal (record f { bus = b })
    by_case (calm st e) = calm st (same ∙ e)
    by_case (writing before w e) =
        writing before
          (record {
            writes = w.writes;
            same_addr = refl;
            same_len = refl;
            same_buffer = refl;
            fits = w.fits;
            within = w.within;
            complete = w.complete;
            so_far = same ∙ w.so_far;
          })
          e
