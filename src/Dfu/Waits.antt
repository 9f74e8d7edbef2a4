-- ===== src/Dfu/Waits.antt =====
-- A host that waits: while it does no more than poll the status, read blocks back or abort, the main
-- loop brings the flash to rest.
use cs7000p_bootloader.Base.{
  ℕ, zero, suc, ◌+◌, ◌-◌, ◌*◌, ◌≤◌, ◌<◌, ◌≡◌, ◌≢◌, ◌⊎◌, inl, inr, refl, ap, ◌∙◌, Bool, true, false,
  some, List, ◌++◌, arith, ◌==◌, if◌then◌else◌, not, ltb,
}
use cs7000p_bootloader.Bus.{Hardware, Bus, read}
use cs7000p_bootloader.Flash
use cs7000p_bootloader.Flash.{Flash, FlashMasks, OpState, xfer_bufsize}
use cs7000p_bootloader.Flash.Image.{image}
use cs7000p_bootloader.Flash.Progress.{Timing, stage, calls, process-IsNearer}
use cs7000p_bootloader.Flash.Sound.{IsContext, IsSound, IsSound-idle, process-IsSound}
use cs7000p_bootloader.Dfu.{
  DfuCodes, Request, Response, Dfuse, Answer, get_status, upload, read_memory, abort, block_address,
}
use cs7000p_bootloader.Dfu.Effects.{AreCodes, Effect, get_status-Effects}
use cs7000p_bootloader.Dfu.Session.{
  IsRequest, Session, Session-IsSound, IsContext-IsSound, Effect-of, upload-IsSound,
}

module _ (H : Hardware) (C : FlashMasks) (U : DfuCodes) where
  -- What the host does between two calls of `flash_process`: no request is the first GETSTATUS after a
  -- download.
  pub data Pause (d d' : Dfuse H.Hw) : Type 0 where
    polls :
        (alt : ℕ) (req : Request) (r : Response) (a : Answer H.Hw)
        → IsRequest req
        → req.state ≢ U.dnload_sync
        → get_status H C U alt req r d ≡ some a
        → d' ≡ a.dfu
        → Pause d d'
    uploads : (alt block len : ℕ) → d' ≡ (upload H C U alt block len d).1 → Pause d d'
    aborts : d' ≡ abort H C U d → Pause d d'

  -- `n` calls of `flash_process`, and pauses between them.
  pub data Waits (d : Dfuse H.Hw) : Dfuse H.Hw → ℕ → Type 0 where
    start : Waits d d 0
    processes :
        {d' : Dfuse H.Hw} {n : ℕ}
        → Waits d d' n
        → Waits d (record d' { flash = Flash.process H C d'.flash }) (suc n)
    pauses : {d' d'' : Dfuse H.Hw} {n : ℕ} → Waits d d' n → Pause d' d'' → Waits d d'' n

  polls-keep :
      (req : Request) (d : Dfuse H.Hw) (a : Answer H.Hw)
      → req.state ≢ U.dnload_sync
      → Effect H C U req d a
      → a.dfu.flash ≡ d.flash
  polls-keep req d a later (Effect.keeps t n e) = e
  polls-keep req d a later (Effect.erases t n first e) = absurd (later first)
  polls-keep req d a later (Effect.writes t n e) = absurd (later (ground arith))

  module _ {limit : ℕ} (T : Timing H C limit) where
    open T use {wait, flush}

    -- Nothing is further from its end than before.
    record IsNoFurther (f f' : Flash H.Hw) : Type 0 where
      same_state : f'.state ≡ f.state
      no_more : calls H C T f' ≤ calls H C T f

    read_memory-calm :
        (src i n : ℕ) (b : Bus H.Hw)
        → let b' = (read_memory H src i n b).1 in
          (wait b'.hw ≤ wait b.hw) × (flush b'.hw ≤ flush b.hw)
    unfolding read_memory read
    read_memory-calm src i zero b = omega arith
    read_memory-calm src i (suc n) b =
        omega (
          arith,
          read_memory-calm src (i + 1) n (read H b),
          T.wait_elapse b.hw,
          T.flush_elapse b.hw,
        )

    stage_mono :
        (s : OpState) (len left a b : ℕ)
        → a ≤ b
        → stage H C T s len left a ≤ stage H C T s len left b
    stage_mono s len left a b h = ground arith

    calmer-IsNoFurther :
        (f : Flash H.Hw) (b : Bus H.Hw)
        → wait b.hw ≤ wait f.bus.hw
        → flush b.hw ≤ flush f.bus.hw
        → IsNoFurther f (record f { bus = b })
    calmer-IsNoFurther f b hw hf =
        let fewer = stage_mono f.state f.len (f.len - f.offset) (flush b.hw) (flush f.bus.hw) hf in
        record { same_state = refl; no_more = sum_mono fewer hw }
      where
        sum_mono : {a a' b b' : ℕ} → a' ≤ a → b' ≤ b → a' * (limit + 1) + b' ≤ a * (limit + 1) + b
        sum_mono h k = grind arith

    same-IsNoFurther : (f f' : Flash H.Hw) → f' ≡ f → IsNoFurther f f'
    same-IsNoFurther f f' e = rw e (record { same_state = refl; no_more = omega arith })

    IsNoFurther-if :
        (f : Flash H.Hw) (b : Bool) (x y : List ℕ × Dfuse H.Hw)
        → IsNoFurther f x.1.flash
        → IsNoFurther f y.1.flash
        → IsNoFurther f (if b then x else y).1.flash
    IsNoFurther-if f true x y hx hy = hx
    IsNoFurther-if f false x y hx hy = hy

    upload-IsNoFurther :
        (alt block len : ℕ) (d : Dfuse H.Hw)
        → IsNoFurther d.flash (upload H C U alt block len d).1.flash
    unfolding upload
    upload-IsNoFurther alt block len d =
        let src = block_address d.base_addr block in
        let calm = read_memory-calm src 0 len d.flash.bus in
        let same = same-IsNoFurther d.flash d.flash refl in
        IsNoFurther-if d.flash (not (alt == 0)) _ _ same (
          IsNoFurther-if d.flash (block == 0) _ _
            (IsNoFurther-if d.flash d.last_was_get_cmds _ _ same same)
            (IsNoFurther-if d.flash (not d.have_addr) _ _ same (
              IsNoFurther-if d.flash (ltb block 2) _ _ same
                (calmer-IsNoFurther d.flash _ calm.0 calm.1))))

    -- A pause keeps to what was asked for, and takes nothing further from its end.
    record IsCalm (goal : List (ℕ × ℕ)) (d d' : Dfuse H.Hw) : Type 0 where
      sound : IsSound goal d'.flash
      no_further : IsNoFurther d.flash d'.flash

    Pause-IsCalm :
        {d d' : Dfuse H.Hw} (goal : List (ℕ × ℕ))
        → AreCodes U
        → IsSound goal d.flash
        → Pause d d'
        → IsCalm goal d d'
    unfolding abort
    Pause-IsCalm {d} goal k s (polls alt req r a q later h e) =
        let effect =
          Effect-of H C U (get_status-Effects H C U k r d s.context.size req q.enough q.fits alt) a
            h in
        let same = polls-keep req d a later effect in
        rw e (record { sound = rw same s; no_further = same-IsNoFurther d.flash a.dfu.flash same })
    Pause-IsCalm {d} goal k s (uploads alt block len e) = rw e (record {
      sound = upload-IsSound H C U goal alt block len d s;
      no_further = upload-IsNoFurther alt block len d;
    })
    Pause-IsCalm {d} goal k s (aborts e) =
        rw e (record { sound = s; no_further = same-IsNoFurther d.flash d.flash refl })

    -- Each call of `flash_process` counts.
    record IsNearer (goal : List (ℕ × ℕ)) (n : ℕ) (d d' : Dfuse H.Hw) : Type 0 where
      sound : IsSound goal d'.flash
      nearer : (d'.flash.state ≡ OpState.idle) ⊎ (calls H C T d'.flash + n ≤ calls H C T d.flash)

    process_idle : (f : Flash H.Hw) → f.state ≡ OpState.idle → Flash.process H C f ≡ f
    unfolding Flash.process Flash.process_in
    process_idle f st = ap (λ s. Flash.process_in H C s f) st

    Waits-IsNearer :
        {d d' : Dfuse H.Hw} {n : ℕ} (goal : List (ℕ × ℕ))
        → AreCodes U
        → IsSound goal d.flash
        → Waits d d' n
        → IsNearer goal n d d'
    Waits-IsNearer goal k s start = record { sound = s; nearer = inr (omega arith) }
    Waits-IsNearer {d} goal k s (processes {d' = d'} {n = n} before) =
        let ih = Waits-IsNearer goal k s before in
        let c = ih.sound.context in
        record {
          sound = process-IsSound H C goal d'.flash ih.sound;
          nearer = elim ih.nearer [
            | inl rest ↦ inl (ap (λ (f : Flash H.Hw). f.state) (process_idle d'.flash rest) ∙ rest)
            | inr m ↦ elim (process-IsNearer H C T d'.flash c.within c.fits) [
              | inl rest ↦ inl rest
              | inr fewer ↦ inr (omega arith)
            ]
          ];
        }
    Waits-IsNearer {d} goal k s (pauses {d' = d'} before pause) =
        let ih = Waits-IsNearer goal k s before in
        let calm = Pause-IsCalm goal k ih.sound pause in
        record {
          sound = calm.sound;
          nearer = elim ih.nearer [
            | inl rest ↦ inl (calm.no_further.same_state ∙ rest)
            | inr m ↦ inr (omega (arith, calm.no_further.no_more))
          ];
        }

    calls_bound :
        (f : Flash H.Hw) → IsContext f → calls H C T f ≤ (3 * xfer_bufsize + 5) * (limit + 1)
    calls_bound f c =
        let few : stage H C T f.state f.len (f.len - f.offset) (flush f.bus.hw)
            ≤ 3 * xfer_bufsize + 4 =
          stage_bound f.state (flush f.bus.hw) (T.flush_limit f.bus.hw) in
        omega (arith, ap_le few, T.wait_limit f.bus.hw)
      where
        stage_bound :
            (s : OpState) (a : ℕ)
            → a ≤ 2
            → stage H C T s f.len (f.len - f.offset) a ≤ 3 * xfer_bufsize + 4
        stage_bound s a h = ground (arith, c.fits)

        ap_le : {a b : ℕ} → a ≤ b → a * (limit + 1) ≤ b * (limit + 1)
        ap_le h = grind arith

    -- After any session, from an idle state, and then a wait with enough calls of `flash_process`,
    -- however the host's polls, uploads and aborts fall between them: the flash is idle, and all
    -- blocks that the host was told are being written are stored, and nothing else.
    pub Session-completes :
        {d₀ d d' : Dfuse H.Hw} {w : List (ℕ × ℕ)} {n : ℕ}
        → AreCodes U
        → IsContext d₀.flash
        → d₀.flash.state ≡ OpState.idle
        → Session H C U d₀ d w
        → Waits d d' n
        → (3 * xfer_bufsize + 5) * (limit + 1) < n
        → (d'.flash.state ≡ OpState.idle) × (image d'.flash.bus.log ≡ image d₀.flash.bus.log ++ w)
    Session-completes {d₀} {d} {d'} {w} k c st session waits enough =
        let s = Session-IsSound H C U k (IsContext-IsSound H C U d₀.flash c st) session in
        let ends = Waits-IsNearer (image d₀.flash.bus.log ++ w) k s waits in
        let rest : d'.flash.state ≡ OpState.idle = elim ends.nearer [
          | inl i ↦ i
          | inr m ↦ absurd (omega (arith, calls_bound d.flash s.context))
        ] in
        (rest, IsSound-idle ends.sound rest)
