-- ===== src/Main/Loop/Served.antt =====
-- The main loop of src/main.c as a session of src/dfu_tinyusb.c: it always goes on, and it keeps to
-- what the sessions promise.
use mathlib.Core.Option
use cs7000p_bootloader.Base.{
  ℕ, suc, ◌+◌, ◌*◌, ◌<◌, ◌≡◌, ◌≢◌, refl, List, [], ◌++◌, Option, some, arith, length,
}
use cs7000p_bootloader.Bus.{Hardware}
use cs7000p_bootloader.Flash
use cs7000p_bootloader.Flash.{FlashMasks, OpState, xfer_bufsize}
use cs7000p_bootloader.Flash.Image.{image}
use cs7000p_bootloader.Flash.Progress.{Timing}
use cs7000p_bootloader.Flash.Sound.{IsContext}
use cs7000p_bootloader.Dfu.{DfuCodes, Request, Response, Dfuse, Answer, get_status}
use cs7000p_bootloader.Dfu.Effects.{AreCodes, Effects, get_status-Effects}
use cs7000p_bootloader.Dfu.Session.{
  IsRequest, Turn, Session, start, later, Session-IsSound, IsContext-IsSound,
}
use cs7000p_bootloader.Dfu.Waits.{Pause, Waits, Session-completes}
use cs7000p_bootloader.Main.Loop.Rounds.{AllEvents, rounds-keeps}
use cs7000p_bootloader.Main.Loop.{Callback, Events, Machine, serve, rounds}

-- A callback with a request as TinyUSB makes it.
abbrev pub IsCallback : Callback → Type 0
IsCallback (Callback.status_asked alt req r) = IsRequest req
IsCallback _ = Unit

module _ (H : Hardware) (C : FlashMasks) (U : DfuCodes) where
  -- That of a host that waits: no request is the first GETSTATUS after a download.
  abbrev pub IsPatient : Callback → Type 0
  IsPatient (Callback.status_asked alt req r) = IsRequest req × (req.state ≢ U.dnload_sync)
  IsPatient _ = Unit

  answered :
      {req : Request} {d : Dfuse H.Hw} {o : Option (Answer H.Hw)}
      → Effects H C U req d o
      → (a : Answer H.Hw) × (o ≡ some a)
  answered (Effects.effects {a = a} f e) = (a, refl)

  module _ (k : AreCodes U) (d₀ : Dfuse H.Hw) (context : IsContext d₀.flash)
      (at_rest : d₀.flash.state ≡ OpState.idle) where
    status_answered :
        (alt : ℕ) (req : Request) (r : Response) (d : Dfuse H.Hw) (w : List (ℕ × ℕ))
        → IsRequest req
        → Session H C U d₀ d w
        → (a : Answer H.Hw) × (get_status H C U alt req r d ≡ some a)
    status_answered alt req r d w q s =
        let sound = Session-IsSound H C U k (IsContext-IsSound H C U d₀.flash context at_rest) s in
        answered (get_status-Effects H C U k r d sound.context.size req q.enough q.fits alt)

    abbrev pub InSession : ℕ → Dfuse H.Hw → Type 0
    InSession n d = (w : List (ℕ × ℕ)) × Session H C U d₀ d w

    serve-InSession :
        (n : ℕ) (c : Callback) (d : Dfuse H.Hw)
        → IsCallback c
        → InSession n d
        → (d' : Dfuse H.Hw) × (serve H C U c d ≡ some d') × InSession n d'
    unfolding serve Option.bind
    serve-InSession n (Callback.status_asked alt req r) d q (w, s) =
        let (a, e) = status_answered alt req r d w q s in
        (a.dfu, rw e refl, (_, later s (Turn.asks alt req r a q e refl refl)))
    serve-InSession n (Callback.block_read alt block len) d q (w, s) =
        (_, refl, (_, later s (Turn.uploads alt block len refl refl)))
    serve-InSession n Callback.aborted d q (w, s) = (_, refl, (_, later s (Turn.aborts refl refl)))

    process-InSession :
        (n : ℕ) (d : Dfuse H.Hw)
        → InSession n d
        → InSession (suc n) (record d { flash = Flash.process H C d.flash })
    process-InSession n d (w, s) = (_, later s (Turn.processes refl refl))

    -- The same for a host that waits since `d₁`.
    module _ (d₁ : Dfuse H.Hw) where
      abbrev Waiting : ℕ → Dfuse H.Hw → Type 0
      Waiting n d = InSession n d × Waits H C U d₁ d n

      serve-Waiting :
          (n : ℕ) (c : Callback) (d : Dfuse H.Hw)
          → IsPatient c
          → Waiting n d
          → (d' : Dfuse H.Hw) × (serve H C U c d ≡ some d') × Waiting n d'
      unfolding serve Option.bind
      serve-Waiting n (Callback.status_asked alt req r) d q ((w, s), waits) =
          let (a, e) = status_answered alt req r d w q.0 s in
          (
            a.dfu,
            rw e refl,
            (
              (_, later s (Turn.asks alt req r a q.0 e refl refl)),
              Waits.pauses waits (Pause.polls alt req r a q.0 q.1 e refl),
            ),
          )
      serve-Waiting n (Callback.block_read alt block len) d q ((w, s), waits) = (
        _,
        refl,
        (
          (_, later s (Turn.uploads alt block len refl refl)),
          Waits.pauses waits (Pause.uploads alt block len refl),
        ),
      )
      serve-Waiting n Callback.aborted d q ((w, s), waits) =
          (_, refl, ((_, later s (Turn.aborts refl refl)), Waits.pauses waits (Pause.aborts refl)))

  -- From a machine with an idle flash, and for callbacks with requests as TinyUSB makes them, any row
  -- of rounds of the main loop comes to its end, and what it does to the device is a session.
  rounds-Session :
      (m : Machine H.Hw) (es : List Events)
      → AreCodes U
      → IsContext m.dfu.flash
      → m.dfu.flash.state ≡ OpState.idle
      → AllEvents IsCallback es
      → (m' : Machine H.Hw) × (w : List (ℕ × ℕ)) × (rounds H C U es m ≡ some m')
        × Session H C U m.dfu m'.dfu w
  rounds-Session m es k context at_rest q =
      let (m', h, (w, s)) =
        rounds-keeps H C U IsCallback (InSession k m.dfu context at_rest)
          (serve-InSession k m.dfu context at_rest) (process-InSession k m.dfu context at_rest) 0 es
          m q ([], start) in
      (m', w, h, s)

  -- Rounds with any callbacks, and then enough rounds in which the host waits, come to their end: the
  -- flash is idle, and the accesses have stored what the session of the first rounds promises
  -- and nothing else. The chip works off its queues within `limit` reads.
  pub rounds_complete :
      {limit : ℕ} (m : Machine H.Hw) (es quiet : List Events)
      → Timing H C limit
      → AreCodes U
      → IsContext m.dfu.flash
      → m.dfu.flash.state ≡ OpState.idle
      → AllEvents IsCallback es
      → AllEvents IsPatient quiet
      → (3 * xfer_bufsize + 5) * (limit + 1) < length quiet
      → (m' : Machine H.Hw) × (m'' : Machine H.Hw) × (w : List (ℕ × ℕ)) × (rounds H C U es m
          ≡ some m')
        × Session H C U m.dfu m'.dfu w
        × (rounds H C U quiet m' ≡ some m'')
        × (m''.dfu.flash.state ≡ OpState.idle)
        × (image m''.dfu.flash.bus.log ≡ image m.dfu.flash.bus.log ++ w)
  rounds_complete m es quiet T k context at_rest q p enough =
      let (m', w, h, s) = rounds-Session m es k context at_rest q in
      let (m'', h', (_, waits)) =
        rounds-keeps H C U IsPatient (Waiting k m.dfu context at_rest m'.dfu)
          (serve-Waiting k m.dfu context at_rest m'.dfu)
          (λ n d (t, v). (process-InSession k m.dfu context at_rest n d t, Waits.processes v)) 0
          quiet m' p ((w, s), Waits.start) in
      let counted : length quiet + 0 ≡ length quiet = omega arith in
      let (rest, stored) =
        Session-completes H C U T k context at_rest s waits (rw counted enough) in
      (m', m'', w, h, s, h', rest, stored)
