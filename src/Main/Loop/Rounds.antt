-- ===== src/Main/Loop/Rounds.antt =====
-- What a row of rounds of the main loop keeps, if its steps keep it.
use mathlib.Core.Option
use cs7000p_bootloader.Base.{ℕ, suc, ◌+◌, ◌≡◌, refl, List, [], ◌∷◌, some, arith, length}
use cs7000p_bootloader.Bus.{Hardware}
use cs7000p_bootloader.Flash
use cs7000p_bootloader.Flash.{FlashMasks, OpState, xfer_bufsize}
use cs7000p_bootloader.Dfu.{DfuCodes, Dfuse}
use cs7000p_bootloader.Main.Loop.{
  Callback, Events, Machine, serve, serve_all, other_tasks, round, rounds,
}

-- Each callback of each round is one that `IsOk` says.
module _ (IsOk : Callback → Type 0) where
  abbrev pub All : List Callback → Type 0
  All [] = Unit
  All (c ∷ cs) = IsOk c × All cs

  abbrev pub AllEvents : List Events → Type 0
  AllEvents [] = Unit
  AllEvents (e ∷ es) = All e.callbacks × AllEvents es

module _ (H : Hardware) (C : FlashMasks) (U : DfuCodes) where
  -- A property of the device and of the number of rounds, that the callbacks and the calls of
  -- `flash_process` keep, holds after any row of rounds, and each of them comes to its end.
  module _ (IsOk : Callback → Type 0) (Keeps : ℕ → Dfuse H.Hw → Type 0)
      (serves : (n : ℕ) (c : Callback) (d : Dfuse H.Hw)
        → IsOk c
        → Keeps n d
        → (d' : Dfuse H.Hw) × (serve H C U c d ≡ some d') × Keeps n d')
      (processes : (n : ℕ) (d : Dfuse H.Hw)
        → Keeps n d
        → Keeps (suc n) (record d { flash = Flash.process H C d.flash })) where
    serve_all-keeps :
        (n : ℕ) (cs : List Callback) (d : Dfuse H.Hw)
        → All IsOk cs
        → Keeps n d
        → (d' : Dfuse H.Hw) × (serve_all H C U cs d ≡ some d') × Keeps n d'
    unfolding serve_all Option.bind
    serve_all-keeps n [] d q s = (d, refl, s)
    serve_all-keeps n (c ∷ cs) d q s =
        let (d₁, e, s₁) = serves n c d q.0 s in
        let (d₂, f, s₂) = serve_all-keeps n cs d₁ q.1 s₁ in (d₂, rw e f, s₂)

    pub rounds-keeps :
        (n : ℕ) (es : List Events) (m : Machine H.Hw)
        → AllEvents IsOk es
        → Keeps n m.dfu
        → (m' : Machine H.Hw) × (rounds H C U es m ≡ some m') × Keeps (length es + n) m'.dfu
    unfolding rounds round other_tasks Option.bind
    rounds-keeps n [] m q s = let none_left : 0 + n ≡ n = omega arith in (m, refl, rw none_left s)
    rounds-keeps n (e ∷ es) m q s =
        let (d₁, h, s₁) = serve_all-keeps n e.callbacks m.dfu q.0 s in
        let m₁ = (other_tasks H C U e m d₁).1 in
        let (m₂, h₂, s₂) = rounds-keeps (suc n) es m₁ q.1 (processes n d₁ s₁) in
        let counted : suc (length es) + n ≡ length es + suc n = omega arith in
        (m₂, rw h h₂, rw counted s₂)
