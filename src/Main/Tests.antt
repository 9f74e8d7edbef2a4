-- ===== src/Main/Tests.antt =====
-- Runs on which the theorems on src/main.c are tried.
use cs7000p_bootloader.Base.{
  ℕ, zero, suc, refl, get_or, ◌+◌, ◌^◌, ◌<◌, ◌≡◌, ◌≢◌, true, false, not, List, [], ◌∷◌, ◌++◌, arith,
  ltb, if◌then◌else◌, length,
}
use cs7000p_bootloader.Main.{Call, boot_magic_go_app, Led, led_blinking_task, print_unsigned_int}
use cs7000p_bootloader.Main.Boot.{Boots, main_unpressed}
use cs7000p_bootloader.Gpio.Dev.{Board}
use cs7000p_bootloader.Gpio.Outputs.{IsShiftReg}
use cs7000p_bootloader.Gpio.Chain.{Chain, receive}
use cs7000p_bootloader.Gpio.Wire.{reads}
use cs7000p_bootloader.Gpio.Shown.{IsShown}
use cs7000p_bootloader.Main.Light.{IsLit, blink_all, blink_all-IsLit}
use cs7000p_bootloader.Main.Blink.{elapsed, led_blinking_task_lem}
use cs7000p_bootloader.Main.Print.{hex_value, hex_value-print}

main_unpressed_example :
    Boots 7 1 Call.system_reset boot_magic_go_app
    × Boots boot_magic_go_app 0 Call.jump_to_application 0
    × (0 ≢ boot_magic_go_app)
main_unpressed_example = main_unpressed 7 0 (omega arith)

-- The tick count has wrapped.
abbrev led : Led
led = record { start_ms = 4294967200; led_state = true }

led_blinking_task_lem_example :
    let (writes, l') = led_blinking_task 200 led in
    if ltb (elapsed 200 led) 250
    then (writes ≡ []) × (l' ≡ led)
    else ((writes ≡ true ∷ [])
        × (l'.led_state ≡ not true)
        × (elapsed 200 l' + 250 ≡ elapsed 200 led)
        × (l'.start_ms < 2 ^ 32))
led_blinking_task_lem_example = led_blinking_task_lem 200 led (omega arith) (omega arith)

abbrev board : Board
board = record {
  regs = λ port. record {
    moder = 0;
    otyper = 0;
    pupdr = 0;
    ospeedr = 0;
    afr_0 = 0;
    afr_1 = 0;
    idr = 0;
  };
  outputs = record { sr_data = 0 ∷ 0x12 ∷ 0 ∷ []; log = [] };
}

board-IsShiftReg : IsShiftReg board.outputs
board-IsShiftReg = record { size = refl; bytes = small }
  where
    small : (i : ℕ) → get_or board.outputs.sr_data i 0 < 2 ^ 8
    small zero = omega arith
    small (suc zero) = omega arith
    small (suc (suc zero)) = omega arith
    small (suc (suc (suc i))) = omega arith

-- The chain shows the two outputs that are set.
abbrev chain : Chain
chain = record {
  clk = true;
  dat = false;
  str = true;
  shifted = [];
  latched = reads board.outputs 0 24;
}

board-IsShown : IsShown chain board.outputs
unfolding reads receive
board-IsShown = record { array = board-IsShiftReg; shown = refl }

blink_all-IsLit_example :
    let (l', b') = blink_all (100 ∷ 200 ∷ 500 ∷ []) (led, board) in IsLit chain led board l' b'
blink_all-IsLit_example = blink_all-IsLit chain (100 ∷ 200 ∷ 500 ∷ []) led board board-IsShown

hex_value-print_example :
    (digits : List ℕ) × (print_unsigned_int 0x1234ABCD ≡ 48 ∷ 120 ∷ (digits ++ (13 ∷ 10 ∷ [])))
    × (length digits ≡ 8)
    × (hex_value 0 digits ≡ 0x1234ABCD)
hex_value-print_example = hex_value-print 0x1234ABCD (omega arith)
