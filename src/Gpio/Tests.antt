-- ===== src/Gpio/Tests.antt =====
-- Ports and outputs on which the theorems on src/gpio.c are tried.
use cs7000p_bootloader.Base.{
  Bool, ℕ, zero, suc, ◌^◌, ◌<◌, ◌≡◌, refl, true, false, List, [], ◌∷◌, ◌++◌, take, arith, get_or,
}
use cs7000p_bootloader.Gpio.{Registers, ShiftReg, shift_reg_modify}
use cs7000p_bootloader.Gpio.Chain.{Chain, receive}
use cs7000p_bootloader.Gpio.Wire.{reads, receive-modify}
use cs7000p_bootloader.Bus.{Access, Port, gpioa}
use cs7000p_bootloader.Gpio.Outputs.{IsShiftReg}
use cs7000p_bootloader.Gpio.Fields.{IsRegisters}
use cs7000p_bootloader.Gpio.Dev.{Board, pin_set_mode}
use cs7000p_bootloader.Gpio.Levels.{port_pin, pin_of, ext_pin, out_level, pin_write}
use cs7000p_bootloader.Gpio.Modes.{HasMode, pin_set_mode-HasMode}
use cs7000p_bootloader.Gpio.Shown.{IsShown}
use cs7000p_bootloader.Gpio.Writes.{pin_write-level}

abbrev pub outputs : ShiftReg
outputs = record { sr_data = 0x81 ∷ 0x40 ∷ 0 ∷ []; log = [] }

pub outputs-IsShiftReg : IsShiftReg outputs
outputs-IsShiftReg = record { size = refl; bytes = bytes_of }
  where
    bytes_of : (i : ℕ) → get_or (0x81 ∷ 0x40 ∷ 0 ∷ []) i 0 < 2 ^ 8
    bytes_of zero = omega arith
    bytes_of (suc zero) = omega arith
    bytes_of (suc (suc zero)) = omega arith
    bytes_of (suc (suc (suc i))) = omega arith

abbrev port : Registers
port = record {
  moder = 0xabffffff;
  otyper = 0;
  pupdr = 0x64000000;
  ospeedr = 0x0c000000;
  afr_0 = 0x11;
  afr_1 = 0;
  idr = 5;
}

port-IsRegisters : IsRegisters port
port-IsRegisters = record {
  moder = omega arith;
  otyper = omega arith;
  pupdr = omega arith;
  afr_0 = omega arith;
  afr_1 = omega arith;
}

-- Lines and bits as something else has left them.
abbrev chain : Chain
chain = record {
  clk = true;
  dat = false;
  str = false;
  shifted = true ∷ [];
  latched = true ∷ true ∷ [];
}

receive-modify_example :
    let s' = shift_reg_modify 17 true outputs in
    (l : List Access) × (s'.log ≡ [] ++ l) × (take 24 (receive l chain).latched ≡ reads s' 0 24)
receive-modify_example = receive-modify 17 true outputs chain outputs-IsShiftReg (omega arith)

-- The shift register with some outputs set, and ports as they are after a reset.
abbrev pub board : Board
board = record { regs = λ p. port; outputs = outputs }

abbrev pub all_low : Port → ℕ → Bool
all_low p n = false

-- Its outputs as the program reads them.
abbrev pub shown_chain : Chain
shown_chain = record {
  clk = true;
  dat = false;
  str = true;
  shifted = [];
  latched = reads outputs 0 24;
}

pub outputs-IsShown : IsShown shown_chain outputs
unfolding reads receive
outputs-IsShown = record { array = outputs-IsShiftReg; shown = refl }

pin_write-level_example :
    out_level all_low shown_chain (ext_pin 14) (pin_write (ext_pin 14) true board) ≡ true
pin_write-level_example =
    pin_write-level all_low shown_chain (ext_pin 14) (ext_pin 14) true board (omega arith)
      (omega arith) refl refl outputs-IsShown

-- Alternate function 10 of pin 11 of port A, as for the USB data line.
pin_set_mode-HasMode_example :
    HasMode
      (port_pin gpioa 11)
      0x0a07
      board
      (pin_set_mode (pin_of (port_pin gpioa 11)) 0x0a07 board)
pin_set_mode-HasMode_example =
    pin_set_mode-HasMode (port_pin gpioa 11) 0x0a07 board (omega arith) (λ p. port-IsRegisters)
