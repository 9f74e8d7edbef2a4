-- ===== src/Lib.antt =====
-- The bootloader of the CS7000-M17 Plus: it writes an application to bank 2 of the flash of an
-- STM32H7, as a host sends it over USB.
--
-- TinyUSB calls `tud_dfu_get_status_cb` and its kin in src/dfu_tinyusb.c for each request of the
-- host. These start an erase or a write with the asynchronous functions of src/dfu_flash.c, and
-- answer until it is over. The main loop calls `flash_process`, which takes an operation one step
-- further whenever the flash has worked its queue off. src/gpio.c sets the pins of the ports, and 24
-- more outputs behind a shift register.
--
-- Base holds the library's names and the lemmas that the parts share: tests and conditionals, lists
-- indexed by native numbers, words, and binary digits. Bus is the part that the code does not have
-- itself: a record `Hardware` of what the peripherals return and how they change, and a `Bus` that
-- keeps every access in order. `volatile` accesses become calls of `read` and `emit`, so that the
-- order of the accesses is the source's.
--
-- Flash is src/dfu_flash.c: the record `Flash` is `flash_ctx`, and each `flash_…` function has the
-- definition of that name, the cases of the `switch` of `flash_process` one each. Dfu is
-- src/dfu_tinyusb.c: `Dfuse` is `dfuse_ctx`, `get_status`, `upload`, `mount` and `abort` are the
-- callbacks. Gpio is src/gpio.c with the inline functions of include/gpio.h: `Registers` is a port's
-- configuration, `ShiftReg` is `srData_extGpio`.
--
-- Dfu.Session puts these together: a session is any row of callbacks and calls of `flash_process`,
-- and it keeps the bytes that the host was told are being written. In it USB is mounted only while
-- the flash is at rest; Dfu.Interrupted has what happens otherwise. Main.Loop is the main loop: each
-- round takes the callbacks that `tud_task` makes, and the other three tasks follow. Main.Loop.Fresh
-- starts it from the static variables of the program. Dfu.Transfer is a host that sends a whole
-- image, block after block, and Main.Loop.Download has it do so from the start of the program.
--
-- Gpio.Dev has the devices of include/gpio.h, a port or the shift register behind a table of
-- functions, and Gpio.Levels all outputs of both as one family. PinMap is include/pinmap.h. Usb is
-- the string descriptors of src/usb_descriptors.c, and Usb.Descriptors the other two, whose parts
-- macros of TinyUSB make. Startup is `program_startup` of src/startup.c, a row of statements on a
-- memory of bytes, and Startup.Vectors the vector table.
--
-- Chip has the statements that set registers up, as a data type, and a record of what the registers
-- return and how they change. Chip.Shadow is what the statements do to the bits that only the
-- program changes; Chip.Laws says how a chip is to behave, and that it then follows the shadow.
-- Clock is src/clock.c as such a row of statements. Init is src/init.c and `backup_init`: rows of
-- such statements, of settings of ports, of accesses to the backup register and of calls. A port or
-- a register of USB without its clock, or a closed backup register, is `none`. Init.Boot has the
-- rows of the calls of `main`, so that a run goes from a reset to the main loop; Init.Boot.Ways has
-- the three ways through it, and Init.Boot.Ready the state in which it enters the bootloader. Delay
-- is src/delay.c, with the rounds of its loops.
--
-- Gpio.Chain is the device at the other end of the lines of the shift register, and Gpio.Shown the
-- states in which its outputs are what the program reads. Gpio.Meaning has the modes of a pin as the
-- reference manual names them. Main is src/main.c: `main` is the row of its calls up to the loop,
-- which the last of them stands for, and the LED, the serial line and the printing of a number are
-- functions; Main.Light has the LED on the board. BootJump is src/boot_jump.c, a row of accesses
-- that BootJump.Handover runs on the part of the core that the application depends on.
--
-- Numbers are native, with the wrap of a C type written out. A copy out of bounds is `none`. The
-- loops of the blocking functions have fuel, and `none` if it runs out. The amount that is enough
-- depends on the flash: `limit` is the number of reads of SR2 for which it can stay queued, and a
-- write of n bytes needs at most (3 * n + 5) * (limit + 1) rounds, since each chunk, each forced
-- flush and each change of state waits at most that long. What the flash does is a hypothesis
-- (Flash.Progress.Timing, Flash.Layout.IsStable), and so is the position of the masks in the header
-- of the manufacturer (Flash.Layout.IsLayout); Flash.Tests has a chip for which they hold. The loops
-- of the set-up have one fuel for each: `limit` is the number of reads of a register within which
-- its flag comes (Chip.Laws.IsChip; Chip.Tests has such a chip).
--
-- Not modelled: the logging, which the build leaves out, the stub of src/syscalls.c, how long the
-- delays take, and the libraries TinyUSB and STM32CubeH7, which the repository refers to. Interrupts
-- do not interleave with the modelled functions; the callbacks and `flash_process` run in the same
-- loop.
pub mod Base
pub mod Bus
pub mod Flash
pub mod Dfu
pub mod Gpio
pub mod Main
pub mod BootJump
pub mod PinMap
pub mod Usb
pub mod Startup
pub mod Chip
pub mod Clock
pub mod Init
pub mod Delay
