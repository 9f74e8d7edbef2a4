-- ===== src/Main.antt =====
-- The code of src/main.c: the decision between bootloader and application, the LED, and the number
-- that is printed.
pub mod Boot
pub mod Blink
pub mod Light
pub mod Print
pub mod Loop
mod Tests
use cs7000p_bootloader.Base.{
  ℕ, zero, suc, ◌+◌, ◌-◌, ◌*◌, ◌/◌, ◌^◌, Bool, true, not, List, [], ◌∷◌, ◌++◌, bit_and, ltb, ◌==◌,
  if◌then◌else◌, get_or, set, u32, ◌&&◌, Option, none, some,
}
use cs7000p_bootloader.Gpio.{Registers, read_pin}
use cs7000p_bootloader.Gpio.Dev.{Board, ext_gpio, dev_set, dev_clear}

-- `BOOT_MAGIC_GO_APP`.
abbrev pub boot_magic_go_app : ℕ
boot_magic_go_app = 0xDEADB007

-- What `main` and what it calls do to the outside, one entry for a call or a register access.
pub data Call : Type 0 where
  backup_init read_flag : Call
  write_flag : ℕ → Call
  jump_to_application gpio_init alarm_key_input : Call
  delay_us : ℕ → Call
  read_alarm_key system_reset start_pll shift_reg_init phone_txd_output : Call
  red_led : Bool → Call
  flash_init usb_init irq_init main_loop : Call

-- `bootflag_get`, `bootflag_set`, `bootflag_clear` and `reboot_into_application`.
unfoldable pub bootflag_get : List Call
bootflag_get = Call.backup_init ∷ Call.read_flag ∷ []

unfoldable pub bootflag_set : ℕ → List Call
bootflag_set v = Call.backup_init ∷ Call.write_flag v ∷ []

unfoldable pub bootflag_clear : List Call
unfolding bootflag_set
bootflag_clear = bootflag_set 0

unfoldable pub reboot_into_application : List Call
unfolding bootflag_set
reboot_into_application = bootflag_set boot_magic_go_app ++ (Call.system_reset ∷ [])

-- `main`, for the value `flag` of the backup register and the level `key` of the key. A jump to the
-- application, a reset and the main loop do not return.
unfoldable pub main : (flag key : ℕ) → List Call
main flag key =
    bootflag_get
    ++ (if flag == boot_magic_go_app
        then bootflag_clear ++ (Call.jump_to_application ∷ [])
        else (Call.gpio_init
            ∷ Call.alarm_key_input
            ∷ Call.delay_us 500
            ∷ Call.read_alarm_key
            ∷ (if key == 1
                then reboot_into_application
                else (Call.start_pll
                    ∷ Call.shift_reg_init
                    ∷ Call.phone_txd_output
                    ∷ Call.red_led true
                    ∷ Call.flash_init
                    ∷ Call.usb_init
                    ∷ Call.irq_init
                    ∷ Call.main_loop
                    ∷ []))))

-- `led_write`: the red LED is output 13 of the shift register.
abbrev pub red_led_pin : ℕ
red_led_pin = 13

unfoldable pub led_write : Bool → Board → Board
led_write state b =
    if state then dev_set ext_gpio red_led_pin b else dev_clear ext_gpio red_led_pin b

-- The two static variables of `led_blinking_task`.
pub record Led : Type 0 where
  pub start_ms : ℕ
  pub led_state : Bool

abbrev pub blink_interval_ms : ℕ
blink_interval_ms = 250

-- `led_blinking_task`, when `g_tickCount` is `tick`, with the writes to the LED.
unfoldable pub led_blinking_task : ℕ → Led → List Bool × Led
led_blinking_task tick l =
    if ltb (u32 (tick + 2 ^ 32 - l.start_ms)) blink_interval_ms then ([], l) else (
      l.led_state ∷ [],
      record { start_ms = u32 (l.start_ms + blink_interval_ms); led_state = not l.led_state },
    )

-- The strings of `printUnsignedInt`.
abbrev pub hexdigits : List ℕ
hexdigits = 48 ∷ 49 ∷ 50 ∷ 51 ∷ 52 ∷ 53 ∷ 54 ∷ 55 ∷ 56 ∷ 57 ∷ 65 ∷ 66 ∷ 67 ∷ 68 ∷ 69 ∷ 70 ∷ []

abbrev pub blank_result : List ℕ
blank_result = 48 ∷ 120 ∷ 46 ∷ 46 ∷ 46 ∷ 46 ∷ 46 ∷ 46 ∷ 46 ∷ 46 ∷ 13 ∷ 10 ∷ []

-- The loop, with `n` rounds left: the index is `n + 1`.
unfoldable pub fill_digits : List ℕ → ℕ → ℕ → List ℕ
fill_digits result x zero = result
fill_digits result x (suc n) =
    fill_digits (set result (n + 2) (get_or hexdigits (bit_and x 0xf) 0)) (x / 2 ^ 4) n

-- `printUnsignedInt`: the characters that it writes.
unfoldable pub print_unsigned_int : ℕ → List ℕ
print_unsigned_int x = fill_digits blank_result x 8

-- `button_read`, on the registers of the key's port.
unfoldable pub button_read : Registers → Bool
button_read port_e = read_pin 10 port_e == 1

-- `cdc_task`: the transfers that it writes to the host, each then flushed, and `btn_prev`. What
-- `tud_cdc_read` has read, if `tud_cdc_available` said that there is something, is an argument;
-- `CDC_LOG` is nothing unless `DEBUG_DEBUG_DEBUG` is defined.
unfoldable pub cdc_task :
    Option (List ℕ) → (tick : ℕ) → (btn btn_prev : Bool) → List (List ℕ) × Bool
cdc_task received tick btn btn_prev =
    (echo received ++ (if (not btn_prev) && btn then print_unsigned_int tick ∷ [] else []), btn)
  where
    echo : Option (List ℕ) → List (List ℕ)
    echo none = []
    echo (some buf) = buf ∷ []
