-- ===== src/Main/Boot.antt =====
-- The way from reset to reset in src/main.c, through the flag in the backup register.
use cs7000p_bootloader.Base.{ℕ, ◌≡◌, ◌≢◌, refl, false, List, [], ◌∷◌, arith, ◌==◌}
use cs7000p_bootloader.Main.{
  Call, boot_magic_go_app, bootflag_get, bootflag_clear, reboot_into_application, main,
}

-- The flag after a row of calls.
unfoldable pub flag_after : List Call → ℕ → ℕ
flag_after [] flag = flag
flag_after (Call.write_flag v ∷ l) flag = flag_after l v
flag_after (_ ∷ l) flag = flag_after l flag

-- How a row of calls ends.
pub last_call : List Call → Call → Call
last_call [] c = c
last_call (c ∷ l) d = last_call l c

-- A run of `main` ends in `c`, with the backup register at `flag'`.
abbrev pub Boots : (flag key : ℕ) → Call → ℕ → Type 0
Boots flag key c flag' =
    (last_call (main flag key) Call.backup_init ≡ c) × (flag_after (main flag key) flag ≡ flag')

-- With the key up (level 1) and no request in the backup register, `main` resets the chip, and the
-- run after that reset jumps to the application, whatever the key then is, with the register clear:
-- the run after any later reset is one without a request.
pub main_unpressed :
    (flag key : ℕ)
    → flag ≢ boot_magic_go_app
    → Boots flag 1 Call.system_reset boot_magic_go_app
      × Boots boot_magic_go_app key Call.jump_to_application 0
      × (0 ≢ boot_magic_go_app)
unfolding main bootflag_get bootflag_clear reboot_into_application last_call flag_after
main_unpressed flag key h =
    let cold : (flag == boot_magic_go_app) ≡ false = ground arith in
    ((rw cold refl, rw cold refl), (refl, refl), omega arith)

-- With the key down and no request, `main` enters the bootloader's loop, and leaves the register as
-- it was.
pub main_pressed :
    (flag key : ℕ) → flag ≢ boot_magic_go_app → key ≢ 1 → Boots flag key Call.main_loop flag
unfolding main bootflag_get last_call flag_after
main_pressed flag key h k =
    let cold : (flag == boot_magic_go_app) ≡ false = ground arith in
    let down : (key == 1) ≡ false = ground arith in (rw (cold, down) refl, rw (cold, down) refl)
