-- ===== src/Delay/Tests.antt =====
-- Delays on which the theorem on src/delay.c is tried.
use cs7000p_bootloader.Base.{◌≡◌, some, arith}
use cs7000p_bootloader.Delay.{delay_ms, delay_us}
use cs7000p_bootloader.Delay.Rounds.{delay_us-delay_ms}

delay_us-delay_ms_example :
    (delay_us 3000 500000 ≡ delay_ms 3 500000) × (delay_ms 3 500000 ≡ some 399000)
delay_us-delay_ms_example = delay_us-delay_ms 3 500000 (omega arith) (omega arith) (omega arith)
