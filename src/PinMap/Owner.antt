-- ===== src/PinMap/Owner.antt =====
-- Which name of include/pinmap.h stands for a pin, read from the pin.
use cs7000p_bootloader.Base.{sym, ap, ◌∙◌, ◌≡◌, refl, [], ◌∷◌, get_or}
use cs7000p_bootloader.Bus.{gpioa, gpiob, gpioc, gpiod, gpioe, gpioh}
use cs7000p_bootloader.Gpio.Levels.{Output, port_pin, ext_pin}
use cs7000p_bootloader.PinMap.{PinName, pin}

-- Nine names share their pin with another: eight of the display's with the keyboard's, and two
-- analogue inputs.
unfoldable pub first_name : PinName → PinName
first_name PinName.lcd_d0 = PinName.kb_row1
first_name PinName.lcd_d1 = PinName.kb_row2
first_name PinName.lcd_d2 = PinName.kb_row3
first_name PinName.lcd_d3 = PinName.kb_row4
first_name PinName.lcd_d4 = PinName.kb_col4
first_name PinName.lcd_d5 = PinName.kb_col3
first_name PinName.lcd_d6 = PinName.kb_col2
first_name PinName.lcd_d7 = PinName.kb_col1
first_name PinName.ain_temp = PinName.ain_mic
first_name n = n

-- The names of the pins of each port, and of the outputs of the shift register.
unfoldable owner : Output → PinName
owner (ext_pin n) =
    get_or
      (PinName.det_cs ∷ PinName.bat_detect ∷ PinName.bat_detect ∷ PinName.rf_apc_sw
        ∷ PinName.blth_pwr_en ∷ PinName.ext_mic_sel ∷ PinName.det_pdn ∷ PinName.c6k_sleep
        ∷ PinName.vcovcc_sw ∷ PinName.tx_pwr_en ∷ PinName.int_mic_sel ∷ PinName.vco_pwr_en
        ∷ PinName.green_led ∷ PinName.red_led ∷ PinName.audio_amp_en ∷ PinName.rx_pwr_en
        ∷ PinName.kbd_backlight ∷ PinName.int_spk_mute ∷ PinName.mic_pwr_en ∷ PinName.ext_spk_mute
        ∷ PinName.main_pwr_sw ∷ PinName.bat_detect ∷ PinName.ctcss_amp_en ∷ PinName.af_mute ∷ [])
      n PinName.bat_detect
owner (port_pin gpioa n) =
    get_or
      (PinName.phone_txd ∷ PinName.phone_rxd ∷ PinName.ain_ctcss ∷ PinName.ain_rtx ∷ PinName.apc_tv
        ∷ PinName.beep_out ∷ PinName.main_pwr_det ∷ PinName.ain_mic ∷ PinName.ptt_sw
        ∷ PinName.blth_rxd ∷ PinName.blth_txd ∷ PinName.usb_dm ∷ PinName.usb_dp
        ∷ PinName.phone_detect ∷ PinName.blth_detect ∷ PinName.i2s_fs ∷ [])
      n PinName.bat_detect
owner (port_pin gpiob n) =
    get_or
      (PinName.ain_rssi ∷ PinName.ain_noise ∷ PinName.bat_detect ∷ PinName.voc_clk
        ∷ PinName.voc_mosi ∷ PinName.voc_miso ∷ PinName.voc_cs ∷ PinName.kb_col5 ∷ PinName.alpu_scl
        ∷ PinName.alpu_sda ∷ PinName.ch_selector_2 ∷ PinName.ch_selector_3 ∷ PinName.c6k_cs
        ∷ PinName.c6k_clk ∷ PinName.c6k_miso ∷ PinName.c6k_mosi ∷ [])
      n PinName.bat_detect
owner (port_pin gpioc n) =
    get_or
      (PinName.dmr_ts_int ∷ PinName.dmr_sys_int ∷ PinName.dmr_tx_int ∷ PinName.bat_detect
        ∷ PinName.ain_vbat ∷ PinName.ain_volume ∷ PinName.gps_txd ∷ PinName.gps_rxd
        ∷ PinName.ctcss_out ∷ PinName.lcd_backlight ∷ PinName.i2s_clk ∷ PinName.i2s_rx
        ∷ PinName.i2s_tx ∷ PinName.det_dat ∷ PinName.det_rst ∷ [])
      n PinName.bat_detect
owner (port_pin gpiod n) =
    get_or
      (PinName.kb_row1 ∷ PinName.kb_row2 ∷ PinName.kb_row3 ∷ PinName.kb_row4 ∷ PinName.kb_col4
        ∷ PinName.kb_col3 ∷ PinName.kb_col2 ∷ PinName.kb_col1 ∷ PinName.pll_dat ∷ PinName.pll_cs
        ∷ PinName.pll_clk ∷ PinName.pll_ld ∷ PinName.lcd_dc ∷ PinName.lcd_wr ∷ PinName.lcd_rd
        ∷ PinName.side_key1 ∷ [])
      n PinName.bat_detect
owner (port_pin gpioe n) =
    get_or
      (PinName.lcd_rst ∷ PinName.lcd_cs ∷ PinName.flash_clk ∷ PinName.det_clk ∷ PinName.flash_cs
        ∷ PinName.flash_sdo ∷ PinName.flash_sdi ∷ PinName.gpioext_clk ∷ PinName.gpioext_str
        ∷ PinName.gpioext_dat ∷ PinName.alarm_key ∷ PinName.ptt_ext ∷ PinName.side_key2
        ∷ PinName.side_key3 ∷ PinName.ch_selector_0 ∷ PinName.ch_selector_1 ∷ [])
      n PinName.bat_detect
owner (port_pin gpioh n) = PinName.bat_detect

owner-pin : (n : PinName) → owner (pin n) ≡ first_name n
unfolding owner first_name pin
owner-pin PinName.bat_detect = refl
owner-pin PinName.main_pwr_det = refl
owner-pin PinName.main_pwr_sw = refl
owner-pin PinName.lcd_d0 = refl
owner-pin PinName.lcd_d1 = refl
owner-pin PinName.lcd_d2 = refl
owner-pin PinName.lcd_d3 = refl
owner-pin PinName.lcd_d4 = refl
owner-pin PinName.lcd_d5 = refl
owner-pin PinName.lcd_d6 = refl
owner-pin PinName.lcd_d7 = refl
owner-pin PinName.lcd_wr = refl
owner-pin PinName.lcd_rd = refl
owner-pin PinName.lcd_dc = refl
owner-pin PinName.lcd_rst = refl
owner-pin PinName.lcd_cs = refl
owner-pin PinName.lcd_backlight = refl
owner-pin PinName.kb_row1 = refl
owner-pin PinName.kb_row2 = refl
owner-pin PinName.kb_row3 = refl
owner-pin PinName.kb_row4 = refl
owner-pin PinName.kb_col1 = refl
owner-pin PinName.kb_col2 = refl
owner-pin PinName.kb_col3 = refl
owner-pin PinName.kb_col4 = refl
owner-pin PinName.kb_col5 = refl
owner-pin PinName.kbd_backlight = refl
owner-pin PinName.ptt_sw = refl
owner-pin PinName.ptt_ext = refl
owner-pin PinName.side_key1 = refl
owner-pin PinName.side_key2 = refl
owner-pin PinName.side_key3 = refl
owner-pin PinName.alarm_key = refl
owner-pin PinName.usb_dp = refl
owner-pin PinName.usb_dm = refl
owner-pin PinName.ch_selector_0 = refl
owner-pin PinName.ch_selector_1 = refl
owner-pin PinName.ch_selector_2 = refl
owner-pin PinName.ch_selector_3 = refl
owner-pin PinName.green_led = refl
owner-pin PinName.red_led = refl
owner-pin PinName.ain_volume = refl
owner-pin PinName.ain_vbat = refl
owner-pin PinName.ain_mic = refl
owner-pin PinName.ain_rssi = refl
owner-pin PinName.ain_noise = refl
owner-pin PinName.ain_rtx = refl
owner-pin PinName.ain_ctcss = refl
owner-pin PinName.ain_temp = refl
owner-pin PinName.ctcss_out = refl
owner-pin PinName.beep_out = refl
owner-pin PinName.flash_cs = refl
owner-pin PinName.flash_clk = refl
owner-pin PinName.flash_sdo = refl
owner-pin PinName.flash_sdi = refl
owner-pin PinName.pll_cs = refl
owner-pin PinName.pll_clk = refl
owner-pin PinName.pll_dat = refl
owner-pin PinName.pll_ld = refl
owner-pin PinName.c6k_cs = refl
owner-pin PinName.c6k_clk = refl
owner-pin PinName.c6k_miso = refl
owner-pin PinName.c6k_mosi = refl
owner-pin PinName.c6k_sleep = refl
owner-pin PinName.voc_cs = refl
owner-pin PinName.voc_clk = refl
owner-pin PinName.voc_mosi = refl
owner-pin PinName.voc_miso = refl
owner-pin PinName.i2s_fs = refl
owner-pin PinName.i2s_clk = refl
owner-pin PinName.i2s_rx = refl
owner-pin PinName.i2s_tx = refl
owner-pin PinName.dmr_ts_int = refl
owner-pin PinName.dmr_sys_int = refl
owner-pin PinName.dmr_tx_int = refl
owner-pin PinName.det_pdn = refl
owner-pin PinName.det_cs = refl
owner-pin PinName.det_clk = refl
owner-pin PinName.det_dat = refl
owner-pin PinName.det_rst = refl
owner-pin PinName.rf_apc_sw = refl
owner-pin PinName.vcovcc_sw = refl
owner-pin PinName.tx_pwr_en = refl
owner-pin PinName.rx_pwr_en = refl
owner-pin PinName.vco_pwr_en = refl
owner-pin PinName.ctcss_amp_en = refl
owner-pin PinName.apc_tv = refl
owner-pin PinName.audio_amp_en = refl
owner-pin PinName.int_spk_mute = refl
owner-pin PinName.ext_spk_mute = refl
owner-pin PinName.mic_pwr_en = refl
owner-pin PinName.int_mic_sel = refl
owner-pin PinName.ext_mic_sel = refl
owner-pin PinName.af_mute = refl
owner-pin PinName.phone_detect = refl
owner-pin PinName.gps_txd = refl
owner-pin PinName.gps_rxd = refl
owner-pin PinName.phone_txd = refl
owner-pin PinName.phone_rxd = refl
owner-pin PinName.gpioext_clk = refl
owner-pin PinName.gpioext_dat = refl
owner-pin PinName.gpioext_str = refl
owner-pin PinName.blth_detect = refl
owner-pin PinName.blth_pwr_en = refl
owner-pin PinName.blth_rxd = refl
owner-pin PinName.blth_txd = refl
owner-pin PinName.alpu_sda = refl
owner-pin PinName.alpu_scl = refl

-- Names that stand for one pin are the same name up to the nine.
pub same_pin : (m n : PinName) → pin m ≡ pin n → first_name m ≡ first_name n
same_pin m n e = sym (owner-pin m) ∙ ap owner e ∙ owner-pin n
