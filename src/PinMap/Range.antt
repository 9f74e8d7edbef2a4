-- ===== src/PinMap/Range.antt =====
-- Every name of include/pinmap.h is a pin that its device has.
use cs7000p_bootloader.Base.{arith}
use cs7000p_bootloader.Gpio.Levels.{Exists}
use cs7000p_bootloader.PinMap.{PinName, pin}

pub pin-Exists : (n : PinName) → Exists (pin n)
unfolding pin
pin-Exists PinName.bat_detect = omega arith
pin-Exists PinName.main_pwr_det = omega arith
pin-Exists PinName.main_pwr_sw = omega arith
pin-Exists PinName.lcd_d0 = omega arith
pin-Exists PinName.lcd_d1 = omega arith
pin-Exists PinName.lcd_d2 = omega arith
pin-Exists PinName.lcd_d3 = omega arith
pin-Exists PinName.lcd_d4 = omega arith
pin-Exists PinName.lcd_d5 = omega arith
pin-Exists PinName.lcd_d6 = omega arith
pin-Exists PinName.lcd_d7 = omega arith
pin-Exists PinName.lcd_wr = omega arith
pin-Exists PinName.lcd_rd = omega arith
pin-Exists PinName.lcd_dc = omega arith
pin-Exists PinName.lcd_rst = omega arith
pin-Exists PinName.lcd_cs = omega arith
pin-Exists PinName.lcd_backlight = omega arith
pin-Exists PinName.kb_row1 = omega arith
pin-Exists PinName.kb_row2 = omega arith
pin-Exists PinName.kb_row3 = omega arith
pin-Exists PinName.kb_row4 = omega arith
pin-Exists PinName.kb_col1 = omega arith
pin-Exists PinName.kb_col2 = omega arith
pin-Exists PinName.kb_col3 = omega arith
pin-Exists PinName.kb_col4 = omega arith
pin-Exists PinName.kb_col5 = omega arith
pin-Exists PinName.kbd_backlight = omega arith
pin-Exists PinName.ptt_sw = omega arith
pin-Exists PinName.ptt_ext = omega arith
pin-Exists PinName.side_key1 = omega arith
pin-Exists PinName.side_key2 = omega arith
pin-Exists PinName.side_key3 = omega arith
pin-Exists PinName.alarm_key = omega arith
pin-Exists PinName.usb_dp = omega arith
pin-Exists PinName.usb_dm = omega arith
pin-Exists PinName.ch_selector_0 = omega arith
pin-Exists PinName.ch_selector_1 = omega arith
pin-Exists PinName.ch_selector_2 = omega arith
pin-Exists PinName.ch_selector_3 = omega arith
pin-Exists PinName.green_led = omega arith
pin-Exists PinName.red_led = omega arith
pin-Exists PinName.ain_volume = omega arith
pin-Exists PinName.ain_vbat = omega arith
pin-Exists PinName.ain_mic = omega arith
pin-Exists PinName.ain_rssi = omega arith
pin-Exists PinName.ain_noise = omega arith
pin-Exists PinName.ain_rtx = omega arith
pin-Exists PinName.ain_ctcss = omega arith
pin-Exists PinName.ain_temp = omega arith
pin-Exists PinName.ctcss_out = omega arith
pin-Exists PinName.beep_out = omega arith
pin-Exists PinName.flash_cs = omega arith
pin-Exists PinName.flash_clk = omega arith
pin-Exists PinName.flash_sdo = omega arith
pin-Exists PinName.flash_sdi = omega arith
pin-Exists PinName.pll_cs = omega arith
pin-Exists PinName.pll_clk = omega arith
pin-Exists PinName.pll_dat = omega arith
pin-Exists PinName.pll_ld = omega arith
pin-Exists PinName.c6k_cs = omega arith
pin-Exists PinName.c6k_clk = omega arith
pin-Exists PinName.c6k_miso = omega arith
pin-Exists PinName.c6k_mosi = omega arith
pin-Exists PinName.c6k_sleep = omega arith
pin-Exists PinName.voc_cs = omega arith
pin-Exists PinName.voc_clk = omega arith
pin-Exists PinName.voc_mosi = omega arith
pin-Exists PinName.voc_miso = omega arith
pin-Exists PinName.i2s_fs = omega arith
pin-Exists PinName.i2s_clk = omega arith
pin-Exists PinName.i2s_rx = omega arith
pin-Exists PinName.i2s_tx = omega arith
pin-Exists PinName.dmr_ts_int = omega arith
pin-Exists PinName.dmr_sys_int = omega arith
pin-Exists PinName.dmr_tx_int = omega arith
pin-Exists PinName.det_pdn = omega arith
pin-Exists PinName.det_cs = omega arith
pin-Exists PinName.det_clk = omega arith
pin-Exists PinName.det_dat = omega arith
pin-Exists PinName.det_rst = omega arith
pin-Exists PinName.rf_apc_sw = omega arith
pin-Exists PinName.vcovcc_sw = omega arith
pin-Exists PinName.tx_pwr_en = omega arith
pin-Exists PinName.rx_pwr_en = omega arith
pin-Exists PinName.vco_pwr_en = omega arith
pin-Exists PinName.ctcss_amp_en = omega arith
pin-Exists PinName.apc_tv = omega arith
pin-Exists PinName.audio_amp_en = omega arith
pin-Exists PinName.int_spk_mute = omega arith
pin-Exists PinName.ext_spk_mute = omega arith
pin-Exists PinName.mic_pwr_en = omega arith
pin-Exists PinName.int_mic_sel = omega arith
pin-Exists PinName.ext_mic_sel = omega arith
pin-Exists PinName.af_mute = omega arith
pin-Exists PinName.phone_detect = omega arith
pin-Exists PinName.gps_txd = omega arith
pin-Exists PinName.gps_rxd = omega arith
pin-Exists PinName.phone_txd = omega arith
pin-Exists PinName.phone_rxd = omega arith
pin-Exists PinName.gpioext_clk = omega arith
pin-Exists PinName.gpioext_dat = omega arith
pin-Exists PinName.gpioext_str = omega arith
pin-Exists PinName.blth_detect = omega arith
pin-Exists PinName.blth_pwr_en = omega arith
pin-Exists PinName.blth_rxd = omega arith
pin-Exists PinName.blth_txd = omega arith
pin-Exists PinName.alpu_sda = omega arith
pin-Exists PinName.alpu_scl = omega arith
