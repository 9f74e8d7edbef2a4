-- ===== src/PinMap.antt =====
-- The pins that include/pinmap.h names.
pub mod Owner
mod Range
pub mod Writes
mod Tests
use cs7000p_bootloader.Bus.{gpioa, gpiob, gpioc, gpiod, gpioe}
use cs7000p_bootloader.Gpio.Levels.{Output, port_pin, ext_pin}

pub data PinName : Type 0 where
  bat_detect main_pwr_det main_pwr_sw lcd_d0 lcd_d1 lcd_d2 lcd_d3 lcd_d4 lcd_d5 lcd_d6 lcd_d7 lcd_wr
        lcd_rd lcd_dc lcd_rst lcd_cs lcd_backlight kb_row1 kb_row2 kb_row3 kb_row4 kb_col1 kb_col2
        kb_col3 kb_col4 kb_col5 kbd_backlight ptt_sw ptt_ext side_key1 side_key2 side_key3 alarm_key
        usb_dp usb_dm ch_selector_0 ch_selector_1 ch_selector_2 ch_selector_3 green_led red_led
        ain_volume ain_vbat ain_mic ain_rssi ain_noise ain_rtx ain_ctcss ain_temp ctcss_out beep_out
        flash_cs flash_clk flash_sdo flash_sdi pll_cs pll_clk pll_dat pll_ld c6k_cs c6k_clk c6k_miso
        c6k_mosi c6k_sleep voc_cs voc_clk voc_mosi voc_miso i2s_fs i2s_clk i2s_rx i2s_tx dmr_ts_int
        dmr_sys_int dmr_tx_int det_pdn det_cs det_clk det_dat det_rst rf_apc_sw vcovcc_sw tx_pwr_en
        rx_pwr_en vco_pwr_en ctcss_amp_en apc_tv audio_amp_en int_spk_mute ext_spk_mute mic_pwr_en
        int_mic_sel ext_mic_sel af_mute phone_detect gps_txd gps_rxd phone_txd phone_rxd gpioext_clk
        gpioext_dat gpioext_str blth_detect blth_pwr_en blth_rxd blth_txd alpu_sda alpu_scl :
      PinName

unfoldable pub pin : PinName → Output
pin bat_detect = port_pin gpiob 2
pin main_pwr_det = port_pin gpioa 6
pin main_pwr_sw = ext_pin 20
pin lcd_d0 = port_pin gpiod 0
pin lcd_d1 = port_pin gpiod 1
pin lcd_d2 = port_pin gpiod 2
pin lcd_d3 = port_pin gpiod 3
pin lcd_d4 = port_pin gpiod 4
pin lcd_d5 = port_pin gpiod 5
pin lcd_d6 = port_pin gpiod 6
pin lcd_d7 = port_pin gpiod 7
pin lcd_wr = port_pin gpiod 13
pin lcd_rd = port_pin gpiod 14
pin lcd_dc = port_pin gpiod 12
pin lcd_rst = port_pin gpioe 0
pin lcd_cs = port_pin gpioe 1
pin lcd_backlight = port_pin gpioc 9
pin kb_row1 = port_pin gpiod 0
pin kb_row2 = port_pin gpiod 1
pin kb_row3 = port_pin gpiod 2
pin kb_row4 = port_pin gpiod 3
pin kb_col1 = port_pin gpiod 7
pin kb_col2 = port_pin gpiod 6
pin kb_col3 = port_pin gpiod 5
pin kb_col4 = port_pin gpiod 4
pin kb_col5 = port_pin gpiob 7
pin kbd_backlight = ext_pin 16
pin ptt_sw = port_pin gpioa 8
pin ptt_ext = port_pin gpioe 11
pin side_key1 = port_pin gpiod 15
pin side_key2 = port_pin gpioe 12
pin side_key3 = port_pin gpioe 13
pin alarm_key = port_pin gpioe 10
pin usb_dp = port_pin gpioa 12
pin usb_dm = port_pin gpioa 11
pin ch_selector_0 = port_pin gpioe 14
pin ch_selector_1 = port_pin gpioe 15
pin ch_selector_2 = port_pin gpiob 10
pin ch_selector_3 = port_pin gpiob 11
pin green_led = ext_pin 12
pin red_led = ext_pin 13
pin ain_volume = port_pin gpioc 5
pin ain_vbat = port_pin gpioc 4
pin ain_mic = port_pin gpioa 7
pin ain_rssi = port_pin gpiob 0
pin ain_noise = port_pin gpiob 1
pin ain_rtx = port_pin gpioa 3
pin ain_ctcss = port_pin gpioa 2
pin ain_temp = port_pin gpioa 7
pin ctcss_out = port_pin gpioc 8
pin beep_out = port_pin gpioa 5
pin flash_cs = port_pin gpioe 4
pin flash_clk = port_pin gpioe 2
pin flash_sdo = port_pin gpioe 5
pin flash_sdi = port_pin gpioe 6
pin pll_cs = port_pin gpiod 9
pin pll_clk = port_pin gpiod 10
pin pll_dat = port_pin gpiod 8
pin pll_ld = port_pin gpiod 11
pin c6k_cs = port_pin gpiob 12
pin c6k_clk = port_pin gpiob 13
pin c6k_miso = port_pin gpiob 14
pin c6k_mosi = port_pin gpiob 15
pin c6k_sleep = ext_pin 7
pin voc_cs = port_pin gpiob 6
pin voc_clk = port_pin gpiob 3
pin voc_mosi = port_pin gpiob 4
pin voc_miso = port_pin gpiob 5
pin i2s_fs = port_pin gpioa 15
pin i2s_clk = port_pin gpioc 10
pin i2s_rx = port_pin gpioc 11
pin i2s_tx = port_pin gpioc 12
pin dmr_ts_int = port_pin gpioc 0
pin dmr_sys_int = port_pin gpioc 1
pin dmr_tx_int = port_pin gpioc 2
pin det_pdn = ext_pin 6
pin det_cs = ext_pin 0
pin det_clk = port_pin gpioe 3
pin det_dat = port_pin gpioc 13
pin det_rst = port_pin gpioc 14
pin rf_apc_sw = ext_pin 3
pin vcovcc_sw = ext_pin 8
pin tx_pwr_en = ext_pin 9
pin rx_pwr_en = ext_pin 15
pin vco_pwr_en = ext_pin 11
pin ctcss_amp_en = ext_pin 22
pin apc_tv = port_pin gpioa 4
pin audio_amp_en = ext_pin 14
pin int_spk_mute = ext_pin 17
pin ext_spk_mute = ext_pin 19
pin mic_pwr_en = ext_pin 18
pin int_mic_sel = ext_pin 10
pin ext_mic_sel = ext_pin 5
pin af_mute = ext_pin 23
pin phone_detect = port_pin gpioa 13
pin gps_txd = port_pin gpioc 6
pin gps_rxd = port_pin gpioc 7
pin phone_txd = port_pin gpioa 0
pin phone_rxd = port_pin gpioa 1
pin gpioext_clk = port_pin gpioe 7
pin gpioext_dat = port_pin gpioe 9
pin gpioext_str = port_pin gpioe 8
pin blth_detect = port_pin gpioa 14
pin blth_pwr_en = ext_pin 4
pin blth_rxd = port_pin gpioa 9
pin blth_txd = port_pin gpioa 10
pin alpu_sda = port_pin gpiob 9
pin alpu_scl = port_pin gpiob 8
