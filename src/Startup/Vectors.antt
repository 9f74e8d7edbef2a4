-- ===== src/Startup/Vectors.antt =====
-- The vector table of src/startup.c, and what its entries are linked to.
pub mod Dispatch
use cs7000p_bootloader.Base.{Option, some, none, List, [], ◌∷◌, ◌++◌}

-- The handlers that are declared, each weak.
pub data Handler : Type 0 where
  reset_handler nmi_handler hardfault_handler memmanage_handler busfault_handler usagefault_handler
        svc_handler debugmon_handler pendsv_handler systick_handler wwdg_irq_handler
        pvd_avd_irq_handler tamp_stamp_irq_handler rtc_wkup_irq_handler flash_irq_handler
        rcc_irq_handler exti0_irq_handler exti1_irq_handler exti2_irq_handler exti3_irq_handler
        exti4_irq_handler dma1_stream0_irq_handler dma1_stream1_irq_handler dma1_stream2_irq_handler
        dma1_stream3_irq_handler dma1_stream4_irq_handler dma1_stream5_irq_handler
        dma1_stream6_irq_handler adc_irq_handler fdcan1_it0_irq_handler fdcan2_it0_irq_handler
        fdcan1_it1_irq_handler fdcan2_it1_irq_handler exti9_5_irq_handler tim1_brk_irq_handler
        tim1_up_irq_handler tim1_trg_com_irq_handler tim1_cc_irq_handler tim2_irq_handler
        tim3_irq_handler tim4_irq_handler i2c1_ev_irq_handler i2c1_er_irq_handler
        i2c2_ev_irq_handler i2c2_er_irq_handler spi1_irq_handler spi2_irq_handler usart1_irq_handler
        usart2_irq_handler usart3_irq_handler exti15_10_irq_handler rtc_alarm_irq_handler
        tim8_brk_tim12_irq_handler tim8_up_tim13_irq_handler tim8_trg_com_tim14_irq_handler
        tim8_cc_irq_handler dma1_stream7_irq_handler fmc_irq_handler sdmmc1_irq_handler
        tim5_irq_handler spi3_irq_handler uart4_irq_handler uart5_irq_handler tim6_dac_irq_handler
        tim7_irq_handler dma2_stream0_irq_handler dma2_stream1_irq_handler dma2_stream2_irq_handler
        dma2_stream3_irq_handler dma2_stream4_irq_handler eth_irq_handler eth_wkup_irq_handler
        fdcan_cal_irq_handler dma2_stream5_irq_handler dma2_stream6_irq_handler
        dma2_stream7_irq_handler usart6_irq_handler i2c3_ev_irq_handler i2c3_er_irq_handler
        otg_hs_ep1_out_irq_handler otg_hs_ep1_in_irq_handler otg_hs_wkup_irq_handler
        otg_hs_irq_handler dcmi_irq_handler rng_irq_handler fpu_irq_handler uart7_irq_handler
        uart8_irq_handler spi4_irq_handler spi5_irq_handler spi6_irq_handler sai1_irq_handler
        ltdc_irq_handler ltdc_er_irq_handler dma2d_irq_handler sai2_irq_handler quadspi_irq_handler
        lptim1_irq_handler cec_irq_handler i2c4_ev_irq_handler i2c4_er_irq_handler
        spdif_rx_irq_handler otg_fs_ep1_out_irq_handler otg_fs_ep1_in_irq_handler
        otg_fs_wkup_irq_handler otg_fs_irq_handler dmamux1_ovr_irq_handler hrtim1_master_irq_handler
        hrtim1_tima_irq_handler hrtim1_timb_irq_handler hrtim1_timc_irq_handler
        hrtim1_timd_irq_handler hrtim1_time_irq_handler hrtim1_flt_irq_handler
        dfsdm1_flt0_irq_handler dfsdm1_flt1_irq_handler dfsdm1_flt2_irq_handler
        dfsdm1_flt3_irq_handler sai3_irq_handler swpmi1_irq_handler tim15_irq_handler
        tim16_irq_handler tim17_irq_handler mdios_wkup_irq_handler mdios_irq_handler
        jpeg_irq_handler mdma_irq_handler sdmmc2_irq_handler hsem1_irq_handler adc3_irq_handler
        dmamux2_ovr_irq_handler bdma_channel0_irq_handler bdma_channel1_irq_handler
        bdma_channel2_irq_handler bdma_channel3_irq_handler bdma_channel4_irq_handler
        bdma_channel5_irq_handler bdma_channel6_irq_handler bdma_channel7_irq_handler
        comp1_irq_handler lptim2_irq_handler lptim3_irq_handler lptim4_irq_handler
        lptim5_irq_handler lpuart1_irq_handler crs_irq_handler ecc_irq_handler sai4_irq_handler
        wakeup_pin_irq_handler :
      Handler

-- What a handler can be linked to: `Reset_Handler`, which calls `program_startup`; `SysTick_Handler` and
-- `OTG_FS_IRQHandler` of src/main.c; `Default_Handler`, which resets the chip.
pub data Routine : Type 0 where
  program_startup sys_tick_handler otg_fs_irq_handler default_handler : Routine

-- The handlers that a file of the program defines.
unfoldable pub definition : Handler → Option Routine
definition Handler.reset_handler = some Routine.program_startup
definition Handler.systick_handler = some Routine.sys_tick_handler
definition Handler.otg_fs_irq_handler = some Routine.otg_fs_irq_handler
definition _ = none

-- The `#pragma weak` lines: what a handler is linked to if no file defines it.
unfoldable pub weak_alias : Handler → Option Routine
weak_alias Handler.reset_handler = none
weak_alias Handler.nmi_handler = some Routine.default_handler
weak_alias Handler.hardfault_handler = some Routine.default_handler
weak_alias Handler.memmanage_handler = some Routine.default_handler
weak_alias Handler.busfault_handler = some Routine.default_handler
weak_alias Handler.usagefault_handler = some Routine.default_handler
weak_alias Handler.svc_handler = some Routine.default_handler
weak_alias Handler.debugmon_handler = some Routine.default_handler
weak_alias Handler.pendsv_handler = some Routine.default_handler
weak_alias Handler.systick_handler = some Routine.default_handler
weak_alias Handler.wwdg_irq_handler = some Routine.default_handler
weak_alias Handler.pvd_avd_irq_handler = some Routine.default_handler
weak_alias Handler.tamp_stamp_irq_handler = some Routine.default_handler
weak_alias Handler.rtc_wkup_irq_handler = some Routine.default_handler
weak_alias Handler.flash_irq_handler = some Routine.default_handler
weak_alias Handler.rcc_irq_handler = some Routine.default_handler
weak_alias Handler.exti0_irq_handler = some Routine.default_handler
weak_alias Handler.exti1_irq_handler = some Routine.default_handler
weak_alias Handler.exti2_irq_handler = some Routine.default_handler
weak_alias Handler.exti3_irq_handler = some Routine.default_handler
weak_alias Handler.exti4_irq_handler = some Routine.default_handler
weak_alias Handler.dma1_stream0_irq_handler = some Routine.default_handler
weak_alias Handler.dma1_stream1_irq_handler = some Routine.default_handler
weak_alias Handler.dma1_stream2_irq_handler = some Routine.default_handler
weak_alias Handler.dma1_stream3_irq_handler = some Routine.default_handler
weak_alias Handler.dma1_stream4_irq_handler = some Routine.default_handler
weak_alias Handler.dma1_stream5_irq_handler = some Routine.default_handler
weak_alias Handler.dma1_stream6_irq_handler = some Routine.default_handler
weak_alias Handler.adc_irq_handler = some Routine.default_handler
weak_alias Handler.fdcan1_it0_irq_handler = some Routine.default_handler
weak_alias Handler.fdcan2_it0_irq_handler = some Routine.default_handler
weak_alias Handler.fdcan1_it1_irq_handler = some Routine.default_handler
weak_alias Handler.fdcan2_it1_irq_handler = some Routine.default_handler
weak_alias Handler.exti9_5_irq_handler = some Routine.default_handler
weak_alias Handler.tim1_brk_irq_handler = some Routine.default_handler
weak_alias Handler.tim1_up_irq_handler = some Routine.default_handler
weak_alias Handler.tim1_trg_com_irq_handler = some Routine.default_handler
weak_alias Handler.tim1_cc_irq_handler = some Routine.default_handler
weak_alias Handler.tim2_irq_handler = some Routine.default_handler
weak_alias Handler.tim3_irq_handler = some Routine.default_handler
weak_alias Handler.tim4_irq_handler = some Routine.default_handler
weak_alias Handler.i2c1_ev_irq_handler = some Routine.default_handler
weak_alias Handler.i2c1_er_irq_handler = some Routine.default_handler
weak_alias Handler.i2c2_ev_irq_handler = some Routine.default_handler
weak_alias Handler.i2c2_er_irq_handler = some Routine.default_handler
weak_alias Handler.spi1_irq_handler = some Routine.default_handler
weak_alias Handler.spi2_irq_handler = some Routine.default_handler
weak_alias Handler.usart1_irq_handler = some Routine.default_handler
weak_alias Handler.usart2_irq_handler = some Routine.default_handler
weak_alias Handler.usart3_irq_handler = some Routine.default_handler
weak_alias Handler.exti15_10_irq_handler = some Routine.default_handler
weak_alias Handler.rtc_alarm_irq_handler = some Routine.default_handler
weak_alias Handler.tim8_brk_tim12_irq_handler = some Routine.default_handler
weak_alias Handler.tim8_up_tim13_irq_handler = some Routine.default_handler
weak_alias Handler.tim8_trg_com_tim14_irq_handler = some Routine.default_handler
weak_alias Handler.tim8_cc_irq_handler = some Routine.default_handler
weak_alias Handler.dma1_stream7_irq_handler = some Routine.default_handler
weak_alias Handler.fmc_irq_handler = some Routine.default_handler
weak_alias Handler.sdmmc1_irq_handler = some Routine.default_handler
weak_alias Handler.tim5_irq_handler = some Routine.default_handler
weak_alias Handler.spi3_irq_handler = some Routine.default_handler
weak_alias Handler.uart4_irq_handler = some Routine.default_handler
weak_alias Handler.uart5_irq_handler = some Routine.default_handler
weak_alias Handler.tim6_dac_irq_handler = some Routine.default_handler
weak_alias Handler.tim7_irq_handler = some Routine.default_handler
weak_alias Handler.dma2_stream0_irq_handler = some Routine.default_handler
weak_alias Handler.dma2_stream1_irq_handler = some Routine.default_handler
weak_alias Handler.dma2_stream2_irq_handler = some Routine.default_handler
weak_alias Handler.dma2_stream3_irq_handler = some Routine.default_handler
weak_alias Handler.dma2_stream4_irq_handler = some Routine.default_handler
weak_alias Handler.eth_irq_handler = some Routine.default_handler
weak_alias Handler.eth_wkup_irq_handler = some Routine.default_handler
weak_alias Handler.fdcan_cal_irq_handler = some Routine.default_handler
weak_alias Handler.dma2_stream5_irq_handler = some Routine.default_handler
weak_alias Handler.dma2_stream6_irq_handler = some Routine.default_handler
weak_alias Handler.dma2_stream7_irq_handler = some Routine.default_handler
weak_alias Handler.usart6_irq_handler = some Routine.default_handler
weak_alias Handler.i2c3_ev_irq_handler = some Routine.default_handler
weak_alias Handler.i2c3_er_irq_handler = some Routine.default_handler
weak_alias Handler.otg_hs_ep1_out_irq_handler = some Routine.default_handler
weak_alias Handler.otg_hs_ep1_in_irq_handler = some Routine.default_handler
weak_alias Handler.otg_hs_wkup_irq_handler = some Routine.default_handler
weak_alias Handler.otg_hs_irq_handler = some Routine.default_handler
weak_alias Handler.dcmi_irq_handler = some Routine.default_handler
weak_alias Handler.rng_irq_handler = some Routine.default_handler
weak_alias Handler.fpu_irq_handler = some Routine.default_handler
weak_alias Handler.uart7_irq_handler = some Routine.default_handler
weak_alias Handler.uart8_irq_handler = some Routine.default_handler
weak_alias Handler.spi4_irq_handler = some Routine.default_handler
weak_alias Handler.spi5_irq_handler = some Routine.default_handler
weak_alias Handler.spi6_irq_handler = some Routine.default_handler
weak_alias Handler.sai1_irq_handler = some Routine.default_handler
weak_alias Handler.ltdc_irq_handler = some Routine.default_handler
weak_alias Handler.ltdc_er_irq_handler = some Routine.default_handler
weak_alias Handler.dma2d_irq_handler = some Routine.default_handler
weak_alias Handler.sai2_irq_handler = some Routine.default_handler
weak_alias Handler.quadspi_irq_handler = some Routine.default_handler
weak_alias Handler.lptim1_irq_handler = some Routine.default_handler
weak_alias Handler.cec_irq_handler = some Routine.default_handler
weak_alias Handler.i2c4_ev_irq_handler = some Routine.default_handler
weak_alias Handler.i2c4_er_irq_handler = some Routine.default_handler
weak_alias Handler.spdif_rx_irq_handler = some Routine.default_handler
weak_alias Handler.otg_fs_ep1_out_irq_handler = some Routine.default_handler
weak_alias Handler.otg_fs_ep1_in_irq_handler = some Routine.default_handler
weak_alias Handler.otg_fs_wkup_irq_handler = some Routine.default_handler
weak_alias Handler.otg_fs_irq_handler = some Routine.default_handler
weak_alias Handler.dmamux1_ovr_irq_handler = some Routine.default_handler
weak_alias Handler.hrtim1_master_irq_handler = some Routine.default_handler
weak_alias Handler.hrtim1_tima_irq_handler = some Routine.default_handler
weak_alias Handler.hrtim1_timb_irq_handler = some Routine.default_handler
weak_alias Handler.hrtim1_timc_irq_handler = some Routine.default_handler
weak_alias Handler.hrtim1_timd_irq_handler = some Routine.default_handler
weak_alias Handler.hrtim1_time_irq_handler = some Routine.default_handler
weak_alias Handler.hrtim1_flt_irq_handler = some Routine.default_handler
weak_alias Handler.dfsdm1_flt0_irq_handler = some Routine.default_handler
weak_alias Handler.dfsdm1_flt1_irq_handler = some Routine.default_handler
weak_alias Handler.dfsdm1_flt2_irq_handler = some Routine.default_handler
weak_alias Handler.dfsdm1_flt3_irq_handler = some Routine.default_handler
weak_alias Handler.sai3_irq_handler = some Routine.default_handler
weak_alias Handler.swpmi1_irq_handler = some Routine.default_handler
weak_alias Handler.tim15_irq_handler = some Routine.default_handler
weak_alias Handler.tim16_irq_handler = some Routine.default_handler
weak_alias Handler.tim17_irq_handler = some Routine.default_handler
weak_alias Handler.mdios_wkup_irq_handler = some Routine.default_handler
weak_alias Handler.mdios_irq_handler = some Routine.default_handler
weak_alias Handler.jpeg_irq_handler = some Routine.default_handler
weak_alias Handler.mdma_irq_handler = some Routine.default_handler
weak_alias Handler.sdmmc2_irq_handler = some Routine.default_handler
weak_alias Handler.hsem1_irq_handler = some Routine.default_handler
weak_alias Handler.adc3_irq_handler = some Routine.default_handler
weak_alias Handler.dmamux2_ovr_irq_handler = some Routine.default_handler
weak_alias Handler.bdma_channel0_irq_handler = some Routine.default_handler
weak_alias Handler.bdma_channel1_irq_handler = some Routine.default_handler
weak_alias Handler.bdma_channel2_irq_handler = some Routine.default_handler
weak_alias Handler.bdma_channel3_irq_handler = some Routine.default_handler
weak_alias Handler.bdma_channel4_irq_handler = some Routine.default_handler
weak_alias Handler.bdma_channel5_irq_handler = some Routine.default_handler
weak_alias Handler.bdma_channel6_irq_handler = some Routine.default_handler
weak_alias Handler.bdma_channel7_irq_handler = some Routine.default_handler
weak_alias Handler.comp1_irq_handler = some Routine.default_handler
weak_alias Handler.lptim2_irq_handler = some Routine.default_handler
weak_alias Handler.lptim3_irq_handler = some Routine.default_handler
weak_alias Handler.lptim4_irq_handler = some Routine.default_handler
weak_alias Handler.lptim5_irq_handler = some Routine.default_handler
weak_alias Handler.lpuart1_irq_handler = some Routine.default_handler
weak_alias Handler.crs_irq_handler = some Routine.default_handler
weak_alias Handler.ecc_irq_handler = some Routine.default_handler
weak_alias Handler.sai4_irq_handler = some Routine.default_handler
weak_alias Handler.wakeup_pin_irq_handler = some Routine.default_handler

pub data Entry : Type 0 where
  estack reserved : Entry
  handled : Handler → Entry

-- `vector_table`: the entries of the core, and those of the interrupts.
abbrev pub core_vectors : List Entry
core_vectors =
    estack
    ∷ handled Handler.reset_handler
    ∷ handled Handler.nmi_handler
    ∷ handled Handler.hardfault_handler
    ∷ handled Handler.memmanage_handler
    ∷ handled Handler.busfault_handler
    ∷ handled Handler.usagefault_handler
    ∷ reserved
    ∷ reserved
    ∷ reserved
    ∷ reserved
    ∷ handled Handler.svc_handler
    ∷ handled Handler.debugmon_handler
    ∷ reserved
    ∷ handled Handler.pendsv_handler
    ∷ handled Handler.systick_handler
    ∷ []

abbrev pub interrupt_vectors : List Entry
interrupt_vectors =
    handled Handler.wwdg_irq_handler
    ∷ handled Handler.pvd_avd_irq_handler
    ∷ handled Handler.tamp_stamp_irq_handler
    ∷ handled Handler.rtc_wkup_irq_handler
    ∷ handled Handler.flash_irq_handler
    ∷ handled Handler.rcc_irq_handler
    ∷ handled Handler.exti0_irq_handler
    ∷ handled Handler.exti1_irq_handler
    ∷ handled Handler.exti2_irq_handler
    ∷ handled Handler.exti3_irq_handler
    ∷ handled Handler.exti4_irq_handler
    ∷ handled Handler.dma1_stream0_irq_handler
    ∷ handled Handler.dma1_stream1_irq_handler
    ∷ handled Handler.dma1_stream2_irq_handler
    ∷ handled Handler.dma1_stream3_irq_handler
    ∷ handled Handler.dma1_stream4_irq_handler
    ∷ handled Handler.dma1_stream5_irq_handler
    ∷ handled Handler.dma1_stream6_irq_handler
    ∷ handled Handler.adc_irq_handler
    ∷ handled Handler.fdcan1_it0_irq_handler
    ∷ handled Handler.fdcan2_it0_irq_handler
    ∷ handled Handler.fdcan1_it1_irq_handler
    ∷ handled Handler.fdcan2_it1_irq_handler
    ∷ handled Handler.exti9_5_irq_handler
    ∷ handled Handler.tim1_brk_irq_handler
    ∷ handled Handler.tim1_up_irq_handler
    ∷ handled Handler.tim1_trg_com_irq_handler
    ∷ handled Handler.tim1_cc_irq_handler
    ∷ handled Handler.tim2_irq_handler
    ∷ handled Handler.tim3_irq_handler
    ∷ handled Handler.tim4_irq_handler
    ∷ handled Handler.i2c1_ev_irq_handler
    ∷ handled Handler.i2c1_er_irq_handler
    ∷ handled Handler.i2c2_ev_irq_handler
    ∷ handled Handler.i2c2_er_irq_handler
    ∷ handled Handler.spi1_irq_handler
    ∷ handled Handler.spi2_irq_handler
    ∷ handled Handler.usart1_irq_handler
    ∷ handled Handler.usart2_irq_handler
    ∷ handled Handler.usart3_irq_handler
    ∷ handled Handler.exti15_10_irq_handler
    ∷ handled Handler.rtc_alarm_irq_handler
    ∷ reserved
    ∷ handled Handler.tim8_brk_tim12_irq_handler
    ∷ handled Handler.tim8_up_tim13_irq_handler
    ∷ handled Handler.tim8_trg_com_tim14_irq_handler
    ∷ handled Handler.tim8_cc_irq_handler
    ∷ handled Handler.dma1_stream7_irq_handler
    ∷ handled Handler.fmc_irq_handler
    ∷ handled Handler.sdmmc1_irq_handler
    ∷ handled Handler.tim5_irq_handler
    ∷ handled Handler.spi3_irq_handler
    ∷ handled Handler.uart4_irq_handler
    ∷ handled Handler.uart5_irq_handler
    ∷ handled Handler.tim6_dac_irq_handler
    ∷ handled Handler.tim7_irq_handler
    ∷ handled Handler.dma2_stream0_irq_handler
    ∷ handled Handler.dma2_stream1_irq_handler
    ∷ handled Handler.dma2_stream2_irq_handler
    ∷ handled Handler.dma2_stream3_irq_handler
    ∷ handled Handler.dma2_stream4_irq_handler
    ∷ handled Handler.eth_irq_handler
    ∷ handled Handler.eth_wkup_irq_handler
    ∷ handled Handler.fdcan_cal_irq_handler
    ∷ reserved
    ∷ reserved
    ∷ reserved
    ∷ reserved
    ∷ handled Handler.dma2_stream5_irq_handler
    ∷ handled Handler.dma2_stream6_irq_handler
    ∷ handled Handler.dma2_stream7_irq_handler
    ∷ handled Handler.usart6_irq_handler
    ∷ handled Handler.i2c3_ev_irq_handler
    ∷ handled Handler.i2c3_er_irq_handler
    ∷ handled Handler.otg_hs_ep1_out_irq_handler
    ∷ handled Handler.otg_hs_ep1_in_irq_handler
    ∷ handled Handler.otg_hs_wkup_irq_handler
    ∷ handled Handler.otg_hs_irq_handler
    ∷ handled Handler.dcmi_irq_handler
    ∷ reserved
    ∷ handled Handler.rng_irq_handler
    ∷ handled Handler.fpu_irq_handler
    ∷ handled Handler.uart7_irq_handler
    ∷ handled Handler.uart8_irq_handler
    ∷ handled Handler.spi4_irq_handler
    ∷ handled Handler.spi5_irq_handler
    ∷ handled Handler.spi6_irq_handler
    ∷ handled Handler.sai1_irq_handler
    ∷ handled Handler.ltdc_irq_handler
    ∷ handled Handler.ltdc_er_irq_handler
    ∷ handled Handler.dma2d_irq_handler
    ∷ handled Handler.sai2_irq_handler
    ∷ handled Handler.quadspi_irq_handler
    ∷ handled Handler.lptim1_irq_handler
    ∷ handled Handler.cec_irq_handler
    ∷ handled Handler.i2c4_ev_irq_handler
    ∷ handled Handler.i2c4_er_irq_handler
    ∷ handled Handler.spdif_rx_irq_handler
    ∷ handled Handler.otg_fs_ep1_out_irq_handler
    ∷ handled Handler.otg_fs_ep1_in_irq_handler
    ∷ handled Handler.otg_fs_wkup_irq_handler
    ∷ handled Handler.otg_fs_irq_handler
    ∷ handled Handler.dmamux1_ovr_irq_handler
    ∷ handled Handler.hrtim1_master_irq_handler
    ∷ handled Handler.hrtim1_tima_irq_handler
    ∷ handled Handler.hrtim1_timb_irq_handler
    ∷ handled Handler.hrtim1_timc_irq_handler
    ∷ handled Handler.hrtim1_timd_irq_handler
    ∷ handled Handler.hrtim1_time_irq_handler
    ∷ handled Handler.hrtim1_flt_irq_handler
    ∷ handled Handler.dfsdm1_flt0_irq_handler
    ∷ handled Handler.dfsdm1_flt1_irq_handler
    ∷ handled Handler.dfsdm1_flt2_irq_handler
    ∷ handled Handler.dfsdm1_flt3_irq_handler
    ∷ handled Handler.sai3_irq_handler
    ∷ handled Handler.swpmi1_irq_handler
    ∷ handled Handler.tim15_irq_handler
    ∷ handled Handler.tim16_irq_handler
    ∷ handled Handler.tim17_irq_handler
    ∷ handled Handler.mdios_wkup_irq_handler
    ∷ handled Handler.mdios_irq_handler
    ∷ handled Handler.jpeg_irq_handler
    ∷ handled Handler.mdma_irq_handler
    ∷ reserved
    ∷ handled Handler.sdmmc2_irq_handler
    ∷ handled Handler.hsem1_irq_handler
    ∷ reserved
    ∷ handled Handler.adc3_irq_handler
    ∷ handled Handler.dmamux2_ovr_irq_handler
    ∷ handled Handler.bdma_channel0_irq_handler
    ∷ handled Handler.bdma_channel1_irq_handler
    ∷ handled Handler.bdma_channel2_irq_handler
    ∷ handled Handler.bdma_channel3_irq_handler
    ∷ handled Handler.bdma_channel4_irq_handler
    ∷ handled Handler.bdma_channel5_irq_handler
    ∷ handled Handler.bdma_channel6_irq_handler
    ∷ handled Handler.bdma_channel7_irq_handler
    ∷ handled Handler.comp1_irq_handler
    ∷ handled Handler.lptim2_irq_handler
    ∷ handled Handler.lptim3_irq_handler
    ∷ handled Handler.lptim4_irq_handler
    ∷ handled Handler.lptim5_irq_handler
    ∷ handled Handler.lpuart1_irq_handler
    ∷ reserved
    ∷ handled Handler.crs_irq_handler
    ∷ handled Handler.ecc_irq_handler
    ∷ handled Handler.sai4_irq_handler
    ∷ reserved
    ∷ reserved
    ∷ handled Handler.wakeup_pin_irq_handler
    ∷ []

abbrev pub vector_table : List Entry
vector_table = core_vectors ++ interrupt_vectors
