-- ===== src/IoBoard.antt =====
-- The IO board: its timers, the DMA master, the LCD and the setting area,
-- retrocpu_emu_ts/src/ioboard/timer, ioboard/dma, ioboard/lcd_console and ioboard/setting_area.
pub mod Timer
pub mod Expirations
pub mod Clock
pub mod Timestamp
pub mod Dma
pub mod Sessions
pub mod Lcd
pub mod Screen
pub mod Visible
pub mod Settings
pub mod Stored
