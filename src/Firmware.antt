-- ===== src/Firmware.antt =====
-- The firmware of the display board (firmware/), on an ATmega8.
pub mod Timers
pub mod Rc5
pub mod Lcd
pub mod Board
