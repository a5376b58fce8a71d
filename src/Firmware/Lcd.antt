-- ===== src/Firmware/Lcd.antt =====
-- firmware/lcd.c and lcd.h, the driver of the display, as the board configures it: the four data
-- lines and RW and E on PORTC, RS on PORTD, and two lines of twenty positions.
pub mod Bus
pub mod Driver
pub mod Setup
pub mod Tests
use efika_mpd.Base.{ℕ, ◌+◌, ◌^◌, Bool, true, false, ◌||◌, ◌&&◌, ◌==◌, zero, suc}

abbrev pub xtal : ℕ
xtal = 8_000_000

abbrev pub lcd_lines : ℕ
lcd_lines = 2

abbrev pub lcd_disp_length : ℕ
lcd_disp_length = 20

abbrev pub lcd_start_line1 : ℕ
lcd_start_line1 = 0x00

abbrev pub lcd_start_line2 : ℕ
lcd_start_line2 = 0x40

abbrev pub lcd_wrap_lines : ℕ
lcd_wrap_lines = 0

pub data PortName : Type 0 where
  portc portd : PortName

abbrev pub lcd_port : PortName
lcd_port = portc

abbrev pub lcd_data0_port : PortName
lcd_data0_port = lcd_port

abbrev pub lcd_data1_port : PortName
lcd_data1_port = lcd_port

abbrev pub lcd_data2_port : PortName
lcd_data2_port = lcd_port

abbrev pub lcd_data3_port : PortName
lcd_data3_port = lcd_port

abbrev pub lcd_data0_pin : ℕ
lcd_data0_pin = 2

abbrev pub lcd_data1_pin : ℕ
lcd_data1_pin = 3

abbrev pub lcd_data2_pin : ℕ
lcd_data2_pin = 4

abbrev pub lcd_data3_pin : ℕ
lcd_data3_pin = 5

abbrev pub lcd_rs_port : PortName
lcd_rs_port = portd

abbrev pub lcd_rs_pin : ℕ
lcd_rs_pin = 3

abbrev pub lcd_rw_port : PortName
lcd_rw_port = lcd_port

abbrev pub lcd_rw_pin : ℕ
lcd_rw_pin = 1

abbrev pub lcd_e_port : PortName
lcd_e_port = lcd_port

abbrev pub lcd_e_pin : ℕ
lcd_e_pin = 0

-- The bits of the display's instructions.
abbrev pub lcd_clr : ℕ
lcd_clr = 0

abbrev pub lcd_home_bit : ℕ
lcd_home_bit = 1

abbrev pub lcd_entry_mode : ℕ
lcd_entry_mode = 2

abbrev pub lcd_entry_inc : ℕ
lcd_entry_inc = 1

abbrev pub lcd_ddram : ℕ
lcd_ddram = 7

abbrev pub lcd_busy : ℕ
lcd_busy = 7

abbrev pub lcd_disp_off : ℕ
lcd_disp_off = 0x08

abbrev pub lcd_disp_on : ℕ
lcd_disp_on = 0x0C

abbrev pub lcd_disp_on_cursor : ℕ
lcd_disp_on_cursor = 0x0E

abbrev pub lcd_function_default : ℕ
lcd_function_default = 0x28

-- Both bits are clear in the other's mask, so that `|` is a sum.
abbrev pub lcd_mode_default : ℕ
lcd_mode_default = 2 ^ lcd_entry_mode + 2 ^ lcd_entry_inc
