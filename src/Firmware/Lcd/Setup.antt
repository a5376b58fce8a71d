-- ===== src/Firmware/Lcd/Setup.antt =====
-- firmware/lcd.c: `lcd_init`.
pub mod Sequence
pub mod Greeting
use efika_mpd.Base.{ℕ, Bool, true, false, ◌&&◌, Option, some, ◌==◌, if◌then◌else◌, ◌>>=◌}
use efika_mpd.Firmware.Lcd.{
  lcd_data0_port, lcd_data1_port, lcd_data2_port, lcd_data3_port, lcd_data0_pin, lcd_data1_pin,
  lcd_data2_pin, lcd_data3_pin, lcd_rs_port, lcd_rs_pin, lcd_rw_port, lcd_rw_pin, lcd_e_port,
  lcd_e_pin, lcd_disp_off, lcd_disp_on, lcd_function_default, lcd_mode_default,
}
use efika_mpd.Firmware.Lcd.Bus.{
  Reg, put, Bus, on_port, on_ddr, on_data_ddr, is_same, has_low_nibble, toggle_e, lcd_rs_high,
  lcd_rs_low, delay,
}
use efika_mpd.Firmware.Lcd.Driver.{lcd_command, lcd_clrscr}

-- All lines on the pins 0 to 6 of one port.
abbrev pub has_one_port : Bool
has_one_port =
    is_same lcd_rs_port lcd_data0_port
    && is_same lcd_rw_port lcd_data0_port
    && is_same lcd_e_port lcd_data0_port
    && has_low_nibble
    && (lcd_rs_pin == 4)
    && (lcd_rw_pin == 5)
    && (lcd_e_pin == 6)

abbrev pub put_low_four : Reg → Reg
put_low_four r = put true 3 (put true 2 (put true 1 (put true 0 r)))

abbrev pub control_outputs : Bus → Bus
control_outputs b =
    on_ddr lcd_e_port (put true lcd_e_pin)
      (on_ddr lcd_rw_port (put true lcd_rw_pin) (on_ddr lcd_rs_port (put true lcd_rs_pin) b))

unfoldable pub set_outputs : Bus → Bus
set_outputs b =
    if has_one_port
    then on_ddr lcd_data0_port (λ r. put true 6 (put true 5 (put true 4 (put_low_four r)))) b
    else (if has_low_nibble
        then control_outputs (on_ddr lcd_data0_port put_low_four b)
        else on_data_ddr true (control_outputs b))

-- The strobes that bring the display to four data lines, from any state that it is in.
unfoldable pub enter_4bit : Bus → Bus
enter_4bit b =
    let b = delay 16000 b in
    let b = on_port lcd_data1_port (put true lcd_data1_pin) b in
    let b = on_port lcd_data0_port (put true lcd_data0_pin) b in
    let b = delay 4992 (toggle_e b) in
    let b = delay 64 (toggle_e b) in
    let b = delay 64 (toggle_e b) in
    let b = on_port lcd_data0_port (put false lcd_data0_pin) b in
    let b = delay 64 (toggle_e b) in
    let b = delay 64 (toggle_e b) in
    let b = on_port lcd_data1_port (put false lcd_data1_pin) b in
    delay 64 (lcd_rs_low (toggle_e (lcd_rs_high b)))

unfoldable pub set_up_display : Bus → Option Bus
set_up_display b =
    lcd_command lcd_function_default b >>= lcd_command lcd_disp_off >>= lcd_clrscr >>= λ b1.
    lcd_command lcd_disp_on (delay 3000 b1)
    >>= lcd_command lcd_mode_default
    >>= lcd_command lcd_disp_on

-- The argument is not used.
unfoldable pub lcd_init : ℕ → Bus → Option Bus
lcd_init disp_attr b = set_up_display (enter_4bit (set_outputs b))
