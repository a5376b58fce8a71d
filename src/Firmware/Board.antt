-- ===== src/Firmware/Board.antt =====
-- The data of firmware/main.c and defines.h: the display's lines, the state of the link to the
-- client, and the whole board. Calls of the drivers in lcd.c and uart.c are recorded in order.
pub mod Display
pub mod Link
pub mod Bounds
pub mod Main
use efika_mpd.Base.{ℕ, Bool, Option, List, ◌++◌}
use efika_mpd.Firmware.Timers.{Timers}
use efika_mpd.Firmware.Rc5.{Rc5}

abbrev pub buffer_length : ℕ
buffer_length = 40

abbrev pub line_length : ℕ
line_length = 20

abbrev pub line_count : ℕ
line_count = 2

abbrev pub lcd_scroll : ℕ
lcd_scroll = 1000

abbrev pub uart_timeout : ℕ
uart_timeout = 1000

abbrev pub debounce_duration : ℕ
debounce_duration = 200

abbrev pub ps_duration : ℕ
ps_duration = 500

abbrev pub stb_code : ℕ
stb_code = 66

-- The bit of `lcd.flags`, and the one of `ctx.flags`.
abbrev pub lcd_auto_scroll : ℕ
lcd_auto_scroll = 0

abbrev pub flag_debounce : ℕ
flag_debounce = 0

-- `cmd_t`, which stands in the high nibble of a command byte.
abbrev pub cmd_lcd_update : ℕ
cmd_lcd_update = 1

abbrev pub cmd_lcd_flags : ℕ
cmd_lcd_flags = 2

abbrev pub cmd_lcd_dim : ℕ
cmd_lcd_dim = 3

-- `sp` points into `buffer`, at an offset; `none` is the null pointer.
pub record Line : Type 0 where
  pub buffer : List ℕ
  pub sp : Option ℕ
  pub size : ℕ
  pub pause_cnt : ℕ

pub record Lcd : Type 0 where
  pub line : List Line
  pub flags : ℕ

-- `state_t`.
pub data State : Type 0 where
  st_idle st_data : State

-- `ctx_t`; its member `rc5data` is used nowhere.
pub record Ctx : Type 0 where
  pub flags : ℕ
  pub cnt : ℕ
  pub state : State
  pub cmd : ℕ
  pub uart_timeout_timer : ℕ
  pub debounce_timer : ℕ
  pub ps_timer : ℕ

-- The functions that main.c gives to `timer_add`. Their user data is null or points to `ctx`.
pub data Callback : Type 0 where
  lcd_scroll_cb uart_timeout_cb debounce_cb ps_cb : Callback

abbrev pub Pdata : Type 0
Pdata = Unit {0}

-- Calls of the drivers: `lcd_gotoxy`, `lcd_putc`, `lcd_puts_P`, `lcd_brightness`, `lcd_init`,
-- `uart_init` and `uart_putc`.
pub data Effect : Type 0 where
  gotoxy : ℕ → ℕ → Effect
  putc : ℕ → Effect
  puts : List ℕ → Effect
  brightness : ℕ → Effect
  init_lcd : Effect
  init_uart : Effect
  send : ℕ → Effect

-- All but the timers. `ps_pin` is the pin of PS_PORT that switches the power supply.
pub record Panel : Type 0 where
  pub lcd : Lcd
  pub ctx : Ctx
  pub rc5 : Rc5
  pub ps_pin : Bool
  pub effects : List Effect

abbrev pub Board : Type 0
Board = Timers Pdata Callback × Panel

abbrev pub emit : List Effect → Panel → Panel
emit es p = record p { effects = p.effects ++ es }
