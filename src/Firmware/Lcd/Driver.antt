-- ===== src/Firmware/Lcd/Driver.antt =====
-- firmware/lcd.c: the operations on the display, from `lcd_newline` to `lcd_brightness`. A value
-- that is passed as a byte is cut off to eight bits.
pub mod Writes
pub mod Effects
use efika_mpd.Base.{
  ℕ, ◌+◌, ◌*◌, ◌%◌, ◌^◌, Bool, true, false, Option, none, some, List, [], ◌∷◌, ltb, ◌==◌,
  if◌then◌else◌, ◌>>=◌,
}
use efika_mpd.Firmware.Lcd.{
  lcd_disp_length, lcd_start_line1, lcd_start_line2, lcd_wrap_lines, lcd_clr, lcd_home_bit,
  lcd_ddram, lcd_function_default,
}
use efika_mpd.Firmware.Lcd.Bus.{Reg, Bus, lcd_write, lcd_waitbusy}
use efika_mpd.Firmware.Lcd.Bus.Protocol.{digit}

-- The number of a byte.
abbrev pub value : Reg → ℕ
value r =
    128 * digit r.p7
    + 64 * digit r.p6
    + 32 * digit r.p5
    + 16 * digit r.p4
    + 8 * digit r.p3
    + 4 * digit r.p2
    + 2 * digit r.p1
    + digit r.p0

unfoldable pub lcd_command : ℕ → Bus → Option Bus
lcd_command cmd b = lcd_waitbusy b >>= λ (c, b'). some (lcd_write (cmd % 256) false b')

unfoldable pub lcd_data : ℕ → Bus → Option Bus
lcd_data d b = lcd_waitbusy b >>= λ (c, b'). some (lcd_write (d % 256) true b')

-- For two lines.
unfoldable pub lcd_newline : ℕ → Bus → Option Bus
lcd_newline pos b =
    let address_counter = if ltb pos lcd_start_line2 then lcd_start_line2 else lcd_start_line1 in
    lcd_command (2 ^ lcd_ddram + address_counter) b

unfoldable pub lcd_gotoxy : ℕ → ℕ → Bus → Option Bus
lcd_gotoxy x y b =
    if y == 0
    then lcd_command (2 ^ lcd_ddram + lcd_start_line1 + x) b
    else lcd_command (2 ^ lcd_ddram + lcd_start_line2 + x) b

unfoldable pub lcd_getxy : Bus → Option (Reg × Bus)
lcd_getxy b = lcd_waitbusy b

unfoldable pub lcd_clrscr : Bus → Option Bus
lcd_clrscr b = lcd_command (2 ^ lcd_clr) b

unfoldable pub lcd_home : Bus → Option Bus
lcd_home b = lcd_command (2 ^ lcd_home_bit) b

-- The part of `lcd_putc` that wraps lines, for two lines.
unfoldable pub wrap_line : ℕ → Bus → Option Bus
wrap_line pos b =
    lcd_waitbusy (
      if pos == lcd_start_line1 + lcd_disp_length
      then lcd_write (2 ^ lcd_ddram + lcd_start_line2) false b
      else (if pos == lcd_start_line2 + lcd_disp_length
          then lcd_write (2 ^ lcd_ddram + lcd_start_line1) false b
          else b))
    >>= λ (c, b'). some b'

-- `'\n'` is 10.
unfoldable pub lcd_putc : ℕ → Bus → Option Bus
lcd_putc c b = lcd_waitbusy b >>= λ (pos, b').
    if c == 10
    then lcd_newline (value pos) b'
    else ((if lcd_wrap_lines == 1 then wrap_line (value pos) b' else some b') >>= λ b2.
        some (lcd_write (c % 256) true b2))

-- The string of `lcd_puts` or `lcd_puts_p`, up to its terminator.
unfoldable pub lcd_puts : List ℕ → Bus → Option Bus
lcd_puts [] b = none
lcd_puts (c ∷ s) b = let rest = lcd_putc c b >>= lcd_puts s in if c == 0 then some b else rest

-- It writes with no look at the busy flag.
unfoldable pub lcd_brightness : ℕ → Bus → Bus
lcd_brightness v b = lcd_write (v % 256) true (lcd_write lcd_function_default false b)
