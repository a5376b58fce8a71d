-- ===== src/Firmware/Board/Display.antt =====
-- firmware/main.c: `lcd_update` and `lcd_scroll_cb`, which show and move the window on a line.
pub mod Window
use mathlib.Core.Option
use efika_mpd.Base.{
  ℕ, zero, suc, ◌+◌, ◌-◌, Bool, Option, none, some, List, [], ◌∷◌, ltb, ◌==◌, if◌then◌else◌, ◌>>=◌,
  get_elem?, set, replicate, bit_is_set,
}
use efika_mpd.Firmware.Board.{
  Line, Lcd, Effect, gotoxy, putc, Panel, Board, emit, buffer_length, line_length, line_count,
  lcd_auto_scroll,
}

-- `*(sp + i)`, a fault if that is out of the line's buffer.
unfoldable pub char_at : Line → ℕ → Option ℕ
char_at l i = l.sp >>= λ p. get_elem? l.buffer (p + i)

-- The two loops of `lcd_update`, with the positions left on the display: characters up to the end
-- of the string, then spaces.
unfoldable pub show : Line → ℕ → ℕ → Option (List Effect)
show l zero i = some []
show l (suc rest) i = char_at l i >>= λ c.
    let shown = Option.map (◌∷◌ (putc c)) (show l rest (i + 1)) in
    if c == 0 then some (replicate (suc rest) (putc 32)) else shown

unfoldable pub lcd_update : ℕ → Panel → Option Panel
lcd_update line_no p = get_elem? p.lcd.line line_no >>= λ l.
    show l line_length 0 >>= λ es. some (emit (gotoxy 0 line_no ∷ es) p)

abbrev pub put_line : Panel → ℕ → Line → Panel
put_line p i l = record p { lcd = record (p.lcd) { line = set p.lcd.line i l } }

-- `if (sp < buffer + length - LINE_LENGTH) sp += 1; else sp = buffer;`
unfoldable pub advance : Line → Option Line
advance l =
    l.sp >>= λ k. some (record l { sp = some (if ltb k (l.size - line_length) then k + 1 else 0) })

-- The loop of `lcd_scroll_cb`: `rounds` lines from number `i` on.
unfoldable pub scroll_from : ℕ → ℕ → Panel → Option Panel
scroll_from zero i p = some p
scroll_from (suc rounds) i p = get_elem? p.lcd.line i >>= λ l.
    (if ltb line_length l.size
      then (advance l >>= λ l'. lcd_update i (put_line p i l'))
      else some p)
    >>= λ p'. scroll_from rounds (i + 1) p'

unfoldable pub scroll : Panel → Option Panel
scroll p =
    if bit_is_set p.lcd.flags lcd_auto_scroll then scroll_from (line_count - 1) 0 p else some p
