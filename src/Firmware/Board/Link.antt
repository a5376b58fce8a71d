-- ===== src/Firmware/Board/Link.antt =====
-- firmware/main.c: the bytes from the client, in `check_cmd`, `uart_collect` and
-- `uart_handle_data`. A write or a string search out of a buffer is a fault.
pub mod Frame
use efika_mpd.Base.{
  ℕ, zero, suc, ◌+◌, ◌-◌, ◌/◌, ◌%◌, ◌&&◌, Option, none, some, List, [], ◌∷◌, ltb, leb, ◌==◌,
  if◌then◌else◌, ◌>>=◌, get_elem?, set, length,
}
use efika_mpd.Firmware.Timers.{timer_enable, timer_disable}
use efika_mpd.Firmware.Board.{
  Line, Lcd, State, st_idle, st_data, Ctx, brightness, Panel, Board, emit, buffer_length,
  cmd_lcd_update, cmd_lcd_flags, cmd_lcd_dim,
}
use efika_mpd.Firmware.Board.Display.{lcd_update, put_line}

abbrev pub high_nibble : ℕ → ℕ
high_nibble n = n / 16

abbrev pub low_nibble : ℕ → ℕ
low_nibble n = n % 16

-- The results that go through `cmd` and `length`, if `check_cmd` returns 1.
unfoldable pub check_cmd : ℕ → Option (ℕ × ℕ)
check_cmd c =
    if high_nibble c == cmd_lcd_update
    then some (c, buffer_length)
    else (if high_nibble c == cmd_lcd_flags
        then some (c, 1)
        else (if high_nibble c == cmd_lcd_dim then some (c, 1) else none))

-- The length of the string in a buffer that holds one.
unfoldable pub strlen : List ℕ → Option ℕ
strlen [] = none
strlen (c ∷ cs) = let rest = strlen cs >>= λ n. some (n + 1) in if c == 0 then some 0 else rest

abbrev pub put_ctx : Panel → Ctx → Panel
put_ctx p c = record p { ctx = c }

-- `buffer[BUFFER_LENGTH - cnt] = k`
unfoldable pub store : Line → ℕ → ℕ → Option Line
store l cnt k =
    if leb cnt buffer_length && ltb (buffer_length - cnt) (length l.buffer)
    then some (record l { buffer = set l.buffer (buffer_length - cnt) k })
    else none

-- `length = strlen(buffer); sp = buffer;`
unfoldable pub complete : Line → Option Line
complete l = strlen l.buffer >>= λ n. some (record l { size = n % 256; sp = some 0 })

unfoldable pub collect_update : ℕ → Panel → Option Panel
collect_update k p =
    let n = low_nibble p.ctx.cmd in
    get_elem? p.lcd.line n >>= λ l. store l p.ctx.cnt k >>= λ l'.
    if p.ctx.cnt == 1
    then (complete l' >>= λ l''. lcd_update n (put_line p n l''))
    else some (put_line p n l')

unfoldable pub uart_collect : ℕ → Panel → Option Panel
uart_collect k p =
    if high_nibble p.ctx.cmd == cmd_lcd_update
    then collect_update k p
    else (if high_nibble p.ctx.cmd == cmd_lcd_flags
        then some (record p { lcd = record (p.lcd) { flags = k } })
        else (if high_nibble p.ctx.cmd == cmd_lcd_dim
            then some (if ltb k 4 then emit (brightness k ∷ []) p else p)
            else some p))

unfoldable pub handle_idle : ℕ → Board → Option Board
handle_idle k (t, p) = elim (check_cmd k) [
  | none ↦ some (t, p)
  | some r ↦ some (
    (timer_enable p.ctx.uart_timeout_timer t).0,
    put_ctx p (record (p.ctx) { cmd = r.0; cnt = r.1; state = st_data }),
  )
]

-- `ctx->cnt -= 1`, and the end of the command when that was the last byte.
unfoldable pub count_byte : Board → Board
count_byte (t, p) =
    let c = record (p.ctx) { cnt = p.ctx.cnt - 1 } in
    if c.cnt == 0
    then ((timer_disable c.uart_timeout_timer t).0, put_ctx p (record c { state = st_idle }))
    else (t, put_ctx p c)

unfoldable pub handle_data : ℕ → Board → Option Board
handle_data k (t, p) =
    if ltb 0 p.ctx.cnt then (uart_collect k p >>= λ p'. some (count_byte (t, p'))) else some (t, p)

unfoldable pub handle : State → ℕ → Board → Option Board
handle st_idle k b = handle_idle k b
handle st_data k b = handle_data k b

unfoldable pub uart_handle_data : ℕ → Board → Option Board
uart_handle_data k b = handle b.1.ctx.state k b
