-- ===== src/Firmware/Board/Main.antt =====
-- firmware/main.c: the callbacks of the timers, and `main`. What `uart_getc` returns in a round of
-- the loop is an argument of it. Interrupts come between two rounds.
pub mod Safety
pub mod Rounds
pub mod Keys
mod Tests
use efika_mpd.Base.{
  ℕ, ◌%◌, Bool, true, false, ◌++◌, Option, none, some, List, [], ◌∷◌, ◌==◌, if◌then◌else◌, ◌>>=◌,
  bit_is_set, set_bit, clear_bit, replicate,
}
use efika_mpd.Firmware.Timers.{
  Timers, timer_init, timer1_compa_vect, timer_add, timer_set, timer_enable, timer_get_pdata,
  timer_update,
}
use efika_mpd.Firmware.Rc5.{Rc5, rc5_init, rc5_get, int0_vect, timer0_ovf_vect, rc5_flag_valid}
use efika_mpd.Firmware.Board.{
  Line, Lcd, State, st_idle, Ctx, Callback, lcd_scroll_cb, uart_timeout_cb, debounce_cb, ps_cb,
  Pdata, puts, brightness, init_lcd, init_uart, send, Panel, Board, emit, buffer_length, line_count,
  lcd_scroll, uart_timeout, debounce_duration, ps_duration, stb_code, flag_debounce,
}
use efika_mpd.Firmware.Board.Display.{scroll}
use efika_mpd.Firmware.Board.Link.{put_ctx, uart_handle_data}
use Prim.Native.String.{String}
use Prim.Native.Char.{code}

-- The code points of a text.
abbrev pub codes : String → List ℕ
codes String.[] = []
codes (String.◌∷◌ c s) = code c ∷ codes s

unfoldable pub on_uart_timeout : ℕ → Board → Option Board
on_uart_timeout id (t, p) = timer_get_pdata id t >>= λ _. some (
  t,
  emit (puts (codes "  Efika MPD Player  \n") ∷ puts (codes "                    ") ∷ [])
      (put_ctx p (record (p.ctx) { cnt = 0; state = st_idle })),
)

unfoldable pub on_debounce : ℕ → Board → Option Board
on_debounce id (t, p) = timer_get_pdata id t >>= λ _.
    some (t, put_ctx p (record (p.ctx) { flags = clear_bit p.ctx.flags flag_debounce }))

unfoldable pub run_callback : Callback → ℕ → Board → Option Board
run_callback lcd_scroll_cb id (t, p) = scroll p >>= λ p'. some (t, p')
run_callback uart_timeout_cb id b = on_uart_timeout id b
run_callback debounce_cb id b = on_debounce id b
run_callback ps_cb id (t, p) = some (t, record p { ps_pin = false })

-- `timer_add` and `timer_set` in a row, with the number that the first returned.
abbrev pub add_timer :
    Callback → ℕ → ℕ → Option Pdata → Timers Pdata Callback → Timers Pdata Callback × ℕ
add_timer c ticks flags pdata t =
    let (t', id) = timer_add (some c) t in ((timer_set id ticks flags pdata t').0, id)

abbrev pub cleared_line : Line
cleared_line = record { buffer = replicate buffer_length 0; sp = none; size = 0; pause_cnt = 0 }

-- `main` up to `sei()`. The members of `ctx` that it leaves unset keep what they held.
unfoldable pub start : Board → Board
start (t, p) =
    let (t1, scroll_timer) =
      add_timer lcd_scroll_cb lcd_scroll (set_bit (set_bit 0 0) 1) none (timer_init t) in
    let (t2, timeout_timer) = add_timer uart_timeout_cb uart_timeout 0 (some tt) t1 in
    let (t3, debounce_timer) = add_timer debounce_cb debounce_duration 0 (some tt) t2 in
    let (t4, ps_timer) = add_timer ps_cb ps_duration 0 (some tt) t3 in
    (
      t4,
      record p {
        rc5 = rc5_init p.rc5;
        ctx = record (p.ctx) {
          uart_timeout_timer = timeout_timer;
          debounce_timer = debounce_timer;
          ps_timer = ps_timer;
          state = st_idle;
          flags = 0;
        };
        lcd = record { line = replicate line_count cleared_line; flags = 0 };
        effects =
            p.effects
            ++ init_uart
              ∷ init_lcd
              ∷ puts (codes "  Efika MPD Player  \n")
              ∷ puts (codes "     please wait    ")
              ∷ brightness 2
              ∷ [];
      },
    )

-- The part of a round that sends a key on, unless one was sent within the last 200 ms.
unfoldable pub forward_key : ℕ → ℕ → Board → Board
forward_key addr code (t, p) = if bit_is_set p.ctx.flags flag_debounce then (t, p) else (
  (timer_enable p.ctx.debounce_timer t).0,
  put_ctx (emit (send addr ∷ send code ∷ []) p)
      (record (p.ctx) { flags = set_bit p.ctx.flags flag_debounce }),
)

unfoldable pub pulse_power : ℕ → Board → Board
pulse_power code (t, p) =
    if code == stb_code
    then ((timer_enable p.ctx.ps_timer t).0, record p { ps_pin = true })
    else (t, p)

unfoldable pub handle_key : Board → Board
handle_key (t, p) =
    if bit_is_set p.rc5.rc5_data rc5_flag_valid
    then (let (addr, code) = rc5_get p.rc5.rc5_data in
        let (t', p') = pulse_power code (forward_key addr code (t, p)) in
        (t', record p' { rc5 = record (p'.rc5) { rc5_data = 0 } }))
    else (t, p)

-- The bit of `uart_getc`'s result that says that there was no byte.
abbrev pub uart_no_data : ℕ
uart_no_data = 8

unfoldable pub receive : ℕ → Board → Option Board
receive c b = if bit_is_set c uart_no_data then some b else uart_handle_data (c % 256) b

-- One round of the loop in `main`.
unfoldable pub round : ℕ → Board → Option Board
round c b = receive c (handle_key b) >>= λ b'. timer_update run_callback b'

-- What happens to the board: the interrupts, and a round of the main loop.
pub data Event : Type 0 where
  timer1_isr timer0_isr : Event
  int0_isr : Bool → Event
  loops : ℕ → Event

unfoldable pub step : Event → Board → Option Board
step timer1_isr (t, p) = some (timer1_compa_vect t, p)
step timer0_isr (t, p) = some (t, record p { rc5 = timer0_ovf_vect p.rc5 })
step (int0_isr pin) (t, p) = some (t, record p { rc5 = int0_vect pin p.rc5 })
step (loops c) b = round c b
