-- ===== src/Firmware/Board/Main/Tests.antt =====
-- Tests of firmware/main.c: a board after reset, and one with two lines on the display.
use efika_mpd.Base.{
  ℕ, ◌+◌, ◌^◌, ◌≡◌, refl, true, false, none, some, List, [], ◌∷◌, ◌++◌, map, arith, ◌>>=◌,
  get_elem?, replicate, bit_is_set, Returns,
}
use efika_mpd.Firmware.Timers.{Timers, blank_timer, timer_update, timer_enable, timer_disable}
use efika_mpd.Firmware.Timers.Update.{timer_update-Returns}
use efika_mpd.Firmware.Rc5.{Rc5, idle, rc5_get, rc5_init}
use efika_mpd.Firmware.Rc5.Wire.{Cell, direct, split, transmission}
use efika_mpd.Firmware.Rc5.Invariant.{edge}
use efika_mpd.Firmware.Board.{
  Line, st_idle, Ctx, Callback, Pdata, send, Panel, Board, flag_debounce,
}
use efika_mpd.Firmware.Board.Display.Window.{frames, scrolls, scrolls_lem}
use efika_mpd.Firmware.Board.Link.{strlen, uart_handle_data}
use efika_mpd.Firmware.Board.Link.Frame.{receive_all, updated, receive_update, receive_unterminated}
use efika_mpd.Firmware.Board.Bounds.Link.{bad_line}
use efika_mpd.Firmware.Board.Main.{
  cleared_line, run_callback, start, handle_key, Event, timer1_isr, int0_isr, loops,
}
use efika_mpd.Firmware.Board.Main.Safety.{IsSafe}
use efika_mpd.Firmware.Board.Main.Rounds.{
  run, AllAcceptable, board_guarded, start-IsSafe, run-start-IsSafe,
}
use efika_mpd.Firmware.Board.Main.Keys.{event, handle_key_lem, key_sent}

abbrev reset_rc5 : Rc5
reset_rc5 = record { r_state = idle; r_bit_cnt = 0; r_tick_cnt = 0; r_data = 0; rc5_data = 0 }

abbrev reset_ctx : Ctx
reset_ctx = record {
  flags = 0;
  cnt = 0;
  state = st_idle;
  cmd = 0;
  uart_timeout_timer = 1;
  debounce_timer = 2;
  ps_timer = 3;
}

-- A text of 25 characters, of which the window shows the first twenty.
abbrev long_text : List ℕ
long_text = replicate 20 65 ++ 66 ∷ 67 ∷ 68 ∷ 69 ∷ 70 ∷ replicate 15 0

abbrev long_line : Line
long_line = record { buffer = long_text; sp = some 0; size = 25; pause_cnt = 0 }

-- The lines scroll.
abbrev panel : Panel
panel = record {
  lcd = record { line = long_line ∷ cleared_line ∷ []; flags = 1 };
  ctx = reset_ctx;
  rc5 = reset_rc5;
  ps_pin = false;
  effects = [];
}

abbrev timers : Timers Pdata Callback
timers = record { timers = replicate 10 blank_timer; s = 0; ms = 0; irq = 0 }

abbrev board : Board
board = (timers, panel)

-- The command byte for line 1, and two interrupts.
abbrev events : List Event
events = loops 0x11 ∷ timer1_isr ∷ int0_isr false ∷ []

events-AllAcceptable : AllAcceptable events (start board)
unfolding start handle_key rc5_init
events-AllAcceptable = (λ e h. omega arith, λ b' e. (tt, λ b'' f. (tt, λ b''' g. tt)))

run-start_example : Returns IsSafe (run events (start board))
run-start_example = run-start-IsSafe events board events-AllAcceptable

guarded_example : Returns IsSafe (timer_update run_callback (start board))
guarded_example =
    timer_update-Returns run_callback IsSafe board_guarded (start board) (start-IsSafe board)

scrolls_example :
    Returns
      (λ p'.
        (get_elem? p'.lcd.line 0 ≡ some (record long_line { sp = some 2 }))
        × (p'.effects ≡ frames long_line.buffer 25 0 8))
      (scrolls 8 panel)
scrolls_example =
    scrolls_lem 8 panel long_line 0 refl refl refl (omega arith) (omega arith) (omega arith)

long_text-strlen : strlen long_text ≡ some 25
unfolding strlen
long_text-strlen = refl

receive_update_example :
    receive_all (17 ∷ long_text) board
    ≡ some
        ((timer_disable 1 (timer_enable 1 timers).0).0, updated panel 1 cleared_line 25 long_text)
receive_update_example =
    receive_update timers panel 1 cleared_line long_text 25 (omega arith) refl refl refl refl
      long_text-strlen

-- Forty spaces hold no end of a string.
spaces-strlen : strlen (replicate 40 32) ≡ none
unfolding strlen
spaces-strlen = refl

receive_unterminated_example : receive_all (17 ∷ replicate 40 32) board ≡ none
receive_unterminated_example =
    receive_unterminated timers panel 1 cleared_line (replicate 40 32) (omega arith) refl refl refl
      refl spaces-strlen

bad_line_example : (uart_handle_data 18 (start board) >>= uart_handle_data 65) ≡ none
unfolding start
bad_line_example =
    bad_line (start board).0 (start board).1 2 65 (start-IsSafe board).bounds refl (omega arith)
      (omega arith)

-- Address 0 and the standby key, received while nothing else was sent.
abbrev with_key : Board
with_key = (timers, record panel { rc5 = record reset_rc5 { rc5_data = 2 ^ 15 + 2 } })

key_code : rc5_get (2 ^ 15 + 2) ≡ (0, 66)
unfolding rc5_get
key_code = refl

handle_key_example :
    let p' = (handle_key with_key).1 in
    (p'.rc5.rc5_data ≡ 0)
    × (p'.effects ≡ send 0 ∷ send 66 ∷ [])
    × (bit_is_set p'.ctx.flags flag_debounce ≡ true)
    × (p'.ps_pin ≡ true)
handle_key_example = handle_key_lem with_key 0 66 refl key_code

-- The frame of a key with address 0 and code 64: thirteen zeros.
abbrev zero_bit : Cell
zero_bit = split 8 false 8 true

abbrev zeros : List Cell
zeros = replicate 12 zero_bit

key_sent_example :
    Returns
      (λ b'. b'.1.effects ≡ send 0 ∷ send 64 ∷ [])
      (run (map event (edge false ∷ transmission (direct 16 true ∷ zeros)) ++ loops 256 ∷ []) board)
key_sent_example =
    key_sent false (direct 16 true) zeros board 0 0 64 256 refl refl refl refl refl (omega arith)
      (ground arith) refl refl (omega arith) (omega arith) (omega arith) refl
