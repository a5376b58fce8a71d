-- ===== src/Serial/Tests.antt =====
-- Tests of the serial line between client/efikampd.c and firmware/main.c.
use efika_mpd.Base.{
  List, ℕ, ◌==◌, All-replicate, ◌≡◌, refl, false, none, some, [], ◌∷◌, ◌++◌, arith, replicate,
  Returns,
}
use efika_mpd.Firmware.Timers.{blank_timer}
use efika_mpd.Firmware.Rc5.{idle}
use efika_mpd.Firmware.Board.{st_idle, Board}
use efika_mpd.Firmware.Board.Link.{strlen}
use efika_mpd.Firmware.Board.Link.Frame.{receive_all}
use efika_mpd.Firmware.Board.Main.{cleared_line, start}
use efika_mpd.Client.{cmd_down, cmd_up, Lcd}
use efika_mpd.Client.Menus.Top.{library_entry, radio_entry}
use efika_mpd.Client.Display.{lcd_clear}
use efika_mpd.Client.Command.{handle_command}
use efika_mpd.Client.Command.Moves.{marked, unmarked}
use efika_mpd.Client.Loop.{write_lcd}
use efika_mpd.Client.Tests.{library_text, radio_text, lcd, daemon, mpd, daemon-Framed, top-IsPair}
use efika_mpd.Firmware.Board.{Effect}
use efika_mpd.Firmware.Lcd.Bus.{Bus, Reg, clear_reg}
use efika_mpd.Firmware.Lcd.Driver.Writes.{Answer, IsAnswer, Went}
use efika_mpd.Firmware.Lcd.Driver.Effects.{perform_all, all_spoken, given, spelt}
use efika_mpd.Firmware.Lcd.Tests.{answer, answer-IsAnswer, bus, bus-IsSetUp, six, six-AreAnswers}
use efika_mpd.Firmware.Lcd.Setup.Sequence.{instructions, six_spoken}
use efika_mpd.Firmware.Lcd.Setup.Greeting.{Began, greeting, start-Began}
use efika_mpd.Serial.Shown.{all_due, write_lcd-displayed}
use efika_mpd.Serial.{IsReady, Obeys, asked, write_lcd-received, lcd_clear-received}
use efika_mpd.Serial.Moves.{display_line, move_shown}

-- A board that waits for a command, with nothing on its lines.
abbrev board : Board
board = (
  record { timers = replicate 10 blank_timer; s = 0; ms = 0; irq = 0 },
  record {
    lcd = record { line = cleared_line ∷ cleared_line ∷ []; flags = 0 };
    ctx = record {
      flags = 0;
      cnt = 0;
      state = st_idle;
      cmd = 0;
      uart_timeout_timer = 1;
      debounce_timer = 2;
      ps_timer = 3;
    };
    rc5 = record { r_state = idle; r_bit_cnt = 0; r_tick_cnt = 0; r_data = 0; rc5_data = 0 };
    ps_pin = false;
    effects = [];
  },
)

board-IsReady : IsReady board.1
board-IsReady = record { waits = refl; lines = refl; full = (refl, (refl, tt)) }

-- Both lines and the brightness are due.
abbrev due_lcd : Lcd
due_lcd = record lcd {
  update_flags = 11;
  dim_value = 2;
  buffer0 = replicate 25 65 ++ replicate 15 0;
  buffer1 = replicate 3 66 ++ replicate 37 0;
}

due_strings : (strlen due_lcd.buffer0 ≡ some 25) × (strlen due_lcd.buffer1 ≡ some 3)
unfolding strlen
due_strings = (refl, refl)

write_lcd_example :
    Returns
      (Obeys board (asked 0 due_lcd.buffer0 due_lcd ++ asked 1 due_lcd.buffer1 due_lcd))
      (receive_all (write_lcd due_lcd) board)
write_lcd_example =
    write_lcd-received board due_lcd board-IsReady refl refl (λ e z. ground (arith, due_strings.0))
      (λ e z. ground (arith, due_strings.1))

lcd_clear_example : receive_all (write_lcd (lcd_clear lcd)) board ≡ none
lcd_clear_example = lcd_clear-received board lcd board-IsReady

move_shown_example :
    Returns
      (λ d'.
        Returns
          (λ b'.
            b'.1.effects
            ≡ [] ++ (display_line 0 (unmarked library_text) ++ display_line 1 (marked radio_text)))
          (receive_all (write_lcd d'.lcd) board))
      (handle_command cmd_down mpd daemon)
    × Returns
        (λ d'.
          Returns
            (λ b'.
              b'.1.effects
              ≡ []
                ++ (display_line 0 (marked library_text) ++ display_line 1 (unmarked radio_text)))
            (receive_all (write_lcd d'.lcd) board))
        (handle_command cmd_up mpd (record daemon { pmenu = some 1 }))
move_shown_example =
    move_shown mpd daemon 0 1 (library_entry 1) (radio_entry 0) library_text radio_text board
      daemon-Framed top-IsPair board-IsReady

-- Only the first line is due: an address and twenty characters.
abbrev first_line : Lcd
first_line = record due_lcd { update_flags = 1 }

abbrev answers : List Answer
answers = replicate 21 answer

abbrev display_bus : Bus
display_bus = bus (all_spoken answers [])

write_lcd-displayed_example :
    Returns
      (λ b'.
        (es : List Effect) × (b'.1.effects ≡ [] ++ es)
        × Returns (Went display_bus (all_due first_line) []) (perform_all es display_bus))
      (receive_all (write_lcd first_line) board)
write_lcd-displayed_example =
    write_lcd-displayed board first_line answers [] display_bus board-IsReady refl refl
      (λ e z. ground (arith, due_strings.0)) (λ e z. ground (arith, due_strings.1))
      (All-replicate (λ (c : ℕ). (c == 10) ≡ false) 25 65 refl)
      (All-replicate (λ (c : ℕ). (c == 10) ≡ false) 3 66 refl) (bus-IsSetUp (all_spoken answers []))
      (All-replicate IsAnswer 21 answer answer-IsAnswer) refl refl

abbrev fresh : List Reg → Bus
fresh is = record (bus is) { ddr_c = clear_reg; ddr_d = clear_reg }

abbrev many : List Answer
many = replicate 42 answer

abbrev fresh_bus : Bus
fresh_bus = fresh (six_spoken six (all_spoken many []))

start-Began_example :
    (es : List Effect) × ((start board).1.effects ≡ [] ++ es)
    × Returns
        (Began fresh_bus (instructions ++ given (spelt greeting) many) [])
        (perform_all es fresh_bus)
start-Began_example =
    start-Began board six many [] fresh_bus
      (record { rs_low = refl; rw_low = refl; data2_low = refl; data3_low = refl }) six-AreAnswers
      (All-replicate IsAnswer 42 answer answer-IsAnswer) refl refl
