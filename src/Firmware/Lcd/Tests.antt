-- ===== src/Firmware/Lcd/Tests.antt =====
-- Tests of the driver firmware/lcd.c on a display that is busy once before each transfer.
use efika_mpd.Base.{
  ◌*◌, ◌<◌, ◌≡◌, refl, true, false, List, [], ◌∷◌, arith, replicate, All-replicate, Returns,
  if◌then◌else◌, ◌==◌,
}
use efika_mpd.Firmware.Board.{Effect, gotoxy, putc, puts, brightness}
use efika_mpd.Firmware.Lcd.Bus.{
  Reg, clear_reg, Bus, delay_count, delay_four_cycles, lcd_write, lcd_waitbusy,
}
use efika_mpd.Firmware.Lcd.Bus.Transfer.{IsSetUp, Gave, Answered, lcd_write_lem}
use efika_mpd.Firmware.Lcd.Bus.Busy.{lcd_waitbusy_lem}
use efika_mpd.Firmware.Lcd.Bus.Timing.{delay_lem, cycles_per_us}
use efika_mpd.Firmware.Lcd.Driver.Writes.{Answer, IsAnswer, spoken, Went}
use efika_mpd.Firmware.Lcd.Driver.Effects.{perform_all, all_spoken, given, spelt, perform_all_lem}
use efika_mpd.Firmware.Lcd.Setup.Sequence.{Six, AreAnswers}

-- The high half of an answer that the display is busy.
abbrev pub busy_reg : Reg
busy_reg = record clear_reg { p5 = true }

abbrev pub answer : Answer
answer = record {
  busy = (busy_reg, clear_reg) ∷ [];
  idle = (clear_reg, clear_reg);
  address = (clear_reg, clear_reg);
}

pub answer-IsAnswer : IsAnswer answer
answer-IsAnswer = record { busy_all = (refl, tt); idle_last = refl }

-- After `lcd_init`.
abbrev pub bus : List Reg → Bus
bus is = record {
  out_c = clear_reg;
  out_d = clear_reg;
  ddr_c = record clear_reg { p0 = true; p1 = true };
  ddr_d = record clear_reg { p3 = true };
  trace = [];
  input = is;
}

pub bus-IsSetUp : (is : List Reg) → IsSetUp (bus is)
bus-IsSetUp is = record { rs_out = refl; rw_out = refl; e_out = refl }

lcd_write_example : Gave (bus []) ((true, 65) ∷ []) (lcd_write 65 true (bus []))
lcd_write_example = lcd_write_lem 65 true (bus []) (bus-IsSetUp []) (omega arith)

lcd_waitbusy_example :
    Returns
      (Answered (bus (spoken answer [])) (clear_reg, clear_reg) [])
      (lcd_waitbusy (bus (spoken answer [])))
lcd_waitbusy_example =
    lcd_waitbusy_lem ((busy_reg, clear_reg) ∷ []) (clear_reg, clear_reg) (clear_reg, clear_reg) []
      (bus (spoken answer [])) (bus-IsSetUp (spoken answer [])) (refl, tt) refl refl

delay_example :
    (delay_count 16000 < 65536)
    × (delay_four_cycles (delay_count 16000) ≡ (if 16000 == 0 then 2 else 16000 * cycles_per_us))
delay_example = delay_lem 16000 (omega arith)

abbrev pub six : Six
six = record { a1 = answer; a2 = answer; a3 = answer; a4 = answer; a5 = answer; a6 = answer }

pub six-AreAnswers : AreAnswers six
six-AreAnswers = record {
  v1 = answer-IsAnswer;
  v2 = answer-IsAnswer;
  v3 = answer-IsAnswer;
  v4 = answer-IsAnswer;
  v5 = answer-IsAnswer;
  v6 = answer-IsAnswer;
}

-- A character on the second line, a text with a line feed, and a brightness.
abbrev drawn : List Effect
drawn = gotoxy 3 1 ∷ putc 65 ∷ puts (72 ∷ 105 ∷ 10 ∷ []) ∷ brightness 2 ∷ []

abbrev six_answers : List Answer
six_answers = replicate 6 answer

drawn_bytes :
    given (spelt drawn) six_answers
    ≡ (false, 195)
      ∷ (true, 65)
      ∷ (true, 72)
      ∷ (true, 105)
      ∷ (false, 192)
      ∷ (false, 40)
      ∷ (true, 2)
      ∷ []
drawn_bytes = refl

perform_all_example :
    Returns
      (Went (bus (all_spoken six_answers [])) (given (spelt drawn) six_answers) [])
      (perform_all drawn (bus (all_spoken six_answers [])))
perform_all_example =
    perform_all_lem drawn six_answers [] (bus (all_spoken six_answers []))
      (bus-IsSetUp (all_spoken six_answers [])) (tt, (tt, (tt, (tt, tt))))
      (All-replicate IsAnswer 6 answer answer-IsAnswer) refl refl
