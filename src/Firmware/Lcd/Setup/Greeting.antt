-- ===== src/Firmware/Lcd/Setup/Greeting.antt =====
-- What firmware/main.c shows when it starts, by firmware/lcd.c.
use efika_mpd.Base.{
  ◌≡◌, refl, ◌∙◌, ap, some, List, [], ◌∷◌, ◌++◌, append_assoc, length, All, Returns, Returns->>=,
  Returns-map,
}
use efika_mpd.Firmware.Board.{Effect, puts, brightness, init_lcd, init_uart, Board}
use efika_mpd.Firmware.Board.Main.{codes, start}
use efika_mpd.Firmware.Lcd.{lcd_disp_on_cursor}
use efika_mpd.Firmware.Lcd.Bus.{Reg, Act, Bus}
use efika_mpd.Firmware.Lcd.Bus.Protocol.{Write, decode, decode-append}
use efika_mpd.Firmware.Lcd.Bus.Transfer.{IsSetUp, others}
use efika_mpd.Firmware.Lcd.Driver.Writes.{Answer, IsAnswer, Went}
use efika_mpd.Firmware.Lcd.Driver.Effects.{
  perform, perform_all, given, spelt, all_spoken, perform_all_lem,
}
use efika_mpd.Firmware.Lcd.Setup.{lcd_init}
use efika_mpd.Firmware.Lcd.Setup.Sequence.{
  IsReset, opening, instructions, Six, AreAnswers, six_spoken, lcd_init_lem,
}

-- The calls after `lcd_init`.
abbrev pub greeting : List Effect
greeting =
    puts (codes "  Efika MPD Player  \n") ∷ puts (codes "     please wait    ") ∷ brightness 2 ∷ []

-- The display was opened, and was then given the bytes `ws`.
abbrev pub Began : Bus → List Write → List Reg → Bus → Type 0
Began b ws rest b' =
    (acts : List Act) × (b'.trace ≡ b.trace ++ opening ++ acts)
    × (decode acts ≡ some ws)
    × (b'.input ≡ rest)
    × (others b' ≡ others b)
    × IsSetUp b'

Began-then :
    (b b1 b2 : Bus) (ws vs : List Write) (mid rest : List Reg)
    → Began b ws mid b1
    → Went b1 vs rest b2
    → Began b (ws ++ vs) rest b2
Began-then b b1 b2 ws vs mid rest g h = (
  g.0 ++ h.1.0,
  h.1.1 ∙ ap (λ x. x ++ h.1.0) g.1 ∙ append_assoc (b.trace ++ opening) g.0 h.1.0,
  decode-append g.0 h.1.0 ws vs g.2 h.1.2,
  h.0,
  h.1.3 ∙ g.4,
  h.1.4,
)

greeting_performed :
    (q : Six) (qs : List Answer) (rest : List Reg) (bus : Bus)
    → IsReset bus
    → AreAnswers q
    → All IsAnswer qs
    → length qs ≡ 42
    → bus.input ≡ six_spoken q (all_spoken qs rest)
    → Returns
        (Began bus (instructions ++ given (spelt greeting) qs) rest)
        (perform_all (init_uart ∷ init_lcd ∷ greeting) bus)
unfolding perform perform_all
greeting_performed q qs rest bus r v w n e =
    Returns->>= (Began bus instructions (all_spoken qs rest))
      (Began bus (instructions ++ given (spelt greeting) qs) rest) (lcd_init lcd_disp_on_cursor bus)
      (perform_all greeting) (lcd_init_lem lcd_disp_on_cursor q (all_spoken qs rest) bus r v e)
      λ b1 g.
        Returns-map (Went b1 (given (spelt greeting) qs) rest)
          (Began bus (instructions ++ given (spelt greeting) qs) rest) (perform_all greeting b1)
          (perform_all_lem greeting qs rest b1 g.5 (tt, (tt, (tt, tt))) w n g.3)
          λ b2 h.
            Began-then bus b1 b2 instructions (given (spelt greeting) qs) (all_spoken qs rest) rest
              g h

-- From the state after a reset, what the firmware does to the display before its main loop brings
-- it to four data lines, sets it up, and gives it the two texts, the line feed between them as
-- the address of the line behind the cursor, and the brightness two, in order and nothing else.
-- The display answers each time that it is asked, with the busy flag clear in the end: six times
-- at set-up and 42 times for the texts.
pub start-Began :
    (b : Board) (q : Six) (qs : List Answer) (rest : List Reg) (bus : Bus)
    → IsReset bus
    → AreAnswers q
    → All IsAnswer qs
    → length qs ≡ 42
    → bus.input ≡ six_spoken q (all_spoken qs rest)
    → (es : List Effect) × ((start b).1.effects ≡ b.1.effects ++ es)
      × Returns (Began bus (instructions ++ given (spelt greeting) qs) rest) (perform_all es bus)
unfolding start
start-Began (t, p) q qs rest bus r v w n e =
    (init_uart ∷ init_lcd ∷ greeting, refl, greeting_performed q qs rest bus r v w n e)
