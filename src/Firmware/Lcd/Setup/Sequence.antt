-- ===== src/Firmware/Lcd/Setup/Sequence.antt =====
-- firmware/lcd.c: what `lcd_init` does to the display.
use efika_mpd.Base.{
  ℕ, ◌%◌, ◌≡◌, refl, sym, subst, ◌∙◌, ap, true, false, some, List, [], ◌∷◌, ◌++◌, ◌>>=◌,
  append_assoc, Returns, Returns-map,
}
use efika_mpd.Firmware.Lcd.Bus.{
  Reg, Act, strobe, wait, Bus, toggle_e, lcd_e_high, lcd_e_low, lcd_rs_high, lcd_rs_low, delay,
  delay_count,
}
use efika_mpd.Firmware.Lcd.Bus.Protocol.{Write, decode, low_half}
use efika_mpd.Firmware.Lcd.Bus.Transfer.{IsSetUp, Gave-trans, others}
use efika_mpd.Firmware.Lcd.Bus.Busy.{delay-Gave, delay-input}
use efika_mpd.Firmware.Lcd.Driver.{lcd_command, lcd_clrscr}
use efika_mpd.Firmware.Lcd.Driver.Writes.{Answer, IsAnswer, spoken, Went, Went->>=, lcd_command_lem}
use efika_mpd.Firmware.Lcd.Setup.{set_outputs, enter_4bit, set_up_display, lcd_init}

-- The pins that the driver takes to be low, as they are after a reset of the microcontroller.
pub record IsReset (b : Bus) : Type 0 where
  pub rs_low : b.out_d.p3 ≡ false
  pub rw_low : b.out_c.p1 ≡ false
  pub data2_low : b.out_c.p4 ≡ false
  pub data3_low : b.out_c.p5 ≡ false

abbrev pub reset : Bus → Bus
reset b = record b {
  out_c = record (b.out_c) { p1 = false; p4 = false; p5 = false };
  out_d = record (b.out_d) { p3 = false };
}

reset-IsReset : (b : Bus) → IsReset b → b ≡ reset b
reset-IsReset b r = λ i. record b {
  out_c = record (b.out_c) { p1 = r.rw_low i; p4 = r.data2_low i; p5 = r.data3_low i };
  out_d = record (b.out_d) { p3 = r.rs_low i };
}

-- A strobe of four bits.
abbrev pub shows : ℕ → Act
shows n = strobe (low_half false n)

-- Three times the instruction for eight data lines, twice the one for four, and a strobe with RS
-- high; a wait is in loops of four cycles.
abbrev pub opening : List Act
opening =
    wait 32000
    ∷ shows 3
    ∷ wait 9984
    ∷ shows 3
    ∷ wait 128
    ∷ shows 3
    ∷ wait 128
    ∷ shows 2
    ∷ wait 128
    ∷ shows 2
    ∷ wait 128
    ∷ strobe (low_half true 0)
    ∷ wait 128
    ∷ []

-- The driver did `acts`, and the control lines are outputs.
abbrev pub Opened : Bus → List Act → Bus → Type 0
Opened b acts b' =
    (b'.trace ≡ b.trace ++ acts) × (b'.input ≡ b.input) × (others b' ≡ others b) × IsSetUp b'

open_reset : (b : Bus) → Opened b opening (enter_4bit (set_outputs (reset b)))
unfolding enter_4bit set_outputs toggle_e lcd_e_high lcd_e_low lcd_rs_high lcd_rs_low delay
    delay_count
open_reset b =
    (simp append_assoc refl, refl, refl, record { rs_out = refl; rw_out = refl; e_out = refl })

opened_lem : (b : Bus) → IsReset b → Opened b opening (enter_4bit (set_outputs b))
opened_lem b r =
    subst (λ x. Opened b opening (enter_4bit (set_outputs x))) (sym (reset-IsReset b r))
      (open_reset b)

-- The instructions that follow, with four data lines.
abbrev pub instructions : List Write
instructions =
    (false, 0x28)
    ∷ (false, 0x08)
    ∷ (false, 0x01)
    ∷ (false, 0x0C)
    ∷ (false, 0x06)
    ∷ (false, 0x0C)
    ∷ []

-- Six answers, one for each instruction.
pub record Six : Type 0 where
  pub a1 : Answer
  pub a2 : Answer
  pub a3 : Answer
  pub a4 : Answer
  pub a5 : Answer
  pub a6 : Answer

pub record AreAnswers (q : Six) : Type 0 where
  pub v1 : IsAnswer q.a1
  pub v2 : IsAnswer q.a2
  pub v3 : IsAnswer q.a3
  pub v4 : IsAnswer q.a4
  pub v5 : IsAnswer q.a5
  pub v6 : IsAnswer q.a6

abbrev pub from4 : Six → List Reg → List Reg
from4 q rest = spoken q.a4 (spoken q.a5 (spoken q.a6 rest))

abbrev pub six_spoken : Six → List Reg → List Reg
six_spoken q rest = spoken q.a1 (spoken q.a2 (spoken q.a3 (from4 q rest)))

delay-Went :
    (us : ℕ) (b b1 : Bus) (ws : List Write) (rest : List Reg)
    → IsSetUp b
    → Went (delay us b) ws rest b1
    → Went b ws rest b1
delay-Went us b b1 ws rest s q = (q.0, Gave-trans b (delay us b) b1 [] ws (delay-Gave us b s) q.1)

three_commands :
    (c1 c2 c3 : ℕ) (a1 a2 a3 : Answer) (rest : List Reg) (b : Bus)
    → IsSetUp b
    → IsAnswer a1
    → IsAnswer a2
    → IsAnswer a3
    → b.input ≡ spoken a1 (spoken a2 (spoken a3 rest))
    → Returns
        (Went b ((false, c1 % 256) ∷ (false, c2 % 256) ∷ (false, c3 % 256) ∷ []) rest)
        (lcd_command c1 b >>= lcd_command c2 >>= lcd_command c3)
three_commands c1 c2 c3 a1 a2 a3 rest b s v1 v2 v3 e =
    Went->>= b ((false, c1 % 256) ∷ (false, c2 % 256) ∷ []) ((false, c3 % 256) ∷ [])
      (spoken a3 rest) rest (lcd_command c1 b >>= lcd_command c2) (lcd_command c3)
      (Went->>= b ((false, c1 % 256) ∷ []) ((false, c2 % 256) ∷ []) (spoken a2 (spoken a3 rest))
        (spoken a3 rest) (lcd_command c1 b) (lcd_command c2)
        (lcd_command_lem c1 a1 (spoken a2 (spoken a3 rest)) b s v1 e)
        (λ b1 s1 e1. lcd_command_lem c2 a2 (spoken a3 rest) b1 s1 v2 e1))
      (λ b1 s1 e1. lcd_command_lem c3 a3 rest b1 s1 v3 e1)

set_up_display_lem :
    (q : Six) (rest : List Reg) (b : Bus)
    → IsSetUp b
    → AreAnswers q
    → b.input ≡ six_spoken q rest
    → Returns (Went b instructions rest) (set_up_display b)
unfolding set_up_display lcd_clrscr
set_up_display_lem q rest b s v e =
    Went->>= b ((false, 0x28) ∷ (false, 0x08) ∷ (false, 0x01) ∷ [])
      ((false, 0x0C) ∷ (false, 0x06) ∷ (false, 0x0C) ∷ []) (from4 q rest) rest
      (lcd_command 0x28 b >>= lcd_command 0x08 >>= lcd_clrscr) _
      (three_commands 0x28 0x08 0x01 q.a1 q.a2 q.a3 (from4 q rest) b s v.v1 v.v2 v.v3 e)
      λ b1 s1 e1.
        Returns-map (Went (delay 3000 b1) _ rest) (Went b1 _ rest) _
          (three_commands 0x0C 0x06 0x0C q.a4 q.a5 q.a6 rest (delay 3000 b1)
            (delay-Gave 3000 b1 s1).4 v.v4 v.v5 v.v6 (delay-input 3000 b1 ∙ e1))
          λ b2 r. delay-Went 3000 b1 b2 _ rest s1 r

-- From the pins' state after a reset, `lcd_init` brings the display to four data lines by the
-- strobes and waits of `opening`, and then gives it the six instructions for two lines, display
-- off, clear, display on, moving on to the right, and display on. It does so whatever attribute
-- it is called with, for any six answers of the display whose last is that it is not busy, and
-- afterwards the control lines are outputs and the pins of others are as they were.
pub lcd_init_lem :
    (disp_attr : ℕ) (q : Six) (rest : List Reg) (b : Bus)
    → IsReset b
    → AreAnswers q
    → b.input ≡ six_spoken q rest
    → Returns
        (λ b'.
          (acts : List Act) × (b'.trace ≡ b.trace ++ opening ++ acts)
          × (decode acts ≡ some instructions)
          × (b'.input ≡ rest)
          × (others b' ≡ others b)
          × IsSetUp b')
        (lcd_init disp_attr b)
unfolding lcd_init
lcd_init_lem disp_attr q rest b r v e =
    let opened = opened_lem b r in
    let b1 = enter_4bit (set_outputs b) in
    Returns-map (Went b1 instructions rest) _ (set_up_display b1)
      (set_up_display_lem q rest b1 opened.3 v (opened.1 ∙ e))
      λ b2 w. (w.1.0, w.1.1 ∙ ap (λ x. x ++ w.1.0) opened.0, w.1.2, w.0, w.1.3 ∙ opened.2, w.1.4)
