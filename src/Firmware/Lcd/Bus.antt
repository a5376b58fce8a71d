-- ===== src/Firmware/Lcd/Bus.antt =====
-- The lowest layer of firmware/lcd.c: the pins, `delay`, `toggle_e`, `lcd_write`, `lcd_read` and
-- `lcd_waitbusy`. What the display sees of the pins is recorded; what it drives is an argument.
-- The two cycles of `lcd_e_delay` are left out.
pub mod Protocol
pub mod Transfer
pub mod Busy
pub mod Timing
use efika_mpd.Base.{
  ℕ, zero, suc, ◌+◌, ◌-◌, ◌*◌, ◌/◌, ◌%◌, Bool, true, false, ◌&&◌, ◌||◌, Option, none, some, List,
  [], ◌∷◌, ◌++◌, ◌==◌, if◌then◌else◌, ◌>>=◌, length, bit_is_set,
}
use efika_mpd.Firmware.Lcd.{
  xtal, PortName, portc, portd, lcd_data0_port, lcd_data1_port, lcd_data2_port, lcd_data3_port,
  lcd_data0_pin, lcd_data1_pin, lcd_data2_pin, lcd_data3_pin, lcd_rs_port, lcd_rs_pin, lcd_rw_port,
  lcd_rw_pin, lcd_e_port, lcd_e_pin, lcd_busy,
}

-- A register or a byte, bit by bit.
pub record Reg : Type 0 where
  pub p0 : Bool
  pub p1 : Bool
  pub p2 : Bool
  pub p3 : Bool
  pub p4 : Bool
  pub p5 : Bool
  pub p6 : Bool
  pub p7 : Bool

abbrev pub clear_reg : Reg
clear_reg = record {
  p0 = false;
  p1 = false;
  p2 = false;
  p3 = false;
  p4 = false;
  p5 = false;
  p6 = false;
  p7 = false;
}

-- `r & _BV(n)`.
abbrev pub bit : ℕ → Reg → Bool
bit zero r = r.p0
bit (suc zero) r = r.p1
bit (suc (suc zero)) r = r.p2
bit (suc (suc (suc zero))) r = r.p3
bit (suc (suc (suc (suc zero)))) r = r.p4
bit (suc (suc (suc (suc (suc zero))))) r = r.p5
bit (suc (suc (suc (suc (suc (suc zero)))))) r = r.p6
bit (suc (suc (suc (suc (suc (suc (suc n))))))) r = r.p7

-- `r |= _BV(n)` and `r &= ~_BV(n)`.
abbrev pub put : Bool → ℕ → Reg → Reg
put v zero r = record r { p0 = v }
put v (suc zero) r = record r { p1 = v }
put v (suc (suc zero)) r = record r { p2 = v }
put v (suc (suc (suc zero))) r = record r { p3 = v }
put v (suc (suc (suc (suc zero)))) r = record r { p4 = v }
put v (suc (suc (suc (suc (suc zero))))) r = record r { p5 = v }
put v (suc (suc (suc (suc (suc (suc zero)))))) r = record r { p6 = v }
put v (suc (suc (suc (suc (suc (suc (suc n))))))) r = record r { p7 = v }

-- `if (v) r |= _BV(n)`.
abbrev pub or_if : Bool → ℕ → Reg → Reg
or_if v n r = put (bit n r || v) n r

-- `(r & 0xF0) | (n & 0x0F)`.
abbrev pub put_low : ℕ → Reg → Reg
put_low n r = record r {
  p0 = bit_is_set n 0;
  p1 = bit_is_set n 1;
  p2 = bit_is_set n 2;
  p3 = bit_is_set n 3;
}

-- The lines at a falling edge of E, `none` for one that the microcontroller does not drive.
pub record Strobe : Type 0 where
  pub rs : Option Bool
  pub rw : Option Bool
  pub d0 : Option Bool
  pub d1 : Option Bool
  pub d2 : Option Bool
  pub d3 : Option Bool

-- `wait` has the number that is given to `_delayFourCycles`.
pub data Act : Type 0 where
  strobe : Strobe → Act
  wait : ℕ → Act

-- The registers PORTC, PORTD, DDRC and DDRD, what was recorded, and what PINC reads in the coming
-- pulses of E in read mode.
pub record Bus : Type 0 where
  pub out_c : Reg
  pub out_d : Reg
  pub ddr_c : Reg
  pub ddr_d : Reg
  pub trace : List Act
  pub input : List Reg

abbrev pub port : PortName → Bus → Reg
port portc b = b.out_c
port portd b = b.out_d

abbrev pub ddr : PortName → Bus → Reg
ddr portc b = b.ddr_c
ddr portd b = b.ddr_d

abbrev pub on_port : PortName → (Reg → Reg) → Bus → Bus
on_port portc f b = record b { out_c = f b.out_c }
on_port portd f b = record b { out_d = f b.out_d }

abbrev pub on_ddr : PortName → (Reg → Reg) → Bus → Bus
on_ddr portc f b = record b { ddr_c = f b.ddr_c }
on_ddr portd f b = record b { ddr_d = f b.ddr_d }

abbrev pub is_same : PortName → PortName → Bool
is_same portc portc = true
is_same portd portd = true
is_same portc portd = false
is_same portd portc = false

-- The condition of the preprocessor's constants that `lcd_write` and `lcd_read` test.
abbrev pub has_low_nibble : Bool
has_low_nibble =
    is_same lcd_data0_port lcd_data1_port
    && is_same lcd_data1_port lcd_data2_port
    && is_same lcd_data2_port lcd_data3_port
    && (lcd_data0_pin == 0)
    && (lcd_data1_pin == 1)
    && (lcd_data2_pin == 2)
    && (lcd_data3_pin == 3)

abbrev pub level : PortName → ℕ → Bus → Option Bool
level p n b = if bit n (ddr p b) then some (bit n (port p b)) else none

abbrev pub lines : Bus → Strobe
lines b = record {
  rs = level lcd_rs_port lcd_rs_pin b;
  rw = level lcd_rw_port lcd_rw_pin b;
  d0 = level lcd_data0_port lcd_data0_pin b;
  d1 = level lcd_data1_port lcd_data1_pin b;
  d2 = level lcd_data2_port lcd_data2_pin b;
  d3 = level lcd_data3_port lcd_data3_pin b;
}

abbrev pub behind : List Reg → List Reg
behind [] = []
behind (r ∷ rs) = rs

unfoldable pub lcd_e_high : Bus → Bus
lcd_e_high b = on_port lcd_e_port (put true lcd_e_pin) b

-- The display takes the lines at the falling edge, and lets go of what it was driving.
unfoldable pub lcd_e_low : Bus → Bus
lcd_e_low b = on_port lcd_e_port (put false lcd_e_pin) (record b {
  trace = b.trace ++ strobe (lines b) ∷ [];
  input = if bit lcd_rw_pin (port lcd_rw_port b) then behind b.input else b.input;
})

unfoldable pub toggle_e : Bus → Bus
toggle_e b = lcd_e_low (lcd_e_high b)

unfoldable pub lcd_rw_high : Bus → Bus
lcd_rw_high b = on_port lcd_rw_port (put true lcd_rw_pin) b

unfoldable pub lcd_rw_low : Bus → Bus
lcd_rw_low b = on_port lcd_rw_port (put false lcd_rw_pin) b

unfoldable pub lcd_rs_high : Bus → Bus
lcd_rs_high b = on_port lcd_rs_port (put true lcd_rs_pin) b

unfoldable pub lcd_rs_low : Bus → Bus
lcd_rs_low b = on_port lcd_rs_port (put false lcd_rs_pin) b

-- The cycles that `_delayFourCycles` takes, by the comments in it.
unfoldable pub delay_four_cycles : ℕ → ℕ
delay_four_cycles count = if count == 0 then 2 else 4 * count

-- The count that the macro `delay` computes.
unfoldable pub delay_count : ℕ → ℕ
delay_count us = 1 * (xtal / 4000) * us / 1000

unfoldable pub delay : ℕ → Bus → Bus
delay us b = record b { trace = b.trace ++ wait (delay_count us) ∷ [] }

-- The four data lines as outputs or inputs.
abbrev pub on_data_ddr : Bool → Bus → Bus
on_data_ddr v b = on_ddr lcd_data3_port (put v lcd_data3_pin) (
    on_ddr lcd_data2_port (put v lcd_data2_pin)
      (on_ddr lcd_data1_port (put v lcd_data1_pin) (on_ddr lcd_data0_port (put v lcd_data0_pin) b)))

-- All data lines low, then those high whose bits are set.
abbrev pub put_nibble : Bool → Bool → Bool → Bool → Bus → Bus
put_nibble b3 b2 b1 b0 b =
    let b = on_port lcd_data3_port (put false lcd_data3_pin) b in
    let b = on_port lcd_data2_port (put false lcd_data2_pin) b in
    let b = on_port lcd_data1_port (put false lcd_data1_pin) b in
    let b = on_port lcd_data0_port (put false lcd_data0_pin) b in
    let b = on_port lcd_data3_port (or_if b3 lcd_data3_pin) b in
    let b = on_port lcd_data2_port (or_if b2 lcd_data2_pin) b in
    let b = on_port lcd_data1_port (or_if b1 lcd_data1_pin) b in
    on_port lcd_data0_port (or_if b0 lcd_data0_pin) b

-- The branch of `lcd_write` for data lines on the pins 0 to 3.
unfoldable pub write_low_nibble : ℕ → Bus → Bus
write_low_nibble d b =
    let b = on_ddr lcd_data0_port (λ r. put true 3 (put true 2 (put true 1 (put true 0 r)))) b in
    let b = toggle_e (on_port lcd_data0_port (put_low (d / 16)) b) in
    let b = toggle_e (on_port lcd_data0_port (put_low d) b) in
    on_port lcd_data0_port (put_low 0x0F) b

-- Its other branch.
unfoldable pub write_pins : ℕ → Bus → Bus
write_pins d b =
    let b = on_data_ddr true b in
    let b =
      toggle_e (put_nibble (bit_is_set d 7) (bit_is_set d 6) (bit_is_set d 5) (bit_is_set d 4) b) in
    let b =
      toggle_e (put_nibble (bit_is_set d 3) (bit_is_set d 2) (bit_is_set d 1) (bit_is_set d 0) b) in
    let b = on_port lcd_data0_port (put true lcd_data0_pin) b in
    let b = on_port lcd_data1_port (put true lcd_data1_pin) b in
    let b = on_port lcd_data2_port (put true lcd_data2_pin) b in
    on_port lcd_data3_port (put true lcd_data3_pin) b

unfoldable pub lcd_write : ℕ → Bool → Bus → Bus
lcd_write d rs b =
    let b = lcd_rw_low (if rs then lcd_rs_high b else lcd_rs_low b) in
    if has_low_nibble then write_low_nibble d b else write_pins d b

-- What PINC reads during a pulse; `none` if the display drives nothing.
abbrev pub pins : Bus → Option Reg
pins b = elim b.input [ [] ↦ none | r ∷ rs ↦ some r ]

-- The branches of `lcd_read`.
unfoldable pub read_low_nibble : Bus → Option (Reg × Bus)
read_low_nibble b =
    let b =
      on_ddr lcd_data0_port (λ r. put false 3 (put false 2 (put false 1 (put false 0 r)))) b in
    let b = lcd_e_high b in
    pins b >>= λ hi.
    let b = lcd_e_high (lcd_e_low b) in
    pins b >>= λ lo. some (
      record {
        p0 = lo.p0;
        p1 = lo.p1;
        p2 = lo.p2;
        p3 = lo.p3;
        p4 = hi.p0;
        p5 = hi.p1;
        p6 = hi.p2;
        p7 = hi.p3;
      },
      lcd_e_low b,
    )

unfoldable pub read_pins : Bus → Option (Reg × Bus)
read_pins b =
    let b = lcd_e_high (on_data_ddr false b) in
    pins b >>= λ hi.
    let c = or_if (bit lcd_data0_pin hi) 4 clear_reg in
    let c = or_if (bit lcd_data1_pin hi) 5 c in
    let c = or_if (bit lcd_data2_pin hi) 6 c in
    let c = or_if (bit lcd_data3_pin hi) 7 c in
    let b = lcd_e_high (lcd_e_low b) in
    pins b >>= λ lo.
    let c = or_if (bit lcd_data0_pin lo) 0 c in
    let c = or_if (bit lcd_data1_pin lo) 1 c in
    let c = or_if (bit lcd_data2_pin lo) 2 c in
    let c = or_if (bit lcd_data3_pin lo) 3 c in some (c, lcd_e_low b)

unfoldable pub lcd_read : Bool → Bus → Option (Reg × Bus)
lcd_read rs b =
    let b = lcd_rw_high (if rs then lcd_rs_high b else lcd_rs_low b) in
    if has_low_nibble then read_low_nibble b else read_pins b

-- The loop of `lcd_waitbusy`, `none` if the display is busy as long as there is fuel.
unfoldable pub wait_ready : ℕ → Bus → Option Bus
wait_ready zero b = none
wait_ready (suc fuel) b = lcd_read false b >>= λ (c, b').
    let again = wait_ready fuel b' in if bit lcd_busy c then again else some b'

-- Each reading takes two of the inputs, so that there is fuel for all of them.
unfoldable pub lcd_waitbusy : Bus → Option (Reg × Bus)
lcd_waitbusy b = wait_ready (suc (length b.input)) b >>= λ b'. lcd_read false (delay 2 b')
