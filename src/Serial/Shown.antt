-- ===== src/Serial/Shown.antt =====
-- The path of a row of text from the client to the display: `loop` of client/efikampd.c,
-- `uart_handle_data` of firmware/main.c, and the driver firmware/lcd.c.
use efika_mpd.Base.{
  ℕ, zero, suc, ◌+◌, ◌*◌, ◌%◌, ◌<◌, ◌≡◌, refl, ap, ap₂, Bool-cases, inl, inr, ltb→lt, ◌∙◌, subst,
  Bool, true, false, ◌==◌, if◌then◌else◌, none, List, [], ◌∷◌, ◌++◌, map, arith, ltb, bit_is_set,
  length, All, All-append, if-cases, Returns, Returns-map, ◌≢◌,
}
use efika_mpd.Firmware.Board.{Effect, gotoxy, putc, brightness, Board, buffer_length, line_length}
use efika_mpd.Firmware.Board.Display.Window.{c_string, row}
use efika_mpd.Firmware.Board.Link.{strlen}
use efika_mpd.Firmware.Board.Link.Frame.{receive_all}
use efika_mpd.Firmware.Lcd.Bus.{Reg, Bus}
use efika_mpd.Firmware.Lcd.Bus.Protocol.{Write}
use efika_mpd.Firmware.Lcd.Bus.Transfer.{IsSetUp}
use efika_mpd.Firmware.Lcd.Driver.Writes.{Answer, IsAnswer, Went}
use efika_mpd.Firmware.Lcd.Driver.Effects.{
  perform_all, needed, given, all_spoken, IsSingle, single_effects, plain, IsInline, given-plain,
  plain-append,
}
use efika_mpd.Client.{Lcd, lcd_update_dim}
use efika_mpd.Client.Loop.{write_lcd}
use efika_mpd.Serial.{IsReady, Obeys, asked, line_effects, dim_effects, write_lcd-received}

-- The bytes for a row: the address of its line, and twenty characters.
abbrev pub row_bytes : ℕ → List ℕ → List Write
row_bytes n buffer =
    (false, 128 + 64 * n) ∷ map (λ c. (true, c % 256)) (row line_length (c_string buffer))

-- What the display has to be given for what the client has pending.
abbrev pub due_bytes : ℕ → List ℕ → Lcd → List Write
due_bytes n buffer l =
    (if bit_is_set l.update_flags n then row_bytes n buffer else [])
    ++ (if bit_is_set l.update_flags lcd_update_dim
        then (if ltb l.dim_value 4 then (false, 0x28) ∷ (true, l.dim_value) ∷ [] else [])
        else [])

-- No character of the text is a line feed.
abbrev pub IsOneLine : List ℕ → Type 0
IsOneLine buffer = All (λ c. (c == 10) ≡ false) (c_string buffer)

row-IsInline :
    (n : ℕ) (s : List ℕ) → All (λ c. (c == 10) ≡ false) s → All IsInline (map putc (row n s))
row-IsInline zero s v = tt
row-IsInline (suc n) [] v = (refl, row-IsInline n [] tt)
row-IsInline (suc n) (c ∷ s) v = (v.0, row-IsInline n s v.1)

plain-putc : (s : List ℕ) → plain (map putc s) ≡ map (λ c. (true, c % 256)) s
plain-putc [] = refl
plain-putc (c ∷ s) = ap (◌∷◌ (true, c % 256)) (plain-putc s)

plain-line :
    (f : Bool) (n : ℕ) (buffer : List ℕ)
    → n < 2
    → plain (if f then line_effects n buffer else []) ≡ (if f then row_bytes n buffer else [])
plain-line true n buffer h =
    ap₂ (λ (a : ℕ) (r : List Write). (false, a) ∷ r) (ground (arith, h))
      (plain-putc (row line_length (c_string buffer)))
plain-line false n buffer h = refl

plain-dim :
    (f : Bool) (v : ℕ)
    → plain (if f then dim_effects v else [])
      ≡ (if f then (if ltb v 4 then (false, 0x28) ∷ (true, v) ∷ [] else []) else [])
plain-dim true v = elim (Bool-cases (ltb v 4)) [
  | inl h ↦ rw h (ap (λ (k : ℕ). (false, 0x28) ∷ (true, k) ∷ []) (omega (arith, ltb→lt v 4 h)))
  | inr h ↦ rw h refl
]
plain-dim false v = refl

plain-asked :
    (n : ℕ) (buffer : List ℕ) (l : Lcd) → n < 2 → plain (asked n buffer l) ≡ due_bytes n buffer l
plain-asked n buffer l h =
    plain-append (if bit_is_set l.update_flags n then line_effects n buffer else [])
      (if bit_is_set l.update_flags lcd_update_dim then dim_effects l.dim_value else [])
    ∙ ap₂ ◌++◌ (plain-line (bit_is_set l.update_flags n) n buffer h)
        (plain-dim (bit_is_set l.update_flags lcd_update_dim) l.dim_value)

-- What holds of each call that is asked for.
asked-All :
    (P : Effect → Type 0) (n : ℕ) (buffer : List ℕ) (l : Lcd)
    → P (gotoxy 0 n)
    → All P (map putc (row line_length (c_string buffer)))
    → P (brightness l.dim_value)
    → All P (asked n buffer l)
asked-All P n buffer l g r d =
    All-append P (if bit_is_set l.update_flags n then line_effects n buffer else [])
      (if bit_is_set l.update_flags lcd_update_dim then dim_effects l.dim_value else [])
      (if-cases (All P) (bit_is_set l.update_flags n) (λ _. (g, r)) (λ _. tt))
      (if-cases (All P) (bit_is_set l.update_flags lcd_update_dim)
        (λ _. if-cases (All P) (ltb l.dim_value 4) (λ _. (d, tt)) (λ _. tt)) (λ _. tt))

row-IsSingle : (s : List ℕ) → All IsSingle (map putc s)
row-IsSingle [] = tt
row-IsSingle (c ∷ s) = (tt, row-IsSingle s)

-- All calls for what the client has pending, and all bytes for the display.
abbrev pub all_asked : Lcd → List Effect
all_asked l = asked 0 l.buffer0 l ++ asked 1 l.buffer1 l

abbrev pub all_due : Lcd → List Write
all_due l = due_bytes 0 l.buffer0 l ++ due_bytes 1 l.buffer1 l

all_asked-given :
    (l : Lcd) (qs : List Answer)
    → IsOneLine l.buffer0
    → IsOneLine l.buffer1
    → length qs ≡ needed (all_asked l)
    → given (all_asked l) qs ≡ all_due l
all_asked-given l qs o0 o1 n =
    given-plain (all_asked l) qs
      (All-append IsInline (asked 0 l.buffer0 l) (asked 1 l.buffer1 l)
        (asked-All IsInline 0 l.buffer0 l tt (row-IsInline line_length _ o0) tt)
        (asked-All IsInline 1 l.buffer1 l tt (row-IsInline line_length _ o1) tt))
      n
    ∙ plain-append (asked 0 l.buffer0 l) (asked 1 l.buffer1 l)
    ∙ ap₂ ◌++◌ (plain-asked 0 l.buffer0 l (omega arith)) (plain-asked 1 l.buffer1 l (omega arith))

all_asked-performed :
    (l : Lcd) (qs : List Answer) (rest : List Reg) (bus : Bus)
    → IsOneLine l.buffer0
    → IsOneLine l.buffer1
    → IsSetUp bus
    → All IsAnswer qs
    → length qs ≡ needed (all_asked l)
    → bus.input ≡ all_spoken qs rest
    → Returns (Went bus (all_due l) rest) (perform_all (all_asked l) bus)
all_asked-performed l qs rest bus o0 o1 s w n e =
    subst (λ ws. Returns (Went bus ws rest) (perform_all (all_asked l) bus))
      (all_asked-given l qs o0 o1 n)
      (single_effects (all_asked l) qs rest
        (All-append IsSingle (asked 0 l.buffer0 l) (asked 1 l.buffer1 l)
          (asked-All IsSingle 0 l.buffer0 l tt (row-IsSingle _) tt)
          (asked-All IsSingle 1 l.buffer1 l tt (row-IsSingle _) tt))
        w n bus s e)

-- What the client has pending reaches the display: the board takes the bytes that the client's
-- loop writes without a fault, and the driver, carrying out the calls that the board then makes,
-- gives the display for each due row the address of its line and the twenty characters, cut off
-- or filled up with spaces, and for a brightness below four the instruction and the value, in
-- order and nothing else. The board waits for a command; the rows are forty bytes, those that are
-- due hold the end of a string, and neither text has a line feed; the control lines are outputs;
-- and there is an answer for each time that a call asks, with the busy flag clear in the end.
pub write_lcd-displayed :
    (b : Board) (l : Lcd) (qs : List Answer) (rest : List Reg) (bus : Bus)
    → IsReady b.1
    → length l.buffer0 ≡ buffer_length
    → length l.buffer1 ≡ buffer_length
    → (bit_is_set l.update_flags 0 ≡ true → strlen l.buffer0 ≢ none)
    → (bit_is_set l.update_flags 1 ≡ true → strlen l.buffer1 ≢ none)
    → IsOneLine l.buffer0
    → IsOneLine l.buffer1
    → IsSetUp bus
    → All IsAnswer qs
    → length qs ≡ needed (all_asked l)
    → bus.input ≡ all_spoken qs rest
    → Returns
        (λ b'.
          (es : List Effect) × (b'.1.effects ≡ b.1.effects ++ es)
          × Returns (Went bus (all_due l) rest) (perform_all es bus))
        (receive_all (write_lcd l) b)
write_lcd-displayed b l qs rest bus r w0 w1 s0 s1 o0 o1 s v n e =
    Returns-map (Obeys b (all_asked l)) _ (receive_all (write_lcd l) b)
      (write_lcd-received b l r w0 w1 s0 s1)
      λ b' o. (all_asked l, o.0, all_asked-performed l qs rest bus o0 o1 s v n e)
