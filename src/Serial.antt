-- ===== src/Serial.antt =====
-- The serial line between the two programs: what `loop` of client/efikampd.c writes is read by
-- `uart_handle_data` of firmware/main.c.
pub mod Moves
pub mod Shown
mod Tests
use efika_mpd.Base.{
  ℕ, zero, suc, ◌+◌, ◌≤◌, ◌<◌, ◌≡◌, refl, sym, ◌∙◌, ap, Bool, true, false, Option, none, some, inl,
  inr, List, [], ◌∷◌, ◌++◌, map, append_assoc, append-nil, arith, ltb, ◌==◌, if◌then◌else◌, ◌>>=◌,
  if-cases, Bool-cases, Option-cases, length, get_elem?, set, length-set, get_elem?-below, All,
  All-get_elem?, All-set, Returns, Returns->>=, Returns-map, ◌≢◌, bit_is_set,
}
use efika_mpd.Firmware.Timers.{Timers, timer_enable, timer_disable}
use efika_mpd.Firmware.Board.{
  Line, st_idle, Effect, gotoxy, putc, brightness, Pdata, Callback, Panel, Board, buffer_length,
  line_length, line_count,
}
use efika_mpd.Firmware.Board.Display.Window.{c_string, row}
use efika_mpd.Firmware.Board.Link.{
  strlen, uart_handle_data, handle, handle_idle, handle_data, check_cmd, uart_collect, count_byte,
}
use efika_mpd.Firmware.Board.Link.Frame.{receive_all, receive_update, receive_unterminated}
use efika_mpd.Client.{Lcd, lcd_update_dim}
use efika_mpd.Client.Display.{blank, lcd_clear}
use efika_mpd.Client.Loop.{write_line, write_lcd}

abbrev pub IsFull : Line → Type 0
IsFull l = length l.buffer ≡ buffer_length

-- A panel that waits for a command.
pub record IsReady (p : Panel) : Type 0 where
  pub waits : p.ctx.state ≡ st_idle
  pub lines : length p.lcd.line ≡ line_count
  pub full : All IsFull p.lcd.line

receive_all-append :
    (ks js : List ℕ) (b : Board) → receive_all (ks ++ js) b ≡ (receive_all ks b >>= receive_all js)
unfolding receive_all
receive_all-append [] js b = refl
receive_all-append (k ∷ ks) js b = elim (Option-cases (uart_handle_data k b)) [
  | inl e ↦ rw e refl
  | inr (b', e) ↦ rw e (receive_all-append ks js b')
]

-- What a line does to the display.
abbrev pub line_effects : ℕ → List ℕ → List Effect
line_effects n buffer = gotoxy 0 n ∷ map putc (row line_length (c_string buffer))

abbrev pub dim_effects : ℕ → List Effect
dim_effects v = if ltb v 4 then brightness v ∷ [] else []

-- What the client asks for with one round of the loop in `loop`.
abbrev pub asked : ℕ → List ℕ → Lcd → List Effect
asked n buffer l =
    (if bit_is_set l.update_flags n then line_effects n buffer else [])
    ++ (if bit_is_set l.update_flags lcd_update_dim then dim_effects l.dim_value else [])

-- The board afterwards.
abbrev pub Obeys : Board → List Effect → Board → Type 0
Obeys b es b' = (b'.1.effects ≡ b.1.effects ++ es) × IsReady b'.1

line_received :
    (b : Board) (n size : ℕ) (buffer : List ℕ)
    → IsReady b.1
    → n < 2
    → length buffer ≡ buffer_length
    → strlen buffer ≡ some size
    → Returns (Obeys b (line_effects n buffer)) (receive_all ((16 + n) ∷ buffer) b)
line_received (t, p) n size buffer v h w s =
    let (l, e) = get_elem?-below p.lcd.line n (omega (arith, v.lines)) in
    let full = All-get_elem? IsFull p.lcd.line n v.full e in
    let new : Line = record l { buffer = buffer; size = size; sp = some 0 } in
    rw (receive_update t p n l buffer size h v.waits e full w s) (
      refl,
      record {
        waits = refl;
        lines = length-set p.lcd.line n new ∙ v.lines;
        full = All-set IsFull p.lcd.line n new v.full w;
      },
    )

dim_received :
    (b : Board) (v : ℕ)
    → IsReady b.1
    → Returns (Obeys b (dim_effects v)) (receive_all (48 ∷ v ∷ []) b)
unfolding receive_all uart_handle_data handle handle_idle handle_data check_cmd uart_collect
    count_byte
dim_received (t, p) v r = ground (arith, r.waits, r.lines, r.full, append-nil p.effects)

nothing_received : (b : Board) → IsReady b.1 → Returns (Obeys b []) (receive_all [] b)
unfolding receive_all
nothing_received b r = (sym (append-nil b.1.effects), r)

-- One part of what is written behind another.
then_received :
    (b : Board) (ks js : List ℕ) (es fs : List Effect)
    → Returns (Obeys b es) (receive_all ks b)
    → ((b1 : Board) → IsReady b1.1 → Returns (Obeys b1 fs) (receive_all js b1))
    → Returns (Obeys b (es ++ fs)) (receive_all (ks ++ js) b)
then_received b ks js es fs h k = rw (receive_all-append ks js b) (
    Returns->>= (Obeys b es) (Obeys b (es ++ fs)) _ _ h λ b1 o.
      Returns-map (Obeys b1 fs) (Obeys b (es ++ fs)) (receive_all js b1) (k b1 o.1)
        λ b2 q. (q.0 ∙ ap (λ x. x ++ fs) o.0 ∙ append_assoc b.1.effects es fs, q.1))

write_line_received :
    (b : Board) (n : ℕ) (buffer : List ℕ) (l : Lcd)
    → IsReady b.1
    → n < 2
    → length buffer ≡ buffer_length
    → (bit_is_set l.update_flags n ≡ true → strlen buffer ≢ none)
    → Returns (Obeys b (asked n buffer l)) (receive_all (write_line n buffer l) b)
unfolding write_line
write_line_received b n buffer l r h w s =
    then_received b _ _ _ _ (line_part (bit_is_set l.update_flags n) s)
      (λ b1 r1. dim_part b1 r1 (bit_is_set l.update_flags lcd_update_dim))
  where
    line_part :
        (f : Bool)
        → (f ≡ true → strlen buffer ≢ none)
        → Returns
            (Obeys b (if f then line_effects n buffer else []))
            (receive_all (if f then (16 + n) ∷ buffer else []) b)
    line_part true t = elim (Option-cases (strlen buffer)) [
      | inl e ↦ absurd (t refl e)
      | inr (size, e) ↦ line_received b n size buffer r h w e
    ]
    line_part false t = nothing_received b r

    dim_part :
        (b1 : Board)
        → IsReady b1.1
        → (f : Bool)
        → Returns
            (Obeys b1 (if f then dim_effects l.dim_value else []))
            (receive_all (if f then 48 ∷ l.dim_value ∷ [] else []) b1)
    dim_part b1 r1 true = dim_received b1 l.dim_value r1
    dim_part b1 r1 false = nothing_received b1 r1

-- What one round of the client's loop writes for the display is carried out by a waiting board,
-- in order and without a fault: each line that is due is shown, cut off or filled up to the
-- twenty positions, the brightness is set, and the board waits for the next command. The two
-- rows have to be forty bytes, and those that are due to hold the end of a string.
pub write_lcd-received :
    (b : Board) (l : Lcd)
    → IsReady b.1
    → length l.buffer0 ≡ buffer_length
    → length l.buffer1 ≡ buffer_length
    → (bit_is_set l.update_flags 0 ≡ true → strlen l.buffer0 ≢ none)
    → (bit_is_set l.update_flags 1 ≡ true → strlen l.buffer1 ≢ none)
    → Returns (Obeys b (asked 0 l.buffer0 l ++ asked 1 l.buffer1 l)) (receive_all (write_lcd l) b)
unfolding write_lcd
write_lcd-received b l r w0 w1 s0 s1 =
    then_received b _ _ _ _ (write_line_received b 0 l.buffer0 l r (omega arith) w0 s0)
      (λ b1 r1. write_line_received b1 1 l.buffer1 l r1 (omega arith) w1 s1)

strlen-blank : strlen blank ≡ none
unfolding strlen
strlen-blank = refl

-- A board faults on a cleared display: `lcd_clear` fills both rows with forty spaces, and
-- the firmware reads on behind the buffer of its line for the end of the string.
pub lcd_clear-received :
    (b : Board) (l : Lcd) → IsReady b.1 → receive_all (write_lcd (lcd_clear l)) b ≡ none
unfolding write_lcd write_line lcd_clear
lcd_clear-received (t, p) l v =
    let (x, e) = get_elem?-below p.lcd.line 0 (omega (arith, v.lines)) in
    rw
      (
        receive_all-append (16 ∷ blank) (17 ∷ blank) (t, p),
        receive_unterminated t p 0 x blank (omega arith) v.waits e
            (All-get_elem? IsFull p.lcd.line 0 v.full e) refl strlen-blank,
      )
      refl
