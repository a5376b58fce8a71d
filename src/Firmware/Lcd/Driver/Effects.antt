-- ===== src/Firmware/Lcd/Driver/Effects.antt =====
-- The calls of the driver that firmware/main.c makes, carried out by firmware/lcd.c.
use efika_mpd.Base.{
  ℕ, suc, ◌+◌, ◌%◌, ◌≡◌, refl, sym, ap, ◌∙◌, true, false, Option, some, inl, inr, List, [], ◌∷◌,
  ◌++◌, map, arith, ◌==◌, if◌then◌else◌, ◌>>=◌, Bool-cases, Option-cases, length, drop, append-nil,
  subst, All, Returns,
}
use efika_mpd.Firmware.Board.{Effect, gotoxy, putc, puts, brightness, init_lcd, init_uart, send}
use efika_mpd.Firmware.Board.Display.Window.{c_string}
use efika_mpd.Firmware.Lcd.{lcd_disp_on_cursor}
use efika_mpd.Firmware.Lcd.Bus.{Reg, Bus}
use efika_mpd.Firmware.Lcd.Bus.Protocol.{Write, decode}
use efika_mpd.Firmware.Lcd.Bus.Transfer.{IsSetUp}
use efika_mpd.Firmware.Lcd.Driver.{lcd_gotoxy, lcd_putc, lcd_puts, lcd_brightness}
use efika_mpd.Firmware.Lcd.Setup.{lcd_init}
use efika_mpd.Firmware.Lcd.Driver.Writes.{
  Answer, IsAnswer, spoken, Went, Went->>=, position, next_line, lcd_gotoxy_lem, lcd_putc_character,
  lcd_putc_newline, lcd_brightness_lem,
}

-- A text in the program's memory ends with its terminator. The calls of the UART leave the
-- display's pins alone.
unfoldable pub perform : Effect → Bus → Option Bus
perform (gotoxy x y) b = lcd_gotoxy x y b
perform (putc c) b = lcd_putc c b
perform (puts s) b = lcd_puts (s ++ 0 ∷ []) b
perform (brightness v) b = some (lcd_brightness v b)
perform init_lcd b = lcd_init lcd_disp_on_cursor b
perform init_uart b = some b
perform (send c) b = some b

unfoldable pub perform_all : List Effect → Bus → Option Bus
perform_all [] b = some b
perform_all (e ∷ es) b = perform e b >>= perform_all es

-- How often a call asks the display before it writes.
abbrev pub needed : List Effect → ℕ
needed [] = 0
needed (gotoxy x y ∷ es) = suc (needed es)
needed (putc c ∷ es) = (if c == 10 then 2 else 1) + needed es
needed (e ∷ es) = needed es

-- What the display is given, by its answers.
abbrev pub given : List Effect → List Answer → List Write
given [] qs = []
given (gotoxy x y ∷ es) qs = (false, position x y) ∷ given es (drop 1 qs)
given (putc c ∷ es) [] = []
given (putc c ∷ es) (a ∷ qs) =
    (if c == 10 then (false, next_line a) else (true, c % 256))
    ∷ given es (drop (if c == 10 then 1 else 0) qs)
given (brightness v ∷ es) qs = (false, 0x28) ∷ (true, v % 256) ∷ given es qs
given (e ∷ es) qs = given es qs

abbrev pub all_spoken : List Answer → List Reg → List Reg
all_spoken [] rest = rest
all_spoken (a ∷ qs) rest = spoken a (all_spoken qs rest)

abbrev pub IsSingle : Effect → Type 0
IsSingle (puts s) = ⊥
IsSingle init_lcd = ⊥
IsSingle e = Unit {0}

-- What `perform_all` has to do with what is left after a call.
abbrev pub Goes : List Effect → List Answer → List Reg → Type 0
Goes es qs rest =
    (b : Bus)
    → IsSetUp b
    → b.input ≡ all_spoken qs rest
    → Returns (Went b (given es qs) rest) (perform_all es b)

Goes-putc :
    (c : ℕ) (es : List Effect) (qs : List Answer) (rest : List Reg)
    → All IsAnswer qs
    → length qs ≡ needed (putc c ∷ es)
    → ((vs : List Answer) → All IsAnswer vs → length vs ≡ needed es → Goes es vs rest)
    → Goes (putc c ∷ es) qs rest
unfolding perform perform_all
Goes-putc c es [] rest w n ih b s e = absurd (ground (arith, n))
Goes-putc c es (a ∷ []) rest w n ih b s e = elim (Bool-cases (c == 10)) [
  | inl h ↦ absurd (ground (arith, n, h))
  | inr h ↦ rw h (
      Went->>= b ((true, c % 256) ∷ []) (given es []) rest rest (perform (putc c) b)
        (perform_all es) (lcd_putc_character c a rest b h s w.0 e)
        (ih [] tt (omega (arith, rw h at n))))
]
Goes-putc c es (a ∷ a' ∷ qs) rest w n ih b s e = elim (Bool-cases (c == 10)) [
  | inl h ↦ rw h (
      Went->>= b ((false, next_line a) ∷ []) (given es qs) (all_spoken qs rest) rest
        (perform (putc c) b) (perform_all es)
        (lcd_putc_newline c a a' (all_spoken qs rest) b h s w.0 w.1.0 e)
        (ih qs w.1.1 (omega (arith, rw h at n))))
  | inr h ↦ rw h (
      Went->>= b ((true, c % 256) ∷ []) (given es (a' ∷ qs)) (all_spoken (a' ∷ qs) rest) rest
        (perform (putc c) b) (perform_all es)
        (lcd_putc_character c a (all_spoken (a' ∷ qs) rest) b h s w.0 e)
        (ih (a' ∷ qs) w.1 (omega (arith, rw h at n))))
]

pub single_effects :
    (es : List Effect) (qs : List Answer) (rest : List Reg)
    → All IsSingle es
    → All IsAnswer qs
    → length qs ≡ needed es
    → Goes es qs rest
unfolding perform perform_all decode
single_effects [] [] rest v w n b s e = (e, ([], sym (append-nil b.trace), refl, refl, s))
single_effects [] (a ∷ qs) rest v w n b s e = absurd (omega (arith, n))
single_effects (gotoxy x y ∷ es) [] rest v w n b s e = absurd (omega (arith, n))
single_effects (gotoxy x y ∷ es) (a ∷ qs) rest v w n b s e =
    Went->>= b ((false, position x y) ∷ []) (given es qs) (all_spoken qs rest) rest
      (perform (gotoxy x y) b) (perform_all es)
      (lcd_gotoxy_lem x y a (all_spoken qs rest) b s w.0 e)
      (single_effects es qs rest v.1 w.1 (omega (arith, n)))
single_effects (putc c ∷ es) qs rest v w n b s e =
    Goes-putc c es qs rest w n (λ vs w' n'. single_effects es vs rest v.1 w' n') b s e
single_effects (puts t ∷ es) qs rest v w n b s e = absurd v.0
single_effects (brightness k ∷ es) qs rest v w n b s e =
    Went->>= b ((false, 0x28) ∷ (true, k % 256) ∷ []) (given es qs) (all_spoken qs rest) rest
      (perform (brightness k) b) (perform_all es) (lcd_brightness_lem k (all_spoken qs rest) b s e)
      (single_effects es qs rest v.1 w n)
single_effects (init_lcd ∷ es) qs rest v w n b s e = absurd v.0
single_effects (init_uart ∷ es) qs rest v w n b s e = single_effects es qs rest v.1 w n b s e
single_effects (send c ∷ es) qs rest v w n b s e = single_effects es qs rest v.1 w n b s e

-- The calls with a text written out as its characters.
abbrev pub spelt : List Effect → List Effect
spelt [] = []
spelt (puts t ∷ es) = map putc (c_string t) ++ spelt es
spelt (e ∷ es) = e ∷ spelt es

abbrev pub IsDrawn : Effect → Type 0
IsDrawn init_lcd = ⊥
IsDrawn e = Unit {0}

perform_all-append :
    (xs ys : List Effect) (b : Bus)
    → perform_all (xs ++ ys) b ≡ (perform_all xs b >>= perform_all ys)
unfolding perform_all
perform_all-append [] ys b = refl
perform_all-append (x ∷ xs) ys b = elim (Option-cases (perform x b)) [
  | inl e ↦ rw e refl
  | inr (b', e) ↦ rw e (perform_all-append xs ys b')
]

lcd_puts-spelt :
    (t : List ℕ) (b : Bus) → lcd_puts (t ++ 0 ∷ []) b ≡ perform_all (map putc (c_string t)) b
unfolding lcd_puts perform perform_all
lcd_puts-spelt [] b = refl
lcd_puts-spelt (c ∷ t) b = elim (Bool-cases (c == 0)) [
  | inl h ↦ rw h refl
  | inr h ↦ rw h (elim (Option-cases (lcd_putc c b)) [
    | inl e ↦ rw e refl
    | inr (b', e) ↦ rw e (lcd_puts-spelt t b')
  ])
]

perform_all-spelt : (es : List Effect) (b : Bus) → perform_all es b ≡ perform_all (spelt es) b
unfolding perform_all perform
perform_all-spelt [] b = refl
perform_all-spelt (puts t ∷ es) b =
    ap (λ m. m >>= perform_all es) (lcd_puts-spelt t b)
    ∙ (λ i. perform_all (map putc (c_string t)) b >>= λ x. perform_all-spelt es x i)
    ∙ sym (perform_all-append (map putc (c_string t)) (spelt es) b)
perform_all-spelt (e ∷ es) b = λ i. perform e b >>= λ x. perform_all-spelt es x i

characters-IsSingle :
    (t : List ℕ) (es : List Effect) → All IsSingle es → All IsSingle (map putc t ++ es)
characters-IsSingle [] es v = v
characters-IsSingle (c ∷ t) es v = (tt, characters-IsSingle t es v)

spelt-IsSingle : (es : List Effect) → All IsDrawn es → All IsSingle (spelt es)
spelt-IsSingle [] v = tt
spelt-IsSingle (gotoxy x y ∷ es) v = (tt, spelt-IsSingle es v.1)
spelt-IsSingle (putc c ∷ es) v = (tt, spelt-IsSingle es v.1)
spelt-IsSingle (puts t ∷ es) v = characters-IsSingle (c_string t) (spelt es) (spelt-IsSingle es v.1)
spelt-IsSingle (brightness k ∷ es) v = (tt, spelt-IsSingle es v.1)
spelt-IsSingle (init_lcd ∷ es) v = absurd v.0
spelt-IsSingle (init_uart ∷ es) v = (tt, spelt-IsSingle es v.1)
spelt-IsSingle (send c ∷ es) v = (tt, spelt-IsSingle es v.1)

-- The driver does what the calls in firmware/main.c ask for, whatever the display answers: it
-- gives it the address of each position, each character, for a line feed the address of the line
-- behind the cursor, and for a brightness the instruction 0x28 and the value, in order, and
-- nothing else. The set-up of the display is not among the calls, the control lines are outputs,
-- and there is an answer for each time that a call asks, with the busy flag clear in the end.
pub perform_all_lem :
    (es : List Effect) (qs : List Answer) (rest : List Reg) (b : Bus)
    → IsSetUp b
    → All IsDrawn es
    → All IsAnswer qs
    → length qs ≡ needed (spelt es)
    → b.input ≡ all_spoken qs rest
    → Returns (Went b (given (spelt es) qs) rest) (perform_all es b)
perform_all_lem es qs rest b s v w n e =
    subst (Returns (Went b (given (spelt es) qs) rest)) (sym (perform_all-spelt es b))
      (single_effects (spelt es) qs rest (spelt-IsSingle es v) w n b s e)

-- What calls with no line feed give to the display, whatever it answers.
abbrev pub plain : List Effect → List Write
plain [] = []
plain (gotoxy x y ∷ es) = (false, position x y) ∷ plain es
plain (putc c ∷ es) = (true, c % 256) ∷ plain es
plain (brightness v ∷ es) = (false, 0x28) ∷ (true, v % 256) ∷ plain es
plain (e ∷ es) = plain es

abbrev pub IsInline : Effect → Type 0
IsInline (putc c) = (c == 10) ≡ false
IsInline e = Unit {0}

pub given-plain :
    (es : List Effect) (qs : List Answer)
    → All IsInline es
    → length qs ≡ needed es
    → given es qs ≡ plain es
given-plain [] qs v n = refl
given-plain (gotoxy x y ∷ es) [] v n = absurd (omega (arith, n))
given-plain (gotoxy x y ∷ es) (a ∷ qs) v n =
    ap (◌∷◌ (false, position x y)) (given-plain es qs v.1 (omega (arith, n)))
given-plain (putc c ∷ es) [] v n = absurd (ground (arith, n))
given-plain (putc c ∷ es) (a ∷ qs) v n =
    rw v.0 (ap (◌∷◌ (true, c % 256)) (given-plain es qs v.1 (omega (arith, rw v.0 at n))))
given-plain (puts t ∷ es) qs v n = given-plain es qs v.1 n
given-plain (brightness k ∷ es) qs v n =
    ap (λ r. (false, 0x28) ∷ (true, k % 256) ∷ r) (given-plain es qs v.1 n)
given-plain (init_lcd ∷ es) qs v n = given-plain es qs v.1 n
given-plain (init_uart ∷ es) qs v n = given-plain es qs v.1 n
given-plain (send c ∷ es) qs v n = given-plain es qs v.1 n

pub plain-append : (es fs : List Effect) → plain (es ++ fs) ≡ plain es ++ plain fs
plain-append [] fs = refl
plain-append (gotoxy x y ∷ es) fs = ap (◌∷◌ (false, position x y)) (plain-append es fs)
plain-append (putc c ∷ es) fs = ap (◌∷◌ (true, c % 256)) (plain-append es fs)
plain-append (puts t ∷ es) fs = plain-append es fs
plain-append (brightness k ∷ es) fs =
    ap (λ r. (false, 0x28) ∷ (true, k % 256) ∷ r) (plain-append es fs)
plain-append (init_lcd ∷ es) fs = plain-append es fs
plain-append (init_uart ∷ es) fs = plain-append es fs
plain-append (send c ∷ es) fs = plain-append es fs
