-- ===== src/Serial/Moves.antt =====
-- From a key of the remote to the display: client/efikampd.c and firmware/main.c together.
use efika_mpd.Base.{
  ℕ, zero, suc, ◌≤◌, ◌≡◌, refl, ◌∙◌, ap, some, List, [], ◌∷◌, ◌++◌, map, arith, take, append-nil,
  Returns, Returns-map, Returns-both,
}
use efika_mpd.Firmware.Board.{Effect, gotoxy, putc, Board, line_length}
use efika_mpd.Firmware.Board.Display.Window.{row}
use efika_mpd.Firmware.Board.Link.Frame.{receive_all}
use efika_mpd.Client.{cmd_down, cmd_up, Lcd, Menu}
use efika_mpd.Client.Mpd.{Mpd}
use efika_mpd.Client.State.{Daemon}
use efika_mpd.Client.Display.Rows.{IsFramed, Framed}
use efika_mpd.Client.Command.{go, handle_command}
use efika_mpd.Client.Command.Framed.{handle_command-Framed}
use efika_mpd.Client.Command.Moves.{Shows, marked, unmarked, IsPair, move_lem}
use efika_mpd.Client.Loop.{write_lcd}
use efika_mpd.Serial.{IsReady, Obeys, asked, write_lcd-received}

-- A whole line of the display.
abbrev pub display_line : ℕ → List ℕ → List Effect
display_line n s = gotoxy 0 n ∷ map putc (row line_length s)

row-take : (n m : ℕ) (s : List ℕ) → n ≤ m → row n (take m s) ≡ row n s
row-take zero m s h = refl
row-take (suc n) zero s h = absurd (omega arith)
row-take (suc n) (suc m) [] h = refl
row-take (suc n) (suc m) (c ∷ s) h = ap (◌∷◌ c) (row-take n m s (omega arith))

-- Two rows of the client's buffer appear on the display.
Shows-received :
    (a c : List ℕ) (l : Lcd) (b : Board)
    → IsFramed l
    → Shows a c l
    → IsReady b.1
    → Returns
        (λ b'. b'.1.effects ≡ b.1.effects ++ (display_line 0 a ++ display_line 1 c))
        (receive_all (write_lcd l) b)
Shows-received a c l b v w r =
    Returns-map (Obeys b (asked 0 l.buffer0 l ++ asked 1 l.buffer1 l)) _
      (receive_all (write_lcd l) b)
      (write_lcd-received b l r v.row0 v.row1 (λ e. w.ended0) (λ e. w.ended1))
      (λ b' o. o.0 ∙ ap (λ es. b.1.effects ++ es) same)
  where
    same : asked 0 l.buffer0 l ++ asked 1 l.buffer1 l ≡ display_line 0 a ++ display_line 1 c
    same =
        rw
          (
            w.due,
            w.row0,
            w.row1,
            row-take 20 39 a (omega arith),
            row-take 20 39 c (omega arith),
            append-nil (map putc (row 20 a)),
            append-nil (map putc (row 20 c)),
          )
          refl

-- DOWN and UP reach the display: after the key, what the client next writes makes a waiting board
-- show the two neighbours, the marker in front of the one that the key led to, each cut off or
-- filled up to the width of the display.
pub move_shown :
    (mpd : Mpd) (d : Daemon) (p q : ℕ) (m n : Menu) (s t : List ℕ) (b : Board)
    → Framed d
    → IsPair d.heap p q m n s t
    → IsReady b.1
    → Returns
        (λ d'.
          Returns
            (λ b'.
              b'.1.effects
              ≡ b.1.effects ++ (display_line 0 (unmarked s) ++ display_line 1 (marked t)))
            (receive_all (write_lcd d'.lcd) b))
        (handle_command cmd_down mpd (go (some p) d))
      × Returns
          (λ d'.
            Returns
              (λ b'.
                b'.1.effects
                ≡ b.1.effects ++ (display_line 0 (marked s) ++ display_line 1 (unmarked t)))
              (receive_all (write_lcd d'.lcd) b))
          (handle_command cmd_up mpd (go (some q) d))
move_shown mpd d p q m n s t b v r z =
    let (down, up) = move_lem mpd d p q m n s t v r in
    (
      Returns-both Framed _ _ (handle_command cmd_down mpd (go (some p) d))
          (handle_command-Framed cmd_down mpd (go (some p) d) v) down
          (λ d' w (x, y, h, k). Shows-received (unmarked s) (marked t) d'.lcd b w k z),
      Returns-both Framed _ _ (handle_command cmd_up mpd (go (some q) d))
          (handle_command-Framed cmd_up mpd (go (some q) d) v) up
          (λ d' w (x, y, h, k). Shows-received (marked s) (unmarked t) d'.lcd b w k z),
    )
