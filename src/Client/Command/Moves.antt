-- ===== src/Client/Command/Moves.antt =====
-- client/efikampd.c: moving through a menu, and what the display shows of it.
use efika_mpd.Base.{ℕ, ◌≤◌, ◌≡◌, refl, ◌≢◌, none, some, List, ◌∷◌, arith, take, Returns}
use efika_mpd.Firmware.Board.Link.{strlen}
use efika_mpd.Firmware.Board.Display.Window.{c_string}
use efika_mpd.Client.{cmd_up, cmd_down, Lcd, Menu}
use efika_mpd.Client.Heap.{Heap, load}
use efika_mpd.Client.Text.{snprintf, text_or_null}
use efika_mpd.Client.Text.Strings.{IsText, snprintf_lem}
use efika_mpd.Client.Mpd.{Mpd}
use efika_mpd.Client.State.{Daemon, put_lcd}
use efika_mpd.Client.Display.{shown_entries, show_entries, lcd_update}
use efika_mpd.Client.Display.Rows.{IsFramed, Framed}
use efika_mpd.Client.Command.{mark, go, move_mark, on_up, on_down, handle_command}

-- Two rows hold these texts, and both are due to be sent.
pub record Shows (a b : List ℕ) (l : Lcd) : Type 0 where
  pub row0 : c_string l.buffer0 ≡ take 39 a
  pub row1 : c_string l.buffer1 ≡ take 39 b
  pub ended0 : strlen l.buffer0 ≢ none
  pub ended1 : strlen l.buffer1 ≢ none
  pub due : l.update_flags ≡ 3

-- An entry with the marker in front of it, and one without.
abbrev pub marked : List ℕ → List ℕ
marked s = 0x1D ∷ 32 ∷ s

abbrev pub unmarked : List ℕ → List ℕ
unmarked s = 32 ∷ 32 ∷ s

-- Two neighbours in a menu.
pub record IsPair (h : Heap) (p q : ℕ) (m n : Menu) (s t : List ℕ) : Type 0 where
  pub at_p : h.cell p ≡ some m
  pub at_q : h.cell q ≡ some n
  pub next : m.next ≡ some q
  pub prev : n.prev ≡ some p
  pub text_p : m.text ≡ some s
  pub text_q : n.text ≡ some t
  pub is_text_p : IsText s
  pub is_text_q : IsText t

show_entries-Shows :
    (s t : List ℕ) (l : Lcd)
    → IsFramed l
    → IsText s
    → IsText t
    → (l.marker_pos ≡ 0 → Shows (marked s) (unmarked t) (show_entries (some s) (some t) l))
      × (l.marker_pos ≡ 1 → Shows (unmarked s) (marked t) (show_entries (some s) (some t) l))
unfolding show_entries text_or_null
show_entries-Shows s t l v hs ht = (
  λ e. rw e (rows 0 0x1D 32 (λ z. ground arith) (λ z. ground arith)),
  λ e. rw e (rows 1 32 0x1D (λ z. ground arith) (λ z. ground arith)),
)
  where
    rows :
        (k x y : ℕ)
        → x ≢ 0
        → y ≢ 0
        → Shows (x ∷ 32 ∷ s) (y ∷ 32 ∷ t) (record l {
          buffer0 = snprintf l.buffer0 40 (x ∷ 32 ∷ s);
          buffer1 = snprintf l.buffer1 40 (y ∷ 32 ∷ t);
          update_flags = 3;
          marker_pos = k;
        })
    rows k x y hx hy =
        let (a0, a1, a2) =
          snprintf_lem l.buffer0 40 (x ∷ 32 ∷ s) (omega arith) (omega (arith, v.row0))
            (hx, (λ z. ground arith, hs)) in
        let (b0, b1, b2) =
          snprintf_lem l.buffer1 40 (y ∷ 32 ∷ t) (omega arith) (omega (arith, v.row1))
            (hy, (λ z. ground arith, ht)) in
        record {
          row0 = a1;
          row1 = b1;
          ended0 = λ z. ground arith;
          ended1 = λ z. ground arith;
          due = refl;
        }

-- The redraw with the upper entry current, and with the lower one.
lcd_update_upper :
    (mpd : Mpd) (d : Daemon) (p q : ℕ) (m n : Menu) (s t : List ℕ)
    → IsPair d.heap p q m n s t
    → d.pmenu ≡ some p
    → d.lcd.marker_pos ≡ 0
    → lcd_update mpd d ≡ some (put_lcd d (show_entries (some s) (some t) d.lcd))
unfolding lcd_update shown_entries load
lcd_update_upper mpd d p q m n s t r e z =
    ground (arith, r.at_p, r.at_q, r.next, r.text_p, r.text_q)

lcd_update_lower :
    (mpd : Mpd) (d : Daemon) (p q : ℕ) (m n : Menu) (s t : List ℕ)
    → IsPair d.heap p q m n s t
    → d.pmenu ≡ some q
    → d.lcd.marker_pos ≡ 1
    → lcd_update mpd d ≡ some (put_lcd d (show_entries (some s) (some t) d.lcd))
unfolding lcd_update shown_entries load
lcd_update_lower mpd d p q m n s t r e z =
    ground (arith, r.at_p, r.at_q, r.prev, r.text_p, r.text_q)

-- The marker's line after a move.
move_mark_down : (d : Daemon) → d.lcd.marker_pos ≤ 1 → move_mark 0 1 d ≡ mark 1 d
move_mark_down d h = ground arith

move_mark_up : (d : Daemon) → d.lcd.marker_pos ≤ 1 → move_mark 1 0 d ≡ mark 0 d
move_mark_up d h = ground arith

-- DOWN and UP between two neighbours of a menu, wherever the marker was: the current entry is the
-- one that they lead to, the marker stands in front of it, and the two rows of the display, which
-- are both due to be sent, are the two neighbours in their order, cut off at 39 bytes.
pub move_lem :
    (mpd : Mpd) (d : Daemon) (p q : ℕ) (m n : Menu) (s t : List ℕ)
    → Framed d
    → IsPair d.heap p q m n s t
    → Returns
        (λ d'.
          (d'.pmenu ≡ some q)
          × (d'.lcd.marker_pos ≡ 1)
          × (d'.heap ≡ d.heap)
          × Shows (unmarked s) (marked t) d'.lcd)
        (handle_command cmd_down mpd (go (some p) d))
      × Returns
          (λ d'.
            (d'.pmenu ≡ some p)
            × (d'.lcd.marker_pos ≡ 0)
            × (d'.heap ≡ d.heap)
            × Shows (marked s) (unmarked t) d'.lcd)
          (handle_command cmd_up mpd (go (some q) d))
unfolding handle_command on_down on_up load show_entries
move_lem mpd d p q m n s t v r = (
  rw
      (
        r.at_p,
        r.next,
        move_mark_down (go (some q) d) v.marker,
        lcd_update_lower mpd (mark 1 (go (some q) d)) p q m n s t r refl refl,
      )
      (
        refl,
        refl,
        refl,
        (show_entries-Shows s t (mark 1 (go (some q) d)).lcd framed1 r.is_text_p r.is_text_q).1
            refl,
      ),
  rw
      (
        r.at_q,
        r.prev,
        move_mark_up (go (some p) d) v.marker,
        lcd_update_upper mpd (mark 0 (go (some p) d)) p q m n s t r refl refl,
      )
      (
        refl,
        refl,
        refl,
        (show_entries-Shows s t (mark 0 (go (some p) d)).lcd framed0 r.is_text_p r.is_text_q).0
            refl,
      ),
)
  where
    framed1 : IsFramed (mark 1 d).lcd
    framed1 = record {
      row0 = v.row0;
      row1 = v.row1;
      marker = omega arith;
      dim = v.dim;
      flags = v.flags;
    }

    framed0 : IsFramed (mark 0 d).lcd
    framed0 = record {
      row0 = v.row0;
      row1 = v.row1;
      marker = omega arith;
      dim = v.dim;
      flags = v.flags;
    }
