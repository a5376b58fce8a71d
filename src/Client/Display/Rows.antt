-- ===== src/Client/Display/Rows.antt =====
-- client/efikampd.c: the form of `lcd_t`, under the functions that fill it.
use efika_mpd.Base.{
  ℕ, ◌≤◌, ◌<◌, ◌≡◌, refl, ◌∙◌, Option, none, some, inl, inr, List, arith, length, set_bit, Leaves,
  Leaves->>=, Option-cases, ◌>>=◌,
}
use efika_mpd.Client.{
  PlayState, state_stdby, state_idle, state_play, state_pause, state_stopped, Lcd, ShortTime,
  line_length,
}
use efika_mpd.Client.Heap.{load}
use efika_mpd.Client.Text.{snprintf}
use efika_mpd.Client.Text.Strings.{length-snprintf}
use efika_mpd.Client.Mpd.{Mpd}
use efika_mpd.Client.State.{Daemon, put_lcd}
use efika_mpd.Client.Display.{
  blank, lcd_clear, show_song, show_status, lcd_update_status, shown_entries, show_entries,
  lcd_update, update_time,
}

pub record IsFramed (l : Lcd) : Type 0 where
  pub row0 : length l.buffer0 ≡ line_length
  pub row1 : length l.buffer1 ≡ line_length
  pub marker : l.marker_pos ≤ 1
  pub dim : l.dim_value < 4
  pub flags : l.update_flags < 16

length-blank : length blank ≡ line_length
length-blank = refl

set_bit_fits : (f : ℕ) → f < 16 → set_bit (set_bit f 1) 0 < 16
set_bit_fits f h = ground arith

printed :
    (buffer text : List ℕ)
    → length buffer ≡ line_length
    → length (snprintf buffer line_length text) ≡ line_length
printed buffer text h = length-snprintf buffer line_length text (omega arith) (omega arith) ∙ h

pub lcd_clear-IsFramed : (l : Lcd) → IsFramed l → IsFramed (lcd_clear l)
unfolding lcd_clear
lcd_clear-IsFramed l v = record {
  row0 = length-blank;
  row1 = length-blank;
  marker = v.marker;
  dim = v.dim;
  flags = omega arith;
}

-- Other rows in the place of the two.
with_rows :
    (l : Lcd) (a b : List ℕ)
    → length a ≡ line_length
    → length b ≡ line_length
    → IsFramed l
    → IsFramed (record l { buffer0 = a; buffer1 = b })
with_rows l a b h k v = record {
  row0 = h;
  row1 = k;
  marker = v.marker;
  dim = v.dim;
  flags = v.flags;
}

show_status-IsFramed :
    (s : PlayState) (mpd : Mpd) (time : ShortTime) (l : Lcd)
    → IsFramed l
    → IsFramed (show_status s mpd time l)
unfolding show_status show_song
show_status-IsFramed state_play mpd time l v = elim (Option-cases mpd.current_song) [
  | inl e ↦ rw (e, show_song) v
  | inr (s, e) ↦
      rw (e, show_song)
        (with_rows l _ _ (printed l.buffer0 _ v.row0) (printed l.buffer1 _ v.row1) v)
]
show_status-IsFramed state_pause mpd time l v =
    with_rows l _ _ v.row0 (printed l.buffer1 _ v.row1) v
show_status-IsFramed state_idle mpd time l v =
    with_rows l _ _ (printed l.buffer0 _ v.row0) length-blank v
show_status-IsFramed state_stopped mpd time l v =
    with_rows l _ _ (printed l.buffer0 _ v.row0) length-blank v
show_status-IsFramed state_stdby mpd time l v =
    with_rows l _ _ length-blank (printed l.buffer1 _ v.row1) v

lcd_update_status-IsFramed :
    (mpd : Mpd) (d : Daemon) → IsFramed d.lcd → IsFramed (lcd_update_status mpd d).lcd
unfolding lcd_update_status
lcd_update_status-IsFramed mpd d v =
    let w = show_status-IsFramed d.state mpd d.time d.lcd v in
    record {
      row0 = w.row0;
      row1 = w.row1;
      marker = w.marker;
      dim = w.dim;
      flags = set_bit_fits _ w.flags;
    }

show_entries-IsFramed :
    (first second : Option (List ℕ)) (l : Lcd) → IsFramed l → IsFramed (show_entries first second l)
unfolding show_entries
show_entries-IsFramed first none l v = record {
  row0 = printed l.buffer0 _ v.row0;
  row1 = length-blank;
  marker = v.marker;
  dim = v.dim;
  flags = omega arith;
}
show_entries-IsFramed first (some t) l v = record {
  row0 = printed l.buffer0 _ v.row0;
  row1 = printed l.buffer1 _ v.row1;
  marker = v.marker;
  dim = v.dim;
  flags = omega arith;
}

abbrev pub Framed : Daemon → Type 0
Framed d = IsFramed d.lcd

pub lcd_update-Framed : (mpd : Mpd) (d : Daemon) → Framed d → Leaves Framed (lcd_update mpd d)
unfolding lcd_update
lcd_update-Framed mpd d v = elim (Option-cases d.pmenu) [
  | inl e ↦ rw (e, lcd_update) (lcd_update_status-IsFramed mpd d v)
  | inr (p, e) ↦
      rw (e, lcd_update)
        (Leaves->>= Framed (load (some p) d.heap) _
          λ m. Leaves->>= Framed (shown_entries m d) _ λ r. show_entries-IsFramed r.0 r.1 d.lcd v)
]

pub update_time-Framed :
    (now : ShortTime) (mpd : Mpd) (d : Daemon) → Framed d → Leaves Framed (update_time now mpd d)
unfolding update_time
update_time-Framed now mpd d v = lcd_update-Framed mpd (record d { time = now }) v

-- `lcd_update` writes nothing but the display's part of the context.
pub lcd_update-lcd :
    (mpd : Mpd) (d : Daemon) → Leaves (λ d'. (l : Lcd) × (d' ≡ put_lcd d l)) (lcd_update mpd d)
unfolding lcd_update lcd_update_status
lcd_update-lcd mpd d = update_at d.pmenu
  where
    update_at :
        (o : Option ℕ)
        → Leaves
            (λ d'. (l : Lcd) × (d' ≡ put_lcd d l))
            (elim o [
              | none ↦ some (lcd_update_status mpd d)
              | some p ↦ load (some p) d.heap >>= λ m.
                  shown_entries m d >>= λ r. some (put_lcd d (show_entries r.0 r.1 d.lcd))
            ])
    update_at none = (_, refl)
    update_at (some p) =
        Leaves->>= _ (load (some p) d.heap) _ λ m. Leaves->>= _ (shown_entries m d) _ λ r. (_, refl)
