-- ===== src/Client/Display.antt =====
-- The display code of client/efikampd.c: what goes into the two rows of `buffer`.
pub mod Rows
use efika_mpd.Base.{
  ℕ, suc, ◌+◌, ◌/◌, ◌%◌, Bool, true, false, Option, none, some, List, [], ◌∷◌, ◌++◌, ◌==◌,
  if◌then◌else◌, ◌>>=◌, replicate, set_bit,
}
use efika_mpd.Client.{
  PlayState, state_stdby, state_idle, state_play, state_pause, state_stopped, Lcd, Menu, ShortTime,
  line_length, lcd_update_line1, lcd_update_line2, lcd_update_flags,
}
use efika_mpd.Client.Heap.{load}
use efika_mpd.Client.Text.{codes, snprintf, text_or_null, decimal, decimal2}
use efika_mpd.Client.Mpd.{Song, Mpd}
use efika_mpd.Client.State.{Daemon, put_lcd}

-- A row after `memset` with spaces.
abbrev pub blank : List ℕ
blank = replicate line_length 32

-- `BV(LCD_UPDATE_LINE1) | BV(LCD_UPDATE_LINE2)`
abbrev pub both_lines : ℕ
both_lines = 3

unfoldable pub lcd_set_flags : ℕ → Lcd → Lcd
lcd_set_flags flags l = record l {
  mode_flags = flags;
  update_flags = set_bit l.update_flags lcd_update_flags;
}

unfoldable pub lcd_clear : Lcd → Lcd
lcd_clear l = record l { buffer0 = blank; buffer1 = blank; update_flags = both_lines }

-- `song->title ? song->title : song->name`
unfoldable pub song_text : Song → List ℕ
song_text s = elim s.title [ none ↦ text_or_null s.name | some t ↦ t ]

-- The text of `%i/%i %02i:%02i %i`.
unfoldable pub position_text : Mpd → Song → List ℕ
position_text mpd s =
    decimal (s.pos + 1)
    ++ codes "/"
    ++ decimal mpd.playlist_length
    ++ codes " "
    ++ decimal2 (mpd.elapsed 0 / 60)
    ++ codes ":"
    ++ decimal2 (mpd.elapsed 1 % 60)
    ++ codes " "
    ++ decimal mpd.bitrate

unfoldable pub show_song : Mpd → Option Song → Lcd → Lcd
show_song mpd none l = l
show_song mpd (some s) l = record l {
  buffer0 = snprintf l.buffer0 line_length (song_text s);
  buffer1 = snprintf l.buffer1 line_length (position_text mpd s);
}

-- The switch of `lcd_update_status`.
unfoldable pub show_status : PlayState → Mpd → ShortTime → Lcd → Lcd
show_status state_play mpd time l = show_song mpd mpd.current_song l
show_status state_pause mpd time l = record l {
  buffer1 = snprintf l.buffer1 line_length (codes "    -- PAUSE --");
}
show_status state_idle mpd time l = record l {
  buffer0 = snprintf l.buffer0 line_length (codes "  Efika MPD Player  ");
  buffer1 = blank;
}
show_status state_stopped mpd time l = record l {
  buffer0 = snprintf l.buffer0 line_length (codes "  Efika MPD Player  ");
  buffer1 = blank;
}
show_status state_stdby mpd time l = record l {
  buffer0 = blank;
  buffer1 =
      snprintf l.buffer1 line_length
        (codes "       " ++ decimal2 time.hrs ++ codes ":" ++ decimal2 time.min ++ codes "  ");
}

unfoldable pub lcd_update_status : Mpd → Daemon → Daemon
lcd_update_status mpd d =
    let l = show_status d.state mpd d.time d.lcd in
    put_lcd d (record l {
      update_flags = set_bit (set_bit l.update_flags lcd_update_line2) lcd_update_line1;
    })

-- The marker in front of an entry.
abbrev pub marker : Bool → ℕ
marker here = if here then 0x1D else 0x20

-- The texts of the two entries on the display, where `m` is the current one.
unfoldable pub shown_entries : Menu → Daemon → Option (Option (List ℕ) × Option (List ℕ))
shown_entries m d =
    if d.lcd.marker_pos == 0
    then (elim m.next [
      | none ↦ some (m.text, none)
      | some q ↦ load (some q) d.heap >>= λ n. some (m.text, n.text)
    ])
    else (load m.prev d.heap >>= λ q. some (q.text, m.text))

unfoldable pub show_entries : Option (List ℕ) → Option (List ℕ) → Lcd → Lcd
show_entries first second l = record l {
  buffer0 = snprintf l.buffer0 line_length (marker (l.marker_pos == 0) ∷ 32 ∷ text_or_null first);
  buffer1 = elim second [
    | none ↦ blank
    | some t ↦ snprintf l.buffer1 line_length (marker (l.marker_pos == 1) ∷ 32 ∷ t)
  ];
  update_flags = both_lines;
}

unfoldable pub lcd_update : Mpd → Daemon → Option Daemon
lcd_update mpd d = elim d.pmenu [
  | none ↦ some (lcd_update_status mpd d)
  | some p ↦ load (some p) d.heap >>= λ m.
      shown_entries m d >>= λ r. some (put_lcd d (show_entries r.0 r.1 d.lcd))
]

-- `lcd_scroll` does nothing.
unfoldable pub update_time : ShortTime → Mpd → Daemon → Option Daemon
update_time now mpd d = lcd_update mpd (record d { time = now })
