-- ===== src/Client/Tests.antt =====
-- Tests of client/efikampd.c on a context whose top menu is open.
mod Menus
use efika_mpd.Base.{
  ◌+◌, ◌<◌, ℕ, suc, ◌≡◌, refl, ◌≢◌, ◌⊎◌, ◌↔◌, ◌>>=◌, true, false, none, some, List, [], ◌∷◌, arith,
  length, take, min, get_elem?, replicate, All, ◌==◌, if◌then◌else◌, Returns, Leaves,
}
use efika_mpd.Firmware.Board.Link.{strlen}
use efika_mpd.Firmware.Board.Display.Window.{c_string}
use efika_mpd.Client.{
  cmd_unknown, cmd_stdby, cmd_tuner, cmd_down, cmd_up, cmd_select, state_idle, state_play,
  state_stdby, Lcd,
}
use efika_mpd.Client.Heap.{Heap, empty}
use efika_mpd.Client.Ir
use efika_mpd.Client.Ir.{Files, Tells, main-Tells}
use efika_mpd.Client.Start.{
  child, System, no_log, no_object, Process, main, finish, handle_term_signal,
}
use efika_mpd.Client.Start.Main.{Ends, finish_lem, main_lem}
use efika_mpd.Client.Text.{codes, snprintf}
use efika_mpd.Client.Text.Strings.{snprintf_lem}
use efika_mpd.Client.Mpd.{player_play, Mpd, tag, stop}
use efika_mpd.Client.State.{Daemon}
use efika_mpd.Client.Keymap.{MapEntry, entry, remote_key_map, map_command}
use efika_mpd.Client.Keymap.Lookup.{map_command_lem, map_command-remote_key_map}
use efika_mpd.Client.Menus.{menu_populate}
use efika_mpd.Client.Menus.Fetch.{menu_init}
use efika_mpd.Client.Menus.Fetch.{split_line, read_stations}
use efika_mpd.Client.Menus.Stations.{Linked}
use efika_mpd.Client.Menus.Stations.Read.{stations_of, IsLine, read_stations_lem}
use efika_mpd.Client.Text.{str_ltb, strtok, skip_commas, token}
use efika_mpd.Client.Menus.Chain.Place.{insert}
use efika_mpd.Client.Menus.Chain.Insert.{HaveTexts, place_all}
use efika_mpd.Client.Menus.Chain.Populate.{Populated, menu_populate_lem}
use efika_mpd.Client.Menus.Top.{library_entry, radio_entry, menu_init_lem}
use efika_mpd.Client.Display.Rows.{Framed}
use efika_mpd.Client.Command.Renew.{renew_menu_lem}
use efika_mpd.Client.Command.{renew_menu, handle_command, Changes, status_changed}
use efika_mpd.Client.Command.Framed.{handle_command-Framed}
use efika_mpd.Client.Command.Moves.{Shows, marked, unmarked, IsPair, move_lem}
use efika_mpd.Client.Command.Standby.{IsClosed, stdby_lem, status_changed_lem}
use efika_mpd.Client.Loop.Closed.{AllQuiet, rounds_lem}
use efika_mpd.Client.Loop.{rounds, Input, loop}
use efika_mpd.Client.Loop.Spoken.{IsSpoken, loop-IsSpoken}

abbrev pub library_text : List ℕ
library_text = codes "Library"

abbrev pub radio_text : List ℕ
radio_text = codes "Radio"

abbrev pub top_heap : Heap
top_heap = record {
  fresh = 2;
  cell = λ p.
      if p == 0 then some (library_entry 1) else (if p == 1 then some (radio_entry 0) else none);
}

abbrev pub lcd : Lcd
lcd = record {
  update_flags = 0;
  mode_flags = 0;
  marker_pos = 0;
  dim_value = 0;
  buffer0 = replicate 40 0;
  buffer1 = replicate 40 0;
}

abbrev pub daemon : Daemon
daemon = record {
  state = state_idle;
  lcd = lcd;
  pmenu = some 0;
  run = true;
  time = record { hrs = 0; min = 0; sec = 0 };
  top_menu = some 0;
  heap = top_heap;
  calls = [];
}

abbrev pub closed_daemon : Daemon
closed_daemon = record daemon { pmenu = none }

abbrev pub mpd : Mpd
mpd = record {
  player = player_play;
  random = false;
  current_song = none;
  playlist_length = 3;
  elapsed = λ n. 65;
  bitrate = 128;
  artists = tag (some (codes "Nico")) ∷ tag (some (codes "Can")) ∷ [];
  albums = λ a. [];
  songs = λ a b. [];
  radio = some (codes "FM,http://fm\n" ∷ []);
}

pub daemon-Framed : Framed daemon
daemon-Framed = record {
  row0 = refl;
  row1 = refl;
  marker = omega arith;
  dim = omega arith;
  flags = omega arith;
}

pub top-IsPair : IsPair top_heap 0 1 (library_entry 1) (radio_entry 0) library_text radio_text
top-IsPair = record {
  at_p = refl;
  at_q = refl;
  next = refl;
  prev = refl;
  text_p = refl;
  text_q = refl;
  is_text_p = ground arith;
  is_text_q = ground arith;
}

snprintf_example :
    let after = snprintf (replicate 8 65) 4 (codes "Library") in
    (length after ≡ 8)
    × (c_string after ≡ take 3 (codes "Library"))
    × (strlen after ≡ some (min 3 7))
snprintf_example =
    snprintf_lem (replicate 8 65) 4 (codes "Library") (omega arith) (omega arith) (ground arith)

map_command_example :
    (All (λ e. e.code ≢ 66) remote_key_map × (map_command remote_key_map 66 ≡ cmd_unknown))
    ⊎ ((i : ℕ) × (e : MapEntry) × (get_elem? remote_key_map i ≡ some e)
        × (e.code ≡ 66)
        × All (λ e'. e'.code ≢ 66) (take i remote_key_map)
        × (map_command remote_key_map 66 ≡ e.cmd))
map_command_example = map_command_lem remote_key_map 66

standby_key : map_command remote_key_map 66 ≡ cmd_stdby
standby_key = map_command-remote_key_map 7 (entry 66 cmd_stdby) refl

move_example :
    Returns
      (λ d'.
        (d'.pmenu ≡ some 1)
        × (d'.lcd.marker_pos ≡ 1)
        × (d'.heap ≡ top_heap)
        × Shows (unmarked library_text) (marked radio_text) d'.lcd)
      (handle_command cmd_down mpd daemon)
    × Returns
        (λ d'.
          (d'.pmenu ≡ some 0)
          × (d'.lcd.marker_pos ≡ 0)
          × (d'.heap ≡ top_heap)
          × Shows (marked library_text) (unmarked radio_text) d'.lcd)
        (handle_command cmd_up mpd (record daemon { pmenu = some 1 }))
move_example =
    move_lem mpd daemon 0 1 (library_entry 1) (radio_entry 0) library_text radio_text daemon-Framed
      top-IsPair

stdby_example :
    Returns (IsClosed state_stdby (stop ∷ [])) (handle_command cmd_stdby mpd daemon)
    × Returns (IsClosed state_stdby (stop ∷ [])) (handle_command cmd_tuner mpd daemon)
stdby_example = stdby_lem mpd daemon (λ e. ground arith)

abbrev changes : Changes
changes = record {
  database = false;
  songid = true;
  state = true;
  playlist = false;
  elapsed_time = true;
}

status_changed_example : Returns (IsClosed state_play []) (status_changed changes mpd closed_daemon)
status_changed_example = status_changed_lem changes mpd closed_daemon refl refl

-- The standby key, while the display can be written.
abbrev input : Input
input = record {
  now = record { hrs = 12; min = 5; sec = 30 };
  mpd = mpd;
  keys = ((0, 66), mpd) ∷ [];
  writable = true;
  changed = some (changes, mpd);
}

loop_example : Leaves (λ r. IsSpoken r.1) (loop mpd (input ∷ input ∷ []) closed_daemon)
loop_example = loop-IsSpoken mpd (input ∷ input ∷ []) closed_daemon daemon-Framed

inputs-AllQuiet : AllQuiet (input ∷ input ∷ [])
inputs-AllQuiet = ground (arith, standby_key)

rounds_example :
    Returns (λ r. (r.0.pmenu ≡ none) × IsSpoken r.1) (rounds (input ∷ input ∷ []) closed_daemon)
rounds_example = rounds_lem (input ∷ input ∷ []) closed_daemon daemon-Framed refl inputs-AllQuiet

abbrev keys_read : List (List (ℕ × ℕ))
keys_read = ((0, 66) ∷ (5, 77) ∷ []) ∷ [] ∷ ((0, 72) ∷ []) ∷ []

abbrev both_files : Files
both_files = record { stdin = some 3; tty = some 4 }

main-Tells_example : Tells both_files keys_read (Ir.main [] both_files keys_read)
main-Tells_example = main-Tells [] both_files keys_read (ground arith)

-- A system on which all goes well, but for the user.
abbrev system : System
system = record {
  fork = child;
  log_opens = true;
  tty = some 3;
  session = true;
  user = none;
  host = none;
  port = none;
  password = none;
  connected = true;
  stray = true;
}

abbrev process : Process
process = record {
  log = no_log;
  mi = no_object;
  cleanups = 0;
  heap = empty;
  top_menu = none;
  requests = [];
}

finish_example :
    (((main system process >>= finish) ≡ none) ↔ (child ≡ child))
    × ((handle_term_signal (record process { cleanups = 1 }) >>= finish) ≡ none)
finish_example = finish_lem system process refl refl

main_example : Returns (Ends none true) (main system process)
main_example = main_lem system process refl refl
