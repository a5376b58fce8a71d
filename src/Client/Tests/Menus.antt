-- ===== src/Client/Tests/Menus.antt =====
-- Tests of the menus of client/efikampd.c, from the top menu on.
use efika_mpd.Base.{
  ◌+◌, ◌<◌, ℕ, ◌≡◌, refl, ◌≢◌, ◌⊎◌, true, none, some, List, [], ◌∷◌, arith, length, All, Returns,
}
use efika_mpd.Client.Text.{codes, text_or_null}
use efika_mpd.Client.Mpd.{Mpd, tag}
use efika_mpd.Client.State.{Daemon}
use efika_mpd.Client.Menus.{menu_populate}
use efika_mpd.Client.Menus.Fetch.{read_stations}
use efika_mpd.Client.Menus.Stations.Lines.{pieces, station_line}
use efika_mpd.Client.Menus.Stations.{Linked}
use efika_mpd.Client.Menus.Stations.Read.{stations_of, IsLine, read_stations_lem}
use efika_mpd.Client.Text.{str_ltb}
use efika_mpd.Client.Menus.Chain.Place.{insert}
use efika_mpd.Client.Menus.Chain.Insert.{HaveTexts, place_all}
use efika_mpd.Client.Menus.Chain.Populate.{Populated, menu_populate_lem}
use efika_mpd.Client.Menus.Top.{library_entry, radio_entry}
use efika_mpd.Client.Command.Renew.{renew_menu_lem}
use efika_mpd.Client.{cmd_select}
use efika_mpd.Client.Command.{handle_command, renew_menu}
use efika_mpd.Client.Command.Sound.Form.{IsInForm, handle_command-IsInForm}
use efika_mpd.Client.Loop.{rounds, Input, loop}
use efika_mpd.Client.Loop.Spoken.{IsSpoken}
use efika_mpd.Client.Heap.{empty}
use efika_mpd.Client.Menus.Fetch.{menu_init}
use efika_mpd.Base.{◌>>=◌}
use efika_mpd.Client.Tests.{daemon-Framed, top_heap, daemon, mpd, changes}
use efika_mpd.Client.Mpd.{song}
use efika_mpd.Client.Menus.Tree.Placed.{IsFull}
use efika_mpd.Client.Command.Sound.{IsSound}
use efika_mpd.Client.Command.Sound.Renewed.{pair, pair-IsClosed}
use efika_mpd.Client.Command.Sound.Rounds.{IsAnswered, rounds-IsSound, loop-menu_init}

-- A comment without a path, and two stations.
abbrev radio_lines : List (List ℕ)
radio_lines = codes "radio\n" ∷ codes "FM,http://fm\n" ∷ codes "AM,http://am\n" ∷ []

two_stations :
    stations_of radio_lines ≡ (codes "FM", codes "http://fm") ∷ (codes "AM", codes "http://am") ∷ []
unfolding stations_of station_line pieces
two_stations = refl

radio_lines-IsLine : All IsLine radio_lines
radio_lines-IsLine = (λ e. ground arith, (λ e. ground arith, (λ e. ground arith, tt)))

read_stations_example :
    ((stations_of radio_lines ≡ []) × (read_stations 1 radio_lines top_heap ≡ none))
    ⊎ Returns
        (λ h'.
          (h'.cell 1 ≡ some (record (radio_entry 0) { child = some 2 }))
          × Linked h' 1 2 none (stations_of radio_lines)
          × (h'.fresh ≡ 2 + length (stations_of radio_lines))
          × ((k : ℕ) → k < 2 → k ≢ 1 → h'.cell k ≡ top_heap.cell k))
        (read_stations 1 radio_lines top_heap)
read_stations_example =
    read_stations_lem radio_lines top_heap 1 (radio_entry 0) radio_lines-IsLine (omega arith) refl

-- The artists of `mpd`, for the entry Library.
artist_texts : HaveTexts mpd.artists (codes "Nico" ∷ codes "Can" ∷ [])
artist_texts = (refl, (refl, tt))

-- "Can" comes first, in the cell that was made last.
artists_sorted :
    place_all true (codes "Nico" ∷ codes "Can" ∷ []) 3 []
    ≡ (4, codes "Can") ∷ (3, codes "Nico") ∷ []
unfolding insert str_ltb
artists_sorted = refl

populate_example :
    Returns
      (Populated top_heap 0
        (library_entry 1)
        (place_all true (codes "Nico" ∷ codes "Can" ∷ []) 3 [])
        2)
      (menu_populate 0 mpd.artists none none true top_heap)
populate_example =
    menu_populate_lem 0 (library_entry 1) mpd.artists (codes "Nico") (codes "Can" ∷ []) none none
      true top_heap artist_texts (omega arith) refl

renew_menu_example :
    Returns
      (λ d'.
        (d'.pmenu ≡ none)
        × (d'.top_menu ≡ some 2)
        × (d'.heap.cell 2 ≡ some (library_entry 3))
        × (d'.heap.cell 3 ≡ some (radio_entry 2))
        × (d'.heap.cell 0 ≡ none)
        × (d'.heap.cell 1 ≡ some (radio_entry 0)))
      (renew_menu daemon)
renew_menu_example =
    renew_menu_lem daemon 0 1 (library_entry 1) (radio_entry 0) refl refl refl refl refl
      (λ e. ground arith) (omega arith) (omega arith)

-- Answers with one artist of one album of one song.
abbrev full_mpd : Mpd
full_mpd = record mpd {
  albums = λ a. tag (some (codes "Ege")) ∷ [];
  songs = λ a b.
      song (record {
        title = some (codes "Mother Sky");
        name = none;
        track = some (codes "3");
        file = some (codes "can/3.ogg");
        pos = 0;
      })
      ∷ [];
  radio = some radio_lines;
}

full_mpd-IsFull : IsFull full_mpd
unfolding text_or_null
full_mpd-IsFull = record {
  artists = (codes "Nico", codes "Can" ∷ [], (refl, (refl, tt)));
  albums = λ a. (codes "Ege", [], (refl, tt));
  songs = λ a b. (codes "3. Mother Sky", [], (refl, tt));
  all_songs = λ a b. (tt, tt);
  radio = λ lines e. ground (arith, e, radio_lines-IsLine, two_stations);
}

daemon-IsSound : IsSound daemon
daemon-IsSound = (
  pair 0,
  record {
    placed = record { closed = pair-IsClosed top_heap 0 refl refl refl; pmenu = refl; top = refl };
    low = omega arith;
    above = λ p m e a n. absurd (n refl);
  },
)

handle_command-IsInForm_example : Returns IsInForm (handle_command cmd_select full_mpd daemon)
handle_command-IsInForm_example =
    handle_command-IsInForm cmd_select full_mpd daemon full_mpd-IsFull
      (daemon-IsSound, daemon-Framed)

-- MENU, SELECT and DOWN on the remote, and then a change of the library.
abbrev menu_input : Input
menu_input = record {
  now = record { hrs = 12; min = 5; sec = 30 };
  mpd = full_mpd;
  keys = ((0, 72), full_mpd) ∷ ((0, 87), full_mpd) ∷ ((0, 107), full_mpd) ∷ [];
  writable = true;
  changed = some (record changes { database = true }, full_mpd);
}

menu_input-IsAnswered : IsAnswered menu_input
menu_input-IsAnswered = (full_mpd-IsFull, (full_mpd-IsFull, (full_mpd-IsFull, tt)))

rounds-IsSound_example :
    Returns (λ (r : Daemon × List ℕ). IsSound r.0) (rounds (menu_input ∷ menu_input ∷ []) daemon)
rounds-IsSound_example =
    rounds-IsSound (menu_input ∷ menu_input ∷ []) daemon
      (menu_input-IsAnswered, (menu_input-IsAnswered, tt)) daemon-IsSound

loop-menu_init_example :
    Returns
      (λ (r : Daemon × List ℕ). IsSpoken r.1)
      (menu_init empty >>= λ r.
        loop full_mpd
          (menu_input ∷ menu_input ∷ [])
          (record daemon { heap = r.1; top_menu = some r.0; pmenu = none }))
loop-menu_init_example =
    loop-menu_init full_mpd (menu_input ∷ menu_input ∷ []) empty daemon
      (menu_input-IsAnswered, (menu_input-IsAnswered, tt)) daemon-Framed
