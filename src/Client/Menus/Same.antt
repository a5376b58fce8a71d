-- ===== src/Client/Menus/Same.antt =====
-- client/efikampd.c: what the handlers of the menus leave alone.
use efika_mpd.Base.{
  ◌≡◌, refl, Bool, true, false, Option, none, some, inl, inr, List, Leaves, Leaves->>=,
  Option-cases,
}
use efika_mpd.Client.{
  Menu, Handler, select_song, play_album, fetch_songs, fetch_albums, fetch_artists, fetch_radio,
}
use efika_mpd.Client.Heap.{load}
use efika_mpd.Client.Mpd.{Entry, Mpd}
use efika_mpd.Client.State.{Daemon}
use efika_mpd.Client.Menus.{menu_populate}
use efika_mpd.Client.Menus.Fetch.{
  queue_songs, populate, menu_select_song, menu_play_album, menu_fetch_songs, menu_fetch_albums,
  menu_fetch_artists, read_stations, menu_fetch_radio, run_handler,
}

-- The handlers of the menus leave the display alone.
abbrev pub Same : Daemon → Bool × Daemon → Type 0
Same d r = r.1.lcd ≡ d.lcd

populate-Same :
    (es : List Entry) (hs hp : Option Handler) (sort : Bool) (d : Daemon)
    → Leaves (Same d) (populate es hs hp sort d)
unfolding populate
populate-Same es hs hp sort d =
    Leaves->>= (Same d) d.pmenu _
      λ p. Leaves->>= (Same d) (menu_populate p es hs hp sort d.heap) _ λ h. refl

fetch_if_empty :
    (d : Daemon) (f : Menu → Option (Bool × Daemon))
    → ((m : Menu) → Leaves (Same d) (f m))
    → (m : Menu) → Leaves (Same d) (elim m.child [ some q ↦ some (true, d) | none ↦ f m ])
fetch_if_empty d f h m = elim (Option-cases m.child) [ inl e ↦ rw e (h m) | inr (q, e) ↦ rw e refl ]

menu_play_album-Same : (mpd : Mpd) (d : Daemon) → Leaves (Same d) (menu_play_album mpd d)
unfolding menu_play_album
menu_play_album-Same mpd d = elim (Option-cases d.pmenu) [
  | inl e ↦ rw (e, menu_play_album) refl
  | inr (p, e) ↦
      rw (e, menu_play_album)
        (Leaves->>= (Same d) (load (some p) d.heap) _ λ m. elim (Option-cases m.parent) [
          | inl f ↦ rw f refl
          | inr (q, f) ↦ rw f (
              Leaves->>= (Same d) (load (some q) d.heap) _ λ artist.
                Leaves->>= (Same d) (queue_songs (mpd.songs artist.text m.text)) _ λ cs. refl)
        ])
]

menu_fetch_radio-Same : (mpd : Mpd) (d : Daemon) → Leaves (Same d) (menu_fetch_radio mpd d)
unfolding menu_fetch_radio
menu_fetch_radio-Same mpd d = Leaves->>= (Same d) (load d.pmenu d.heap) _ (
    fetch_if_empty d _ λ m. elim (Option-cases mpd.radio) [
      | inl e ↦ rw e refl
      | inr (lines, e) ↦ rw e (
          Leaves->>= (Same d) d.pmenu _
            λ p. Leaves->>= (Same d) (read_stations p lines d.heap) _ λ h. refl)
    ])

pub run_handler-Same :
    (f : Handler) (mpd : Mpd) (d : Daemon) → Leaves (Same d) (run_handler f mpd d)
unfolding run_handler menu_select_song menu_fetch_songs menu_fetch_albums menu_fetch_artists
run_handler-Same select_song mpd d = Leaves->>= (Same d) (load d.pmenu d.heap) _ λ m. refl
run_handler-Same play_album mpd d = menu_play_album-Same mpd d
run_handler-Same fetch_songs mpd d =
    Leaves->>= (Same d) (load d.pmenu d.heap) _
      λ m. Leaves->>= (Same d) (load m.parent d.heap) _ λ a. populate-Same _ _ _ false d
run_handler-Same fetch_albums mpd d =
    Leaves->>= (Same d) (load d.pmenu d.heap) _
      (fetch_if_empty d _ λ m. populate-Same _ _ _ false d)
run_handler-Same fetch_artists mpd d =
    Leaves->>= (Same d) (load d.pmenu d.heap) _ (fetch_if_empty d _ λ m. populate-Same _ _ _ true d)
run_handler-Same fetch_radio mpd d = menu_fetch_radio-Same mpd d
