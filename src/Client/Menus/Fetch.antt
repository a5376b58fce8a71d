-- ===== src/Client/Menus/Fetch.antt =====
-- client/efikampd.c: the functions behind the menus' handlers, and the top menu. Each returns
-- whether the menu stays open.
use efika_mpd.Base.{
  ℕ, zero, suc, Bool, true, false, Option, none, some, List, [], ◌∷◌, ◌++◌, ◌>>=◌, length, take,
}
use efika_mpd.Client.{
  Handler, select_song, play_album, fetch_songs, fetch_albums, fetch_artists, fetch_radio,
  state_play,
}
use efika_mpd.Client.Heap.{Heap, load, store, menu_create_entry}
use efika_mpd.Client.Text.{codes, strtok}
use efika_mpd.Client.Mpd.{
  Entry, tag, song, other, Mpd, Call, play, playlist_clear, queue_add, queue_commit,
}
use efika_mpd.Client.State.{Daemon, ask}
use efika_mpd.Client.Menus.{set_next, menu_populate}

abbrev pub put_heap : Daemon → Heap → Daemon
put_heap d h = record d { heap = h }

unfoldable pub menu_select_song : Daemon → Option (Bool × Daemon)
menu_select_song d = load d.pmenu d.heap >>= λ m. some (
  false,
  ask (playlist_clear ∷ queue_add m.file ∷ queue_commit ∷ play ∷ [])
      (record d { state = state_play }),
)

-- The loop of `menu_play_album`: an entry that is not a song has none to point to.
unfoldable pub queue_songs : List Entry → Option (List Call)
queue_songs [] = some []
queue_songs (song s ∷ es) = queue_songs es >>= λ cs. some (queue_add s.file ∷ cs)
queue_songs (tag t ∷ es) = none
queue_songs (other ∷ es) = none

unfoldable pub menu_play_album : Mpd → Daemon → Option (Bool × Daemon)
menu_play_album mpd d = elim d.pmenu [
  | none ↦ some (false, d)
  | some p ↦ load (some p) d.heap >>= λ m. elim m.parent [
    | none ↦ some (false, d)
    | some q ↦ load (some q) d.heap >>= λ artist.
        queue_songs (mpd.songs artist.text m.text) >>= λ cs. some (
          false,
          ask (playlist_clear ∷ cs ++ queue_commit ∷ play ∷ []) (record d { state = state_play }),
        )
  ]
]

-- `menu_populate(ctx->pmenu, ...)` as the last step of a function.
unfoldable pub populate :
    List Entry → Option Handler → Option Handler → Bool → Daemon → Option (Bool × Daemon)
populate es hs hp sort d =
    d.pmenu >>= λ p. menu_populate p es hs hp sort d.heap >>= λ h. some (true, put_heap d h)

unfoldable pub menu_fetch_songs : Mpd → Daemon → Option (Bool × Daemon)
menu_fetch_songs mpd d = load d.pmenu d.heap >>= λ m. load m.parent d.heap >>= λ artist.
    populate (mpd.songs artist.text m.text) (some select_song) (some select_song) false d

unfoldable pub menu_fetch_albums : Mpd → Daemon → Option (Bool × Daemon)
menu_fetch_albums mpd d = load d.pmenu d.heap >>= λ m. elim m.child [
  | some q ↦ some (true, d)
  | none ↦ populate (mpd.albums m.text) (some fetch_songs) (some play_album) false d
]

unfoldable pub menu_fetch_artists : Mpd → Daemon → Option (Bool × Daemon)
menu_fetch_artists mpd d = load d.pmenu d.heap >>= λ m. elim m.child [
  | some q ↦ some (true, d)
  | none ↦ populate mpd.artists (some fetch_albums) none true d
]

-- A line of radio.csv as a name and a path. Its last character is cut off; a line without one is
-- written in front of the buffer.
unfoldable pub split_line : List ℕ → Option (Option (List ℕ × List ℕ))
split_line [] = none
split_line (c ∷ s) =
    some
      (strtok (take (length s) (c ∷ s)) >>= λ name. strtok name.1 >>= λ path. some (name.0, path.0))

-- A new entry at the end of the stations.
unfoldable pub add_station : ℕ → List ℕ → List ℕ → Option ℕ → Heap → Option (ℕ × Heap)
add_station pmenu name path p h =
    let (n, h1) =
      menu_create_entry (some name) (some path) (some select_song) (some select_song) h in
    h1.cell n >>= λ m. store n (record m { parent = some pmenu; prev = p }) h1 >>= λ h2.
    set_next p (some n) h2 >>= λ h3. some (n, h3)

-- The loop over the lines: the last station, and the heap.
unfoldable pub add_stations : ℕ → List (List ℕ) → Option ℕ → Heap → Option (Option ℕ × Heap)
add_stations pmenu [] p h = some (p, h)
add_stations pmenu (line ∷ lines) p h = split_line line >>= λ o. elim o [
  | none ↦ add_stations pmenu lines p h
  | some r ↦ add_station pmenu r.0 r.1 p h >>= λ s. add_stations pmenu lines (some s.0) s.1
]

-- `while (p->prev != NULL) p = p->prev;`
unfoldable pub rewind : ℕ → ℕ → Heap → Option ℕ
rewind zero p h = none
rewind (suc fuel) p h = h.cell p >>= λ m. elim m.prev [ none ↦ some p | some q ↦ rewind fuel q h ]

unfoldable pub read_stations : ℕ → List (List ℕ) → Heap → Option Heap
read_stations pmenu lines h = add_stations pmenu lines none h >>= λ r. r.0 >>= λ p.
    rewind (suc r.1.fresh) p r.1 >>= λ first.
    r.1.cell pmenu >>= λ m. store pmenu (record m { child = some first }) r.1

unfoldable pub menu_fetch_radio : Mpd → Daemon → Option (Bool × Daemon)
menu_fetch_radio mpd d = load d.pmenu d.heap >>= λ m. elim m.child [
  | some q ↦ some (true, d)
  | none ↦ elim mpd.radio [
    | none ↦ some (false, d)
    | some lines ↦ d.pmenu >>= λ p. read_stations p lines d.heap >>= λ h. some (true, put_heap d h)
  ]
]

-- A call through `handler_select` or `handler_play`.
unfoldable pub run_handler : Handler → Mpd → Daemon → Option (Bool × Daemon)
run_handler select_song mpd d = menu_select_song d
run_handler play_album mpd d = menu_play_album mpd d
run_handler fetch_songs mpd d = menu_fetch_songs mpd d
run_handler fetch_albums mpd d = menu_fetch_albums mpd d
run_handler fetch_artists mpd d = menu_fetch_artists mpd d
run_handler fetch_radio mpd d = menu_fetch_radio mpd d

unfoldable pub menu_init : Heap → Option (ℕ × Heap)
menu_init h =
    let (head, h1) = menu_create_entry (some (codes "Library")) none (some fetch_artists) none h in
    let (n, h2) = menu_create_entry (some (codes "Radio")) none (some fetch_radio) none h1 in
    h2.cell head >>= λ m. store head (record m { next = some n }) h2 >>= λ h3.
    h3.cell n >>= λ m'. store n (record m' { prev = some head }) h3 >>= λ h4. some (head, h4)
