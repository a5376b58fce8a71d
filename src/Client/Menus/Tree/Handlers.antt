-- ===== src/Client/Menus/Tree/Handlers.antt =====
-- client/efikampd.c: the handlers of the menus on a closed set of cells.
use efika_mpd.Base.{
  ℕ, suc, ◌<◌, ◌≡◌, refl, sym, ◌≢◌, Bool, true, false, Option, none, some, inl, inr, List, [], ◌∷◌,
  ◌++◌, arith, Option-cases, length, subst, All, Returns, Returns->>=,
}
use efika_mpd.Client.{
  Menu, Handler, select_song, play_album, fetch_songs, fetch_albums, fetch_artists, fetch_radio,
  state_play,
}
use efika_mpd.Client.Heap.{Heap, load}
use efika_mpd.Client.Mpd.{Entry, tag, song, other, Mpd, Call, play, playlist_clear, queue_commit}
use efika_mpd.Client.State.{Daemon, ask}
use efika_mpd.Client.Menus.{menu_populate}
use efika_mpd.Client.Menus.Fetch.{
  queue_songs, populate, menu_select_song, menu_play_album, menu_fetch_songs, menu_fetch_albums,
  menu_fetch_artists, menu_fetch_radio, run_handler,
}
use efika_mpd.Client.Menus.Chain.{Row}
use efika_mpd.Client.Menus.Chain.Insert.{place_all}
use efika_mpd.Client.Menus.Chain.Place.{place}
use efika_mpd.Client.Menus.Chain.Populate.{
  Populated, menu_populate_lem, place_all-length, place-length,
}
use efika_mpd.Client.Menus.Tree.{Inside}
use efika_mpd.Client.Menus.Tree.Grown.{Filled}
use efika_mpd.Client.Menus.Tree.Placed.{
  HasEntries, IsSong, IsFull, Handled, bind_some, same_Handled, Filled-Handled, IsAt, load-IsAt,
  load_parent,
}
use efika_mpd.Client.Menus.Tree.Radio.{radio_Handled}

placed-length :
    (sort : Bool) (t : List ℕ) (ts : List (List ℕ)) (n : ℕ)
    → 0 < length (place_all sort (t ∷ ts) (suc n) [])
placed-length sort t ts n =
    place_all-length sort ts (suc (suc n)) (place sort (suc n, t) [])
      (place-length sort (suc n, t) [])

Populated-Filled :
    (h0 : Heap) (p : ℕ) (m : Menu) (rs : List Row) (h : Heap)
    → 0 < length rs
    → p < h0.fresh
    → Populated h0 p m rs h0.fresh h
    → Filled h0.fresh h0 p m rs h
Populated-Filled h0 p m [] h l lt f = absurd (omega (arith, l))
Populated-Filled h0 p m (r ∷ rs) h l lt f =
    (f.0, f.1, f.2, f.3, f.4, f.5, f.6, f.7, omega (arith, lt))

populate-Handled :
    (s : ℕ → Bool) (d : Daemon) (p : ℕ) (m : Menu) (es : List Entry) (hs hp : Option Handler)
    (sort : Bool)
    → IsAt s d p m
    → HasEntries es
    → Returns (Handled d) (populate es hs hp sort d)
unfolding populate
populate-Handled s d p m es hs hp sort v (t, ts, x) = bind_some (Handled d) d.pmenu _ v.here (
    Returns->>= (Populated d.heap p m (place_all sort (t ∷ ts) (suc d.heap.fresh) []) d.heap.fresh)
      (Handled d) (menu_populate p es hs hp sort d.heap) _
      (menu_populate_lem p m es t ts hs hp sort d.heap x (v.placed.closed.below p v.member) v.cell)
      λ h f.
        Filled-Handled s d p d.heap.fresh m (place_all sort (t ∷ ts) (suc d.heap.fresh) []) h
          v.placed v.here v.member v.cell (placed-length sort t ts d.heap.fresh)
          (Populated-Filled d.heap p m (place_all sort (t ∷ ts) (suc d.heap.fresh) []) h
            (placed-length sort t ts d.heap.fresh) (v.placed.closed.below p v.member) f))

queue_songs-Returns : (es : List Entry) → All IsSong es → Returns (λ cs. Unit {0}) (queue_songs es)
unfolding queue_songs
queue_songs-Returns [] a = tt
queue_songs-Returns (song x ∷ es) a =
    Returns->>= (λ cs. Unit {0}) (λ cs. Unit {0}) (queue_songs es) _ (queue_songs-Returns es a.1)
      λ cs u. tt
queue_songs-Returns (tag t ∷ es) a = absurd a.0
queue_songs-Returns (other ∷ es) a = absurd a.0

-- The entry above.
above_IsAt :
    {s : ℕ → Bool} {d : Daemon} {p q : ℕ} {m : Menu}
    → IsAt s d p m
    → m.parent ≡ some q
    → (artist : Menu) × (d.heap.cell q ≡ some artist)
above_IsAt {s = s} {q = q} v e =
    let (artist, at, held) = v.placed.closed.entry q (subst (Inside s) e v.held.parent) in
    (artist, at)

album_alone :
    {s : ℕ → Bool} {d : Daemon} {p : ℕ} {m : Menu} (mpd : Mpd)
    → IsAt s d p m
    → m.parent ≡ none
    → menu_play_album mpd d ≡ some (false, d)
unfolding menu_play_album load
album_alone mpd v e = ground (arith, v.here, v.cell, e)

album_played :
    {s : ℕ → Bool} {d : Daemon} {p q : ℕ} {m artist : Menu} (mpd : Mpd) (cs : List Call)
    → IsAt s d p m
    → m.parent ≡ some q
    → d.heap.cell q ≡ some artist
    → queue_songs (mpd.songs artist.text m.text) ≡ some cs
    → menu_play_album mpd d
      ≡ some (
        false,
        ask (playlist_clear ∷ cs ++ queue_commit ∷ play ∷ []) (record d { state = state_play }),
      )
unfolding menu_play_album load
album_played mpd cs v e a q = ground (arith, v.here, v.cell, e, a, q)

play_album_Handled :
    (mpd : Mpd) (s : ℕ → Bool) (d : Daemon) (p : ℕ) (m : Menu)
    → IsFull mpd
    → IsAt s d p m
    → Returns (Handled d) (menu_play_album mpd d)
play_album_Handled mpd s d p m u v = elim (Option-cases m.parent) [
  | inl e ↦
      subst (Returns (Handled d)) (sym (album_alone mpd v e)) (same_Handled s d false v.placed)
  | inr (q, e) ↦
      let (artist, a) = above_IsAt v e in
      elim (Option-cases (queue_songs (mpd.songs artist.text m.text))) [
        | inl f ↦ absurd (
            rw f at
              (queue_songs-Returns (mpd.songs artist.text m.text) (u.all_songs artist.text m.text)))
        | inr (cs, f) ↦ subst (Returns (Handled d)) (sym (album_played mpd cs v e a f)) (
          (s, record { closed = v.placed.closed; pmenu = v.placed.pmenu; top = v.placed.top }),
          refl,
          refl,
        )
      ]
]

-- Every handler but `menu_fetch_songs` can be called at every entry of a closed set, and that one
-- where there is an entry above.
pub run_handler-Handled :
    (f : Handler) (mpd : Mpd) (s : ℕ → Bool) (d : Daemon) (p : ℕ) (m : Menu)
    → IsFull mpd
    → IsAt s d p m
    → (m.parent ≡ none → f ≢ fetch_songs)
    → Returns (Handled d) (run_handler f mpd d)
unfolding run_handler menu_select_song menu_play_album menu_fetch_songs menu_fetch_albums
    menu_fetch_artists menu_fetch_radio
run_handler-Handled select_song mpd s d p m u v n =
    bind_some (Handled d) (load d.pmenu d.heap) _ (load-IsAt v) (
      (s, record { closed = v.placed.closed; pmenu = v.placed.pmenu; top = v.placed.top }),
      refl,
      refl,
    )
run_handler-Handled play_album mpd s d p m u v n = play_album_Handled mpd s d p m u v
run_handler-Handled fetch_songs mpd s d p m u v n =
    bind_some (Handled d) (load d.pmenu d.heap) _ (load-IsAt v) (elim (Option-cases m.parent) [
      | inl e ↦ absurd (n e refl)
      | inr (q, e) ↦
          let (artist, a) = above_IsAt v e in
          bind_some (Handled d) (load m.parent d.heap) _ (load_parent d m q artist e a)
            (populate-Handled s d p m _ _ _ _ v (u.songs artist.text m.text))
    ])
run_handler-Handled fetch_albums mpd s d p m u v n =
    bind_some (Handled d) (load d.pmenu d.heap) _ (load-IsAt v) (elim (Option-cases m.child) [
      | inl e ↦ rw e (populate-Handled s d p m _ _ _ _ v (u.albums m.text))
      | inr (q, e) ↦ rw e (same_Handled s d true v.placed)
    ])
run_handler-Handled fetch_artists mpd s d p m u v n =
    bind_some (Handled d) (load d.pmenu d.heap) _ (load-IsAt v) (elim (Option-cases m.child) [
      | inl e ↦ rw e (populate-Handled s d p m _ _ _ _ v u.artists)
      | inr (q, e) ↦ rw e (same_Handled s d true v.placed)
    ])
run_handler-Handled fetch_radio mpd s d p m u v n =
    bind_some (Handled d) (load d.pmenu d.heap) _ (load-IsAt v) (elim (Option-cases m.child) [
      | inl e ↦ rw e (elim (Option-cases mpd.radio) [
        | inl f ↦ rw f (same_Handled s d false v.placed)
        | inr (lines, f) ↦ rw f (
            bind_some (Handled d) d.pmenu _ v.here
              (radio_Handled s d p m lines v (u.radio lines f).0 (u.radio lines f).1))
      ])
      | inr (q, e) ↦ rw e (same_Handled s d true v.placed)
    ])
