-- ===== src/Client/Menus.antt =====
-- client/efikampd.c: the menus and the functions that fill them from libmpd and from radio.csv. A
-- loop along a list takes as fuel one more than the number of cells that were ever allocated.
pub mod Fetch
pub mod Top
pub mod Same
pub mod Stations
pub mod Chain
pub mod Tree
use efika_mpd.Base.{
  ℕ, zero, suc, ◌+◌, ◌-◌, Bool, true, false, Option, none, some, List, [], ◌∷◌, ◌++◌, ltb, ◌==◌,
  if◌then◌else◌, ◌>>=◌, length, take,
}
use efika_mpd.Client.{
  Menu, Handler, select_song, play_album, fetch_songs, fetch_albums, fetch_artists, fetch_radio,
  PlayState, state_play, line_length,
}
use efika_mpd.Client.Heap.{Heap, load, store, release, menu_create_entry}
use efika_mpd.Client.Text.{codes, snprintf, text_or_null, str_ltb, strtok}
use efika_mpd.Client.Mpd.{
  Song, Entry, tag, song, other, Mpd, Call, play, playlist_clear, queue_add, queue_commit,
}
use efika_mpd.Client.State.{Daemon, ask}

abbrev pub is_some {ℓ} : {A : Type ℓ} → Option A → Bool
is_some none = false
is_some (some a) = true

-- `free_list` is the loop of `menu_free` over the children; both take the same fuel.
unfoldable pub free_list : (ℕ → Heap → Option (Option ℕ × Heap)) → ℕ → Option ℕ → Heap → Option Heap
free_list free_one zero p h = elim p [ none ↦ some h | some q ↦ none ]
free_list free_one (suc fuel) p h = elim p [
  | none ↦ some h
  | some q ↦ free_one q h >>= λ r. free_list free_one fuel r.0 r.1
]

-- The result is the pointer that `menu_free` returns, and the heap.
unfoldable pub menu_free : ℕ → ℕ → Heap → Option (Option ℕ × Heap)
menu_free zero p h = none
menu_free (suc fuel) p h = h.cell p >>= λ m.
    free_list (menu_free fuel) (suc fuel) m.child h >>= λ h'.
    release p h' >>= λ h''. some (m.next, h'')

-- `while (p->text && strcmp(p->text, n->text) < 0) p = p->next;`
unfoldable pub seek : ℕ → ℕ → ℕ → Heap → Option ℕ
seek zero n p h = none
seek (suc fuel) n p h = h.cell p >>= λ m. elim m.text [
  | none ↦ some p
  | some t ↦ h.cell n >>= λ new. new.text >>= λ u.
      let further = m.next >>= λ q. seek fuel n q h in if str_ltb t u then further else some p
]

-- `q->next = n` through a pointer that is not null.
unfoldable pub set_next : Option ℕ → Option ℕ → Heap → Option Heap
set_next none n h = some h
set_next (some q) n h = h.cell q >>= λ m. store q (record m { next = n }) h

-- Puts `n` in front of `p`; a list that is not sorted has no use for what stands before `p`.
unfoldable pub link_before : Bool → ℕ → ℕ → ℕ → Heap → Option Heap
link_before sort pmenu n p h = h.cell p >>= λ m.
    (if sort
      then (set_next m.prev (some n) h >>= λ h1.
          h1.cell n >>= λ new. store n (record new { prev = m.prev }) h1)
      else some h)
    >>= λ h2. h2.cell p >>= λ m2. store p (record m2 { prev = some n }) h2 >>= λ h3.
        h3.cell n >>= λ new. store n (record new { next = some p; parent = some pmenu }) h3

-- The cell that `menu_populate` makes for an entry, or the last one again if it makes none.
unfoldable pub entry_cell :
    Option Handler → Option Handler → Entry → Option ℕ → Heap → Option ℕ × Heap
entry_cell hs hp (tag t) n h = let (q, h') = menu_create_entry t none hs hp h in (some q, h')
entry_cell hs hp (song s) n h =
    let text = text_or_null s.track ++ codes ". " ++ text_or_null s.title in
    let (q, h') = menu_create_entry (some (take (line_length - 1) text)) s.file hs hp h in
    (some q, h')
entry_cell hs hp other n h = (n, h)

-- The loop of `menu_populate`: the head of the list after all entries.
unfoldable pub insert_all :
    Bool
    → ℕ
    → Option Handler
    → Option Handler
    → List Entry
    → ℕ
    → Option ℕ
    → Heap
    → Option (ℕ × Heap)
insert_all sort pmenu hs hp [] head n h = some (head, h)
insert_all sort pmenu hs hp (e ∷ es) head n h =
    let (n', h1) = entry_cell hs hp e n h in
    n' >>= λ q. (if sort then seek (suc h1.fresh) q head h1 else some head) >>= λ p.
    link_before sort pmenu q p h1 >>= λ h2.
    insert_all sort pmenu hs hp es (if p == head then q else head) n' h2

-- `while (p->text) p = p->next;`
unfoldable pub seek_guard : ℕ → ℕ → Heap → Option ℕ
seek_guard zero p h = none
seek_guard (suc fuel) p h =
    h.cell p >>= λ m. elim m.text [ none ↦ some p | some t ↦ m.next >>= λ q. seek_guard fuel q h ]

-- `p->prev->next = NULL; menu_free(p);`
unfoldable pub drop_guard : ℕ → Heap → Option Heap
drop_guard p h = h.cell p >>= λ m. m.prev >>= λ q. h.cell q >>= λ m'.
    store q (record m' { next = none }) h >>= λ h1. menu_free (suc h1.fresh) p h1 >>= λ r. some r.1

unfoldable pub menu_populate :
    ℕ → List Entry → Option Handler → Option Handler → Bool → Heap → Option Heap
menu_populate pmenu es hs hp sort h =
    let (guard, h0) = menu_create_entry none none none none h in
    insert_all sort pmenu hs hp es guard none h0 >>= λ r.
    seek_guard (suc r.1.fresh) r.0 r.1 >>= λ p.
    drop_guard p r.1 >>= λ h1. h1.cell pmenu >>= λ m. store pmenu (record m { child = some r.0 }) h1
