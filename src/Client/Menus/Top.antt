-- ===== src/Client/Menus/Top.antt =====
-- client/efikampd.c: the top menu, and the menus that have no entry.
use efika_mpd.Base.{ℕ, suc, ◌≡◌, ◌≢◌, Bool, Option, none, some, [], arith, Returns}
use efika_mpd.Client.{Menu, Handler, fetch_artists, fetch_radio}
use efika_mpd.Client.Heap.{Heap, store, menu_create_entry}
use efika_mpd.Client.Text.{codes}
use efika_mpd.Client.Menus.{insert_all, seek_guard, drop_guard, menu_populate}
use efika_mpd.Client.Menus.Fetch.{menu_init}

-- The two entries of the top menu, at `p` and `q`.
abbrev pub library_entry : ℕ → Menu
library_entry q = record {
  file = none;
  text = some (codes "Library");
  next = some q;
  prev = none;
  child = none;
  parent = none;
  handler_select = some fetch_artists;
  handler_play = none;
}

abbrev pub radio_entry : ℕ → Menu
radio_entry p = record {
  file = none;
  text = some (codes "Radio");
  next = none;
  prev = some p;
  child = none;
  parent = none;
  handler_select = some fetch_radio;
  handler_play = none;
}

-- `menu_init` allocates two cells, the entries Library and Radio, which are linked to each other
-- and to nothing else, returns the first, and leaves every other cell alone.
pub menu_init_lem :
    (h : Heap) (k : ℕ)
    → k ≢ h.fresh
    → k ≢ suc h.fresh
    → Returns
        (λ r.
          let (p, h') = r in
          (p ≡ h.fresh)
          × (h'.cell p ≡ some (library_entry (suc p)))
          × (h'.cell (suc p) ≡ some (radio_entry p))
          × (h'.fresh ≡ suc (suc h.fresh))
          × (h'.cell k ≡ h.cell k))
        (menu_init h)
unfolding menu_init menu_create_entry store
menu_init_lem h k n m = ground arith

-- An answer of libmpd with no entry ends in a fault, whatever the handlers and the order: the
-- guard has nothing before it when its link is to be cut.
pub menu_populate-empty :
    (pmenu : ℕ) (hs hp : Option Handler) (sort : Bool) (h : Heap)
    → menu_populate pmenu [] hs hp sort h ≡ none
unfolding menu_populate menu_create_entry insert_all seek_guard drop_guard
menu_populate-empty pmenu hs hp sort h = ground arith
