-- ===== src/Client/Command/Renew.antt =====
-- client/efikampd.c: the menus after a change of the player's library.
use efika_mpd.Base.{ℕ, suc, ◌<◌, ◌≡◌, ◌≢◌, none, some, arith, Returns}
use efika_mpd.Client.{Menu}
use efika_mpd.Client.Heap.{store, release, menu_create_entry}
use efika_mpd.Client.State.{Daemon}
use efika_mpd.Client.Menus.{free_list, menu_free}
use efika_mpd.Client.Menus.Fetch.{menu_init}
use efika_mpd.Client.Menus.Top.{library_entry, radio_entry}
use efika_mpd.Client.Command.{renew_menu}

-- When the library changes while the first entry of the top menu has no children, no menu is open
-- afterwards and the top menu is a new one, in new cells. The old first entry is freed, but the
-- entry behind it is not freed by this.
pub renew_menu_lem :
    (d : Daemon) (p q : ℕ) (m n : Menu)
    → d.top_menu ≡ some p
    → d.heap.cell p ≡ some m
    → d.heap.cell q ≡ some n
    → m.child ≡ none
    → m.next ≡ some q
    → p ≢ q
    → p < d.heap.fresh
    → q < d.heap.fresh
    → Returns
        (λ d'.
          (d'.pmenu ≡ none)
          × (d'.top_menu ≡ some d.heap.fresh)
          × (d'.heap.cell d.heap.fresh ≡ some (library_entry (suc d.heap.fresh)))
          × (d'.heap.cell (suc d.heap.fresh) ≡ some (radio_entry d.heap.fresh))
          × (d'.heap.cell p ≡ none)
          × (d'.heap.cell q ≡ some n))
        (renew_menu d)
unfolding renew_menu menu_free free_list release menu_init menu_create_entry store
renew_menu_lem d p q m n t ep eq c x pq lp lq = ground arith
