-- ===== src/Client/Menus/Tree/Placed.antt =====
-- client/efikampd.c: the daemon at an entry of a closed set of cells, and what the handlers need.
use efika_mpd.Base.{
  ℕ, ◌<◌, ◌≡◌, refl, sym, ◌≢◌, Bool, true, Option, some, List, [], ◌∷◌, arith, ◌>>=◌, length, subst,
  All, Returns,
}
use efika_mpd.Client.{Menu}
use efika_mpd.Client.Heap.{Heap, load}
use efika_mpd.Client.Mpd.{Entry, tag, song, other, Mpd}
use efika_mpd.Client.State.{Daemon}
use efika_mpd.Client.Menus.Fetch.{put_heap}
use efika_mpd.Client.Menus.Stations.Read.{stations_of, IsLine}
use efika_mpd.Client.Menus.Chain.{Row}
use efika_mpd.Client.Menus.Chain.Insert.{HaveTexts}
use efika_mpd.Client.Menus.Tree.{Inside, Into, IsHeld, IsClosed, grow-Inside, grow-Into}
use efika_mpd.Client.Menus.Tree.Rows.{with_rows}
use efika_mpd.Client.Menus.Tree.Grown.{Filled, old-grown, grown-IsClosed}

-- An answer with at least one entry, each with a text.
abbrev pub HasEntries : List Entry → Type 0
HasEntries es = (t : List ℕ) × (ts : List (List ℕ)) × HaveTexts es (t ∷ ts)

abbrev pub IsSong : Entry → Type 0
IsSong (song s) = Unit {0}
IsSong (tag t) = ⊥
IsSong other = ⊥

-- What the menus need of libmpd and of radio.csv: no list is empty, each entry has a text, a search
-- for songs finds songs, and the file has a line with a name and a path.
pub record IsFull (mpd : Mpd) : Type 0 where
  pub artists : HasEntries mpd.artists
  pub albums : (a : Option (List ℕ)) → HasEntries (mpd.albums a)
  pub songs : (a b : Option (List ℕ)) → HasEntries (mpd.songs a b)
  pub all_songs : (a b : Option (List ℕ)) → All IsSong (mpd.songs a b)
  pub radio :
      (lines : List (List ℕ)) → mpd.radio ≡ some lines → All IsLine lines × (stations_of lines ≢ [])

-- Both pointers of the daemon lead into a closed set, and there is a top menu.
pub record IsPlaced (s : ℕ → Bool) (d : Daemon) : Type 0 where
  pub closed : IsClosed s d.heap
  pub pmenu : Inside s d.pmenu
  pub top : Into s d.top_menu

-- A handler has run from an open menu, and left the daemon in its place.
abbrev pub Handled : Daemon → Bool × Daemon → Type 0
Handled d r = ((s : ℕ → Bool) × IsPlaced s r.1) × (r.1.pmenu ≡ d.pmenu) × (r.1.lcd ≡ d.lcd)

pub bind_some :
    {A : Type 0} {B : Type 0} (Q : B → Type 0) (m : Option A) (f : A → Option B) {a : A}
    → m ≡ some a
    → Returns Q (f a)
    → Returns Q (m >>= f)
bind_some Q m f e h = subst (λ x. Returns Q (x >>= f)) (sym e) h

pub same_Handled : (s : ℕ → Bool) (d : Daemon) (b : Bool) → IsPlaced s d → Handled d (b, d)
same_Handled s d b v = ((s, v), refl, refl)

pub Filled-Handled :
    (s : ℕ → Bool) (d : Daemon) (p g : ℕ) (m : Menu) (rs : List Row) (h : Heap)
    → IsPlaced s d
    → d.pmenu ≡ some p
    → s p ≡ true
    → d.heap.cell p ≡ some m
    → 0 < length rs
    → Filled g d.heap p m rs h
    → Handled d (true, put_heap d h)
Filled-Handled s d p g m [] h v e sp em l f = absurd (omega (arith, l))
Filled-Handled s d p g m (r ∷ rs) h v e sp em l f =
    let s' = with_rows s (r ∷ rs) in
    let old = old-grown s d.heap h p g m r rs in
    (
      (
        s',
        record {
          closed = grown-IsClosed s d.heap h p g m r rs v.closed em sp f;
          pmenu = grow-Inside s s' d.pmenu old v.pmenu;
          top = grow-Into s s' d.top_menu old v.top;
        },
      ),
      refl,
      refl,
    )

-- The daemon stands at the entry `m` in cell `p`.
pub record IsAt (s : ℕ → Bool) (d : Daemon) (p : ℕ) (m : Menu) : Type 0 where
  pub placed : IsPlaced s d
  pub here : d.pmenu ≡ some p
  pub member : s p ≡ true
  pub cell : d.heap.cell p ≡ some m
  pub held : IsHeld s m

pub load-IsAt :
    {s : ℕ → Bool} {d : Daemon} {p : ℕ} {m : Menu} → IsAt s d p m → load d.pmenu d.heap ≡ some m
unfolding load
load-IsAt v = ground (arith, v.here, v.cell)

pub load_parent :
    (d : Daemon) (m : Menu) (q : ℕ) (artist : Menu)
    → m.parent ≡ some q
    → d.heap.cell q ≡ some artist
    → load m.parent d.heap ≡ some artist
unfolding load
load_parent d m q artist e a = ground (arith, e, a)
