-- ===== src/Client/Menus/Tree/Radio.antt =====
-- client/efikampd.c: `menu_fetch_radio` on a closed set of cells.
use efika_mpd.Base.{
  ℕ, suc, ◌+◌, ◌<◌, ◌≤◌, ◌≡◌, refl, ap, ◌≢◌, Bool, true, Option, none, some, inl, inr, List, [],
  ◌∷◌, arith, ◌>>=◌, length, All, Returns, Returns->>=,
}
use efika_mpd.Client.{Menu}
use efika_mpd.Client.Heap.{Heap}
use efika_mpd.Client.State.{Daemon}
use efika_mpd.Client.Menus.Fetch.{read_stations, put_heap}
use efika_mpd.Client.Menus.Stations.{Station, station, Linked}
use efika_mpd.Client.Menus.Stations.Read.{stations_of, IsLine, read_stations_lem}
use efika_mpd.Client.Menus.Chain.{Row}
use efika_mpd.Client.Menus.Chain.Insert.{Below}
use efika_mpd.Client.Menus.Chain.Populate.{Listed, Children}
use efika_mpd.Client.Menus.Chain.{Apart, Distinct}
use efika_mpd.Client.Menus.Chain.Insert.{Beyond}
use efika_mpd.Client.Menus.Tree.Placed.{Handled, Filled-Handled, IsAt}

-- The stations as rows.
abbrev station_rows : ℕ → List Station → List Row
station_rows c [] = []
station_rows c (s ∷ ss) = (c, s.0) ∷ station_rows (suc c) ss

stations-Listed :
    (h : Heap) (pmenu c : ℕ) (prev : Option ℕ) (ss : List Station)
    → Linked h pmenu c prev ss
    → Listed h prev (station_rows c ss)
stations-Listed h pmenu c prev [] k = tt
stations-Listed h pmenu c prev (s ∷ []) k = (
  record { menu = station pmenu s prev none; here = k.0; text = refl; back = refl; forth = refl },
  tt,
)
stations-Listed h pmenu c prev (s ∷ x ∷ ss) k = (
  record {
    menu = station pmenu s prev (some (suc c));
    here = k.0;
    text = refl;
    back = refl;
    forth = refl;
  },
  stations-Listed h pmenu (suc c) (some c) (x ∷ ss) k.1,
)

stations-Children :
    (h : Heap) (pmenu c : ℕ) (prev : Option ℕ) (ss : List Station)
    → Linked h pmenu c prev ss
    → Children h pmenu (station_rows c ss)
stations-Children h pmenu c prev [] k = tt
stations-Children h pmenu c prev (s ∷ ss) k =
    (λ m e. ground (arith, k.0, e), stations-Children h pmenu (suc c) (some c) ss k.1)

stations-Below :
    (f g c : ℕ) (ss : List Station) → c + length ss ≤ f → g < f → Below f (station_rows c ss) g
stations-Below f g c [] h k = k
stations-Below f g c (s ∷ ss) h k =
    (omega (arith, h), stations-Below f g (suc c) ss (omega (arith, h)) k)

stations-Beyond : (g c : ℕ) (ss : List Station) → g < c → Beyond g (station_rows c ss)
stations-Beyond g c [] h = tt
stations-Beyond g c (s ∷ ss) h = (h, stations-Beyond g (suc c) ss (omega (arith, h)))

stations-Apart : (k g c : ℕ) (ss : List Station) → k < c → k ≢ g → Apart k (station_rows c ss) g
stations-Apart k g c [] h n = n
stations-Apart k g c (s ∷ ss) h n =
    ((λ z. absurd (omega (arith, z, h))), stations-Apart k g (suc c) ss (omega (arith, h)) n)

stations-Distinct : (g c : ℕ) (ss : List Station) → g < c → Distinct (station_rows c ss) g
stations-Distinct g c [] h = tt
stations-Distinct g c (s ∷ ss) h = (
  stations-Apart c g (suc c) ss (omega arith) (λ z. absurd (omega (arith, z, h))),
  stations-Distinct g (suc c) ss (omega (arith, h)),
)

rows-length : (c : ℕ) (ss : List Station) → length (station_rows c ss) ≡ length ss
rows-length c [] = refl
rows-length c (s ∷ ss) = ap suc (rows-length (suc c) ss)

read_Handled :
    (s : ℕ → Bool) (d : Daemon) (p : ℕ) (m : Menu) (ss : List Station) (h : Heap)
    → IsAt s d p m
    → ss ≢ []
    → h.cell p ≡ some (record m { child = some d.heap.fresh })
    → Linked h p d.heap.fresh none ss
    → h.fresh ≡ d.heap.fresh + length ss
    → ((k : ℕ) → k < d.heap.fresh → k ≢ p → h.cell k ≡ d.heap.cell k)
    → Handled d (true, put_heap d h)
read_Handled s d p m [] h v n c l f o = absurd (n refl)
read_Handled s d p m (x ∷ ss) h v n c l f o =
    let lt : p < d.heap.fresh = v.placed.closed.below p v.member in
    Filled-Handled s d p p m (station_rows d.heap.fresh (x ∷ ss)) h v.placed v.here v.member v.cell
      (omega arith)
      (
        stations-Listed h p d.heap.fresh none (x ∷ ss) l,
        c,
        stations-Children h p d.heap.fresh none (x ∷ ss) l,
        o,
        stations-Below h.fresh d.heap.fresh d.heap.fresh (x ∷ ss) (omega (arith, f))
            (omega (arith, f)),
        stations-Beyond p d.heap.fresh (x ∷ ss) lt,
        stations-Distinct p d.heap.fresh (x ∷ ss) lt,
        omega (arith, f, rows-length d.heap.fresh (x ∷ ss), lt),
        omega arith,
      )

pub radio_Handled :
    (s : ℕ → Bool) (d : Daemon) (p : ℕ) (m : Menu) (lines : List (List ℕ))
    → IsAt s d p m
    → All IsLine lines
    → stations_of lines ≢ []
    → Returns (Handled d) (read_stations p lines d.heap >>= λ h. some (true, put_heap d h))
radio_Handled s d p m lines v a n =
    elim (read_stations_lem lines d.heap p m a (v.placed.closed.below p v.member) v.cell) [
      | inl (x, y) ↦ absurd (n x)
      | inr f ↦
          Returns->>= _ (Handled d) (read_stations p lines d.heap) _ f
            λ h q. read_Handled s d p m (stations_of lines) h v n q.0 q.1 q.2 q.3
    ]
